-- ===== src/Tc/Balance.antt =====
-- What tc_attach_client and tc_detach_client of src/tc.c create and remove.
use nodogsplash.Prelude.{
  Bool, Bool-cases, List, [], ap, arith, false, if◌then◌else◌, inl, inr, refl, sym, true, ℕ, ◌&&◌,
  ◌++◌, ◌+◌, ◌<◌, ◌==◌, ◌^◌, ◌||◌, ◌∙◌, ◌∷◌, ◌≡◌, ◌≢◌, ◌≤◌,
}
use nodogsplash.Prelude.Int32.{int_lt, int_min, is_pos}
use nodogsplash.CString.{CString, str_eq}
use nodogsplash.Config.{Config}
use nodogsplash.Tc.{attach_commands, attach_direction, class_of, detach_commands, detach_direction}
use nodogsplash.World.{
  Side, TcCommand, add_class, add_filter, add_qdisc, del_class, del_filter, del_qdisc, ip_dst,
  ip_src,
}

-- A class, a filter by its priority, or a queue by the class that it is attached to.
pub data TcObject : Type 0 where
  tc_class tc_filter tc_queue : CString → ℕ → TcObject

unfoldable pub creates : TcObject → TcCommand → Bool
creates (tc_class d i) (add_class dev parent id curve rates) = str_eq d dev && i == id
creates (tc_filter d i) (add_filter dev prio side ip match id) = str_eq d dev && i == prio
creates (tc_queue d i) (add_qdisc dev id) = str_eq d dev && i == id
creates _ _ = false

unfoldable pub removes : TcObject → TcCommand → Bool
removes (tc_class d i) (del_class dev id) = str_eq d dev && i == id
removes (tc_filter d i) (del_filter dev prio) = str_eq d dev && i == prio
removes (tc_queue d i) (del_qdisc dev id) = str_eq d dev && i == id
removes _ _ = false

unfoldable pub any_command : (TcCommand → Bool) → List TcCommand → Bool
any_command test [] = false
any_command test (c ∷ cs) = test c || any_command test cs

any-append :
    (test : TcCommand → Bool) (xs ys : List TcCommand)
    → any_command test (xs ++ ys) ≡ (any_command test xs || any_command test ys)
unfolding any_command
any-append test [] ys = refl
any-append test (x ∷ xs) ys = ground (arith, any-append test xs ys)

direction_balance :
    (o : TcObject) (dev : CString) (limit id : ℕ) (side : Side) (ip : CString)
    → any_command (creates o) (attach_direction dev limit id side ip)
      ≡ any_command (removes o) (detach_direction dev id)
unfolding any_command creates removes attach_direction detach_direction
direction_balance (tc_class d i) dev limit id side ip = ground arith
direction_balance (tc_filter d i) dev limit id side ip = ground arith
direction_balance (tc_queue d i) dev limit id side ip = ground arith

cc_false : false ≡ true → ⊥
cc_false e = cc

or_mono :
    (a b c d : Bool)
    → (a ≡ true → c ≡ true)
    → (b ≡ true → d ≡ true)
    → (a || b) ≡ true
    → (c || d) ≡ true
or_mono true b c d f g e = rw (f refl) refl
or_mono false true c d f g e = ground (arith, g refl)
or_mono false false c d f g e = cc

-- A positive minimum has positive arguments.
int_min_pos : (a b : ℕ) → a < 2 ^ 32 → is_pos (int_min a b) ≡ true → is_pos a ≡ true
int_min_pos a b small e = elim (Bool-cases (int_lt a b)) [
  | inl less ↦ ground (arith, less, e)
  | inr more ↦ ground (arith, more, e, small)
]

one_direction :
    (o : TcObject) (dev : CString) (limit config_limit id : ℕ) (side : Side) (ip : CString)
    → limit < 2 ^ 32
    → any_command (creates o) (
        if is_pos (int_min limit config_limit)
        then attach_direction dev (int_min limit config_limit) id side ip
        else [])
      ≡ true
    → any_command (removes o) (if is_pos limit then detach_direction dev id else []) ≡ true
unfolding any_command
one_direction o dev limit config_limit id side ip small e =
    elim (Bool-cases (is_pos (int_min limit config_limit))) [
      | inl on ↦ rw (int_min_pos limit config_limit small on) (
          sym (direction_balance o dev (int_min limit config_limit) id side ip)
          ∙ (ap
                (λ b.
                  any_command (creates o) (
                    if b then attach_direction dev (int_min limit config_limit) id side ip else []))
                (sym on)
              ∙ e))
      | inr off ↦ absurd (
          cc_false (
            ap
              (λ b.
                any_command (creates o)
                  (if b then attach_direction dev (int_min limit config_limit) id side ip else []))
              (sym off)
            ∙ e))
    ]

-- Every class, filter and queue that attaching a client creates is one that detaching it with the
-- same arguments removes, whatever the limits of the configuration, for limits that are ints.
pub detach_removes :
    (o : TcObject) (config : Config) (down_dev : CString) (dl : ℕ) (up_dev : CString) (ul idx : ℕ)
    (ip : CString)
    → dl < 2 ^ 32
    → ul < 2 ^ 32
    → any_command (creates o) (attach_commands config down_dev dl up_dev ul idx ip) ≡ true
    → any_command (removes o) (detach_commands down_dev dl up_dev ul idx) ≡ true
unfolding attach_commands detach_commands
detach_removes o config down_dev dl up_dev ul idx ip small_dl small_ul e =
    any-append (removes o) _ _
    ∙ or_mono _ _ _ _
        (one_direction o down_dev dl config.download_limit (class_of idx) ip_dst ip small_dl)
        (one_direction o up_dev ul config.upload_limit (class_of idx) ip_src ip small_ul)
        (sym (any-append (creates o) _ _) ∙ e)

object_number : TcObject → ℕ
object_number (tc_class d i) = i
object_number (tc_filter d i) = i
object_number (tc_queue d i) = i

direction_range :
    (o : TcObject) (dev : CString) (limit id : ℕ) (side : Side) (ip : CString)
    → any_command (creates o) (attach_direction dev limit id side ip) ≡ true
    → (id ≤ object_number o) × (object_number o ≤ id + 2)
unfolding any_command creates attach_direction object_number
direction_range (tc_class d i) dev limit id side ip e = ground (arith, e)
direction_range (tc_filter d i) dev limit id side ip e = ground (arith, e)
direction_range (tc_queue d i) dev limit id side ip e = ground (arith, e)

attach_range :
    (o : TcObject) (config : Config) (down_dev : CString) (dl : ℕ) (up_dev : CString) (ul idx : ℕ)
    (ip : CString)
    → any_command (creates o) (attach_commands config down_dev dl up_dev ul idx ip) ≡ true
    → (class_of idx ≤ object_number o) × (object_number o ≤ class_of idx + 2)
unfolding attach_commands any_command
attach_range o config down_dev dl up_dev ul idx ip e =
    let down_limit = int_min dl config.download_limit in
    let up_limit = int_min ul config.upload_limit in
    let down =
      if is_pos down_limit
      then attach_direction down_dev down_limit (class_of idx) ip_dst ip
      else [] in
    let up =
      if is_pos up_limit then attach_direction up_dev up_limit (class_of idx) ip_src ip else [] in
    ground (
      arith,
      e,
      any-append (creates o) down up,
      direction_range o down_dev down_limit (class_of idx) ip_dst ip,
      direction_range o up_dev up_limit (class_of idx) ip_src ip,
    )

-- Two clients with different identifiers that are attached to the same devices with the same limits
-- share no class, filter or queue.
pub attach_disjoint :
    (o : TcObject) (config : Config) (down_dev : CString) (dl : ℕ) (up_dev : CString)
    (ul idx idx' : ℕ) (ip ip' : CString)
    → idx ≢ idx'
    → any_command (creates o) (attach_commands config down_dev dl up_dev ul idx ip) ≡ true
    → any_command (creates o) (attach_commands config down_dev dl up_dev ul idx' ip') ≡ false
attach_disjoint o config down_dev dl up_dev ul idx idx' ip ip' ne e =
    elim (Bool-cases
      (any_command (creates o) (attach_commands config down_dev dl up_dev ul idx' ip'))) [
        | inl both ↦ absurd (
            ground (
              arith,
              ne,
              attach_range o config down_dev dl up_dev ul idx ip e,
              attach_range o config down_dev dl up_dev ul idx' ip' both,
            ))
        | inr apart ↦ apart
      ]
