-- ===== src/Firewall/Forgotten.antt =====
-- The recursion of iptables_fw_destroy_mention in src/fw_iptables.c.
use nodogsplash.Prelude.{
  Bool-cases, List, Option, Option-cases, [], arith, inl, inr, none, refl, some, suc, zero, ℕ, ◌&&◌,
  ◌<◌, ◌∷◌, ◌≡◌,
}
use nodogsplash.Prelude.Int32.{minus_one}
use nodogsplash.CString.{CString}
use nodogsplash.Conf.DebugLevel.{starts_digit}
use nodogsplash.Firewall.{iptables_do_command}
use nodogsplash.Firewall.Teardown.{
  contains, entries, find_mention, iptables_fw_destroy_mention, mentions,
}
use nodogsplash.Netfilter.{Chain, Table, delete_number}
use nodogsplash.World.{Env, World, set_up}

mentions-none :
    (word : CString) (lines : List CString)
    → mentions word lines ≡ 0
    → find_mention word lines ≡ none
unfolding mentions find_mention
mentions-none word [] h = refl
mentions-none word (line ∷ lines) h = elim (Bool-cases (contains line word && starts_digit line)) [
  | inl found ↦ absurd (ground (arith, rw found at h))
  | inr other ↦ rw other (mentions-none word lines (rw other at h))
]

module _ (env : Env) (listed : World → Table → Chain → Option (List CString)) (t : Table)
    (c : Chain) (word : CString) where
  -- The world behind the deletion of the rule with a number.
  abbrev pub deleted : World → ℕ → World
  deleted w n = (iptables_do_command env w (set_up (delete_number t c n))).0

  -- With enough fuel, the mentions are all deleted.
  forgets :
      ((w : World) (n : ℕ)
        → find_mention word (entries env listed w t c) ≡ some n
        → mentions word (entries env listed (deleted w n) t c)
          < mentions word (entries env listed w t c))
      → (fuel : ℕ) (w : World) → mentions word (entries env listed w t c) < fuel
      → (w' : World) × (rc : ℕ) × (iptables_fw_destroy_mention env listed fuel w t c word
          ≡ some (w', rc))
        × (find_mention word (entries env listed w' t c) ≡ none)
  unfolding iptables_fw_destroy_mention
  forgets shrinks zero w h = absurd (ground (arith, h))
  forgets shrinks (suc fuel) w h =
      elim (Option-cases (find_mention word (entries env listed w t c))) [
        | inl nowhere ↦ (w, minus_one, rw (iptables_fw_destroy_mention, nowhere) refl, nowhere)
        | inr (n, found) ↦
            let (w', rc, over, clean) =
              forgets shrinks fuel (deleted w n) (ground (arith, shrinks w n found, h)) in
            (w', 0, rw (iptables_fw_destroy_mention, found) (rw over refl), clean)
      ]

  -- If the listing names a rule with the mention whatever commands were run, as where the deletion
  -- fails, iptables_fw_destroy_mention calls itself for ever: no fuel is enough.
  pub failing_delete_recurses :
      (n : ℕ)
      → ((w : World) → find_mention word (entries env listed w t c) ≡ some n)
      → (fuel : ℕ) (w : World) → iptables_fw_destroy_mention env listed fuel w t c word ≡ none
  unfolding iptables_fw_destroy_mention
  failing_delete_recurses n stays zero w = refl
  failing_delete_recurses n stays (suc fuel) w =
      rw (iptables_fw_destroy_mention, stays w)
        (rw (failing_delete_recurses n stays fuel (deleted w n)) refl)

  -- Where every deletion of a rule that was found lowers the number of rules with the mention,
  -- iptables_fw_destroy_mention ends within as many calls as there are mentions and one, and the
  -- listing has no mention left.
  pub destroy_mention_forgets :
      ((w : World) (n : ℕ)
        → find_mention word (entries env listed w t c) ≡ some n
        → mentions word (entries env listed (deleted w n) t c)
          < mentions word (entries env listed w t c))
      → (w : World)
      → (w' : World) × (rc : ℕ) × (iptables_fw_destroy_mention env listed
            (suc (mentions word (entries env listed w t c)))
            w
            t
            c
            word
          ≡ some (w', rc))
        × (find_mention word (entries env listed w' t c) ≡ none)
  destroy_mention_forgets shrinks w = forgets shrinks _ w (ground arith)
