-- ===== src/Firewall/Reset.antt =====
-- iptables_fw_init and iptables_fw_destroy of src/fw_iptables.c as changes of the state: only commands
-- are run, and none of them gives a client access.
use nodogsplash.Prelude.{
  Bool-cases, List, Option, Option-cases, [], and_then, and_then-some, arith, bit_or, if◌then◌else◌,
  inl, inr, map_option-some, refl, some, subst, suc, true, zero, ℕ, ◌==◌, ◌||◌, ◌∷◌, ◌≡◌,
}
use nodogsplash.Prelude.Int32.{int_lt, is_neg, is_pos, minus_one}
use nodogsplash.CString.{CString}
use nodogsplash.Conf.Options.{Settings}
use nodogsplash.Config.{mac_allow, mac_block}
use nodogsplash.Firewall.{
  interface_name, iptables_allow_mac, iptables_block_mac, iptables_do_command, iptables_trust_mac,
  upload_ifbname,
}
use nodogsplash.Firewall.Filter.{filter_part, iptables_fw_init, nat_part}
use nodogsplash.Firewall.Installed.{IsReliable, change, rule_eq}
use nodogsplash.Firewall.Marks.{load_marks, start_marks}
use nodogsplash.Firewall.Queues.{
  download_commands, init_download, init_upload, tc_attach_download_qdisc, tc_attach_upload_qdisc,
  tc_destroy_tc, tc_init_tc, upload_commands,
}
use nodogsplash.Firewall.Quiet.{
  IsQuiet, IsQuiet-after, Quietly, Quietly-refl, Quietly-trans, do_command-Quietly, flushes,
  for_each_mac-Quietly, run_all-Quietly, run_command-Quietly, run_set_up-IsQuiet,
  run_set_up-Quietly, set_up-IsHarmless,
}
use nodogsplash.Firewall.Start.{
  MarkStyle, for_each_mac, get_iptables_version, iptables_check_mark_masking, mac_rules,
  mangle_chains, mangle_part, min_iptables_version, run_set_up, test_rule,
}
use nodogsplash.Firewall.Teardown.{
  chain_name, destroy_filter, destroy_mangle, destroy_mentions, destroy_nat, destroy_table, entries,
  find_mention, flush_and_delete, mangle_mentions, iptables_fw_destroy, iptables_fw_destroy_mention,
}
use nodogsplash.Netfilter.{
  Chain, SetUp, Table, allowed_users, authenticated_users, forward_chain, input_chain, to_internet,
  to_router, trusted_to_router, blocked_users, chain_eq, incoming, trusted_users, delete_number,
  filter_table, mangle_table, nat_table, outgoing, prerouting,
}
use nodogsplash.World.{
  Env, World, append, del_ingress_qdisc, del_root_qdisc, insert, mark_blocked, mark_trusted,
  pass_allowed, run_command, set_link, set_up,
}

test_rule-Quietly :
    (env : Env) (w : World) (try undo : SetUp) → Quietly w (test_rule env w try undo).0
unfolding test_rule
test_rule-Quietly env w try undo =
    let (w1, rc) = iptables_do_command env w (set_up try) in
    let once : Quietly w w1 = do_command-Quietly env w (set_up try) (set_up-IsHarmless try) in
    elim (Bool-cases (rc == 0)) [
      | inl worked ↦ rw worked (
          Quietly-trans w w1 _ once
            (do_command-Quietly env w1 (set_up undo) (set_up-IsHarmless undo)))
      | inr failed ↦ rw failed once
    ]

mark_masking-Quietly :
    (env : Env) (w : World) (mask : ℕ) → Quietly w (iptables_check_mark_masking env w mask).0
unfolding iptables_check_mark_masking
mark_masking-Quietly env w mask =
    Quietly-trans w (test_rule env w _ _).0 _ (test_rule-Quietly env w _ _)
      (test_rule-Quietly env _ _ _)

download-Quietly :
    (env : Env) (w : World) (dev : CString) (limit : ℕ)
    → Quietly w (tc_attach_download_qdisc env w dev limit).0
unfolding tc_attach_download_qdisc download_commands change
download-Quietly env w dev limit =
    Quietly-trans w (run_command env w (del_root_qdisc dev)).0 _
      (run_command-Quietly env w (del_root_qdisc dev) (λ mac ip. refl))
      (run_all-Quietly env _ (download_commands dev limit)
        (λ mac ip. refl, (λ mac ip. refl, (λ mac ip. refl, tt))))

upload-Quietly :
    (env : Env) (w : World) (dev ifb : CString) (limit : ℕ)
    → Quietly w (tc_attach_upload_qdisc env w dev ifb limit).0
unfolding tc_attach_upload_qdisc upload_commands change
upload-Quietly env w dev ifb limit =
    let w1 = (run_command env w (del_root_qdisc ifb)).0 in
    Quietly-trans w w1 _ (run_command-Quietly env w (del_root_qdisc ifb) (λ mac ip. refl)) (
      Quietly-trans w1 (run_command env w1 (del_ingress_qdisc dev)).0 _
        (run_command-Quietly env w1 (del_ingress_qdisc dev) (λ mac ip. refl))
        (run_all-Quietly env _ (upload_commands dev ifb limit) (
          λ mac ip. refl,
          (λ mac ip. refl, (λ mac ip. refl, (λ mac ip. refl, (λ mac ip. refl, tt)))),
        )))

init_upload-Quietly : (env : Env) (w : World) (rc : ℕ) → Quietly w (init_upload env w rc).0
unfolding init_upload change
init_upload-Quietly env w rc =
    let ifb = upload_ifbname w.config in
    let (w1, ret) = run_command env w (set_link ifb true) in
    let once : Quietly w w1 = run_command-Quietly env w (set_link ifb true) (λ mac ip. refl) in
    elim (Bool-cases (ret == 0)) [
      | inl worked ↦ rw worked (Quietly-trans w w1 _ once (upload-Quietly env w1 _ _ _))
      | inr failed ↦ rw failed once
    ]

init_download-Quietly : (env : Env) (w : World) → Quietly w (init_download env w).0
unfolding init_download
init_download-Quietly env w = elim (Bool-cases (is_pos w.config.download_limit)) [
  | inl limited ↦ rw limited (download-Quietly env w _ _)
  | inr free ↦ rw free (Quietly-refl w)
]

tc_init-Quietly : (env : Env) (w : World) → Quietly w (tc_init_tc env w).0
unfolding tc_init_tc
tc_init-Quietly env w =
    let w1 = (init_download env w).0 in
    elim (Bool-cases (is_pos w1.config.upload_limit)) [
      | inl limited ↦
          rw limited
            (Quietly-trans w w1 _ (init_download-Quietly env w) (init_upload-Quietly env w1 _))
      | inr free ↦ rw free (init_download-Quietly env w)
    ]

tc_destroy-Quietly : (env : Env) (w : World) → Quietly w (tc_destroy_tc env w).0
unfolding tc_destroy_tc change
tc_destroy-Quietly env w =
    run_all-Quietly env w _ (λ mac ip. refl, (λ mac ip. refl, (λ mac ip. refl, tt)))

mac_rules-Quietly :
    (env : Env) (w : World) (style : MarkStyle) (rc : ℕ) → Quietly w (mac_rules env w style rc).0
unfolding mac_rules iptables_block_mac iptables_allow_mac change rule_eq
mac_rules-Quietly env w style rc = elim (Bool-cases (w.config.macmechanism == mac_block)) [
  | inl blocks ↦ rw blocks (
      for_each_mac-Quietly (iptables_block_mac env)
        (λ v mac. do_command-Quietly env v (append (mark_blocked mac)) (λ m i. refl)) w _)
  | inr no_block ↦ rw no_block (elim (Bool-cases (w.config.macmechanism == mac_allow)) [
    | inl allows ↦ rw allows (
        Quietly-trans w _ _ (run_set_up-Quietly env w _) (
          for_each_mac-Quietly (iptables_allow_mac env)
            (λ v mac. do_command-Quietly env v (insert (pass_allowed mac)) (λ m i. refl)) _ _))
    | inr neither ↦ rw neither (Quietly-refl w)
  ])
]

mangle_part-Quietly :
    (env : Env) (w : World) (style : MarkStyle) (s : Settings) (rc : ℕ)
    → Quietly w (mangle_part env w style s rc).0
unfolding mangle_part iptables_trust_mac change rule_eq
mangle_part-Quietly env w style s rc =
    let (w1, rc1) = run_set_up env w (mangle_chains (interface_name w.config) s.gw_iprange) in
    let (w2, rc2) = for_each_mac (iptables_trust_mac env) w1 w.config.trustedmaclist in
    let (w3, rc3) = mac_rules env w2 style (bit_or rc (bit_or rc1 rc2)) in
    let upto : Quietly w w3 =
      Quietly-trans w w2 w3
        (Quietly-trans w w1 w2 (run_set_up-Quietly env w _) (
          for_each_mac-Quietly (iptables_trust_mac env)
            (λ v mac. do_command-Quietly env v (append (mark_trusted mac)) (λ m i. refl)) w1
            w.config.trustedmaclist))
        (mac_rules-Quietly env w2 style _) in
    elim (Bool-cases (w.config.traffic_control == 0)) [
      | inl off ↦ rw off upto
      | inr on ↦ rw on (Quietly-trans w w3 _ upto (tc_init-Quietly env w3))
    ]

nat_part-Quietly :
    (env : Env) (w : World) (style : MarkStyle) (s : Settings) (rc : ℕ)
    → Quietly w (nat_part env w style s rc).0
unfolding nat_part
nat_part-Quietly env w style s rc = elim (Bool-cases (w.config.ip6 == 0)) [
  | inl ip4 ↦ rw ip4 (run_set_up-Quietly env w _)
  | inr ip6 ↦ rw ip6 (Quietly-refl w)
]

filter_part-Quietly :
    (env : Env) (w : World) (style : MarkStyle) (s : Settings) (rc : ℕ)
    → Quietly w (filter_part env w style s rc).0
unfolding filter_part
filter_part-Quietly env w style s rc = run_set_up-Quietly env w _

-- An initialisation that returns 0 sets the marks and runs commands.
pub fw_init-Quietly :
    (env : Env) (w : World) (s : Settings) (mask : ℕ) (version : Option CString)
    → (iptables_fw_init env w s mask version).1 ≡ 0
    → Quietly
        (record w { marks = (start_marks w.config w.marks mask).0.0 })
        (iptables_fw_init env w s mask version).0
unfolding iptables_fw_init start_marks load_marks
fw_init-Quietly env w s mask version ok =
    let number = get_iptables_version version in
    let ((marks, mask'), rc) = start_marks w.config w.marks mask in
    let w0 = record w { marks = marks } in
    let (w1, style) = iptables_check_mark_masking env w0 mask' in
    let (w2, rc2) = mangle_part env w1 style s rc in
    let (w3, rc3) = nat_part env w2 style s rc2 in
    elim (Bool-cases (is_neg number || int_lt number min_iptables_version)) [
      | inl old ↦ absurd (ground (arith, rw old at ok))
      | inr new ↦ rw new (
          Quietly-trans w0 w2 _
            (Quietly-trans w0 w1 w2 (mark_masking-Quietly env w0 mask')
              (mangle_part-Quietly env w1 style s rc))
            (Quietly-trans w2 w3 _ (nat_part-Quietly env w2 style s rc2)
              (filter_part-Quietly env w3 style s rc3)))
    ]

module _ (env : Env) (listed : World → Table → Chain → Option (List CString)) where
  mention-Quietly :
      (fuel : ℕ) (w : World) (t : Table) (c : Chain) (word : CString) (r : World × ℕ)
      → iptables_fw_destroy_mention env listed fuel w t c word ≡ some r
      → Quietly w r.0
  unfolding iptables_fw_destroy_mention
  mention-Quietly zero w t c word r e = cc
  mention-Quietly (suc fuel) w t c word r e =
      elim (Option-cases (find_mention word (entries env listed w t c))) [
        | inl nowhere ↦
            let same : r ≡ (w, minus_one) = cc (rw (iptables_fw_destroy_mention, nowhere) at e) in
            rw same (Quietly-refl w)
        | inr (n, found) ↦
            let w1 = (iptables_do_command env w (set_up (delete_number t c n))).0 in
            let (r1, again, same) =
              map_option-some (λ x. (x.0, 0))
                (iptables_fw_destroy_mention env listed fuel w1 t c word) r
                (rw (iptables_fw_destroy_mention, found) at e) in
            subst (λ x. Quietly w x.0) same
              (Quietly-trans w w1 r1.0
                (do_command-Quietly env w _ (set_up-IsHarmless (delete_number t c n)))
                (mention-Quietly fuel w1 t c word r1 again))
      ]

  mentions-Quietly :
      (fuel : ℕ) (w : World) (t : Table) (l : List (Chain × Chain)) (v : World)
      → destroy_mentions env listed fuel w t l ≡ some v
      → Quietly w v
  unfolding destroy_mentions
  mentions-Quietly fuel w t [] v e = let same : v ≡ w = cc in rw same (Quietly-refl w)
  mentions-Quietly fuel w t ((c, mention) ∷ more) v e =
      let (r, first, rest) =
        and_then-some (iptables_fw_destroy_mention env listed fuel w t c (chain_name mention))
          (λ x. destroy_mentions env listed fuel x.0 t more) v e in
      Quietly-trans w r.0 v (mention-Quietly fuel w t c (chain_name mention) r first)
        (mentions-Quietly fuel r.0 t more v rest)

  module _ (fuel : ℕ) (w : World) (t : Table) (l : List (Chain × Chain)) (chains : List Chain)
      (v : World) (e : destroy_table env listed fuel w t l chains ≡ some v) where
    table-Quietly : Quietly w v
    unfolding destroy_table
    table-Quietly =
        let (w1, forgotten, last) =
          and_then-some (destroy_mentions env listed fuel w t l)
            (λ x. some (run_set_up env x (flush_and_delete t chains)).0) v e in
        let same : v ≡ (run_set_up env w1 (flush_and_delete t chains)).0 = cc in
        rw same (
          Quietly-trans w w1 _ (mentions-Quietly fuel w t l w1 forgotten)
            (run_set_up-Quietly env w1 (flush_and_delete t chains)))

    table-IsQuiet : IsReliable env → flushes (flush_and_delete t chains) ≡ true → IsQuiet v.commands
    unfolding destroy_table
    table-IsQuiet rel gone =
        let (w1, forgotten, last) =
          and_then-some (destroy_mentions env listed fuel w t l)
            (λ x. some (run_set_up env x (flush_and_delete t chains)).0) v e in
        let same : v ≡ (run_set_up env w1 (flush_and_delete t chains)).0 = cc in
        rw same (run_set_up-IsQuiet env w1 (flush_and_delete t chains) rel gone)

  nat-Quietly : (fuel : ℕ) (w v : World) → destroy_nat env listed fuel w ≡ some v → Quietly w v
  unfolding destroy_nat
  nat-Quietly fuel w v e = elim (Bool-cases (w.config.ip6 == 0)) [
    | inl ip4 ↦
        table-Quietly fuel w nat_table ((prerouting, outgoing) ∷ []) (outgoing ∷ []) v (rw ip4 at e)
    | inr ip6 ↦ let same : v ≡ w = cc (rw ip6 at e) in rw same (Quietly-refl w)
  ]

  tc-Quietly :
      (w : World) → Quietly w (if w.config.traffic_control == 0 then w else (tc_destroy_tc env w).0)
  tc-Quietly w = elim (Bool-cases (w.config.traffic_control == 0)) [
    | inl off ↦ rw off (Quietly-refl w)
    | inr on ↦ rw on (tc_destroy-Quietly env w)
  ]

  -- A destruction that ends ran commands and, where none fails, took every access away.
  pub fw_destroy-Quietly :
      (fuel : ℕ) (w : World) (r : World × ℕ)
      → iptables_fw_destroy env listed fuel w ≡ some r
      → Quietly w r.0 × (IsReliable env → IsQuiet r.0.commands)
  unfolding iptables_fw_destroy destroy_mangle destroy_filter flush_and_delete flushes chain_eq
  fw_destroy-Quietly fuel w r e =
      let w0 = if w.config.traffic_control == 0 then w else (tc_destroy_tc env w).0 in
      let (w1, mangled, e1) =
        and_then-some (destroy_mangle env listed fuel w0)
          (λ x.
            and_then (destroy_nat env listed fuel x)
              (λ y. and_then (destroy_filter env listed fuel y) (λ z. some (z, 0))))
          r e in
      let (w2, natted, e2) =
        and_then-some (destroy_nat env listed fuel w1)
          (λ y. and_then (destroy_filter env listed fuel y) (λ z. some (z, 0))) r e1 in
      let (w3, filtered, e3) =
        and_then-some (destroy_filter env listed fuel w2) (λ z. some (z, 0)) r e2 in
      let same : r ≡ (w3, 0) = cc in
      let q0 : Quietly w w0 = tc-Quietly w in
      let q1 : Quietly w0 w1 =
        table-Quietly fuel w0 mangle_table mangle_mentions
          (trusted_users ∷ blocked_users ∷ allowed_users ∷ outgoing ∷ incoming ∷ []) w1 mangled in
      let q2 : Quietly w1 w3 = Quietly-trans w1 w2 w3 (nat-Quietly fuel w1 w2 natted) (
        table-Quietly fuel w2 filter_table
          ((input_chain, to_router) ∷ (forward_chain, to_internet) ∷ [])
          (to_router ∷ to_internet ∷ authenticated_users ∷ trusted_users ∷ trusted_to_router ∷ [])
          w3 filtered) in
      rw same (
        Quietly-trans w w1 w3 (Quietly-trans w w0 w1 q0 q1) q2,
        λ rel. IsQuiet-after w1 w3 q2 (
            table-IsQuiet fuel w0 mangle_table mangle_mentions
              (trusted_users ∷ blocked_users ∷ allowed_users ∷ outgoing ∷ incoming ∷ []) w1 mangled
              rel refl),
      )
