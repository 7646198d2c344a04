-- ===== src/Daemon/Restart.antt =====
-- The state that src/main.c starts its threads on: it is sound, with an import of the state file or
-- without, and agrees with the firewall.
use nodogsplash.Prelude.{
  Bool-cases, List, and_then-some, ap, arith, inl, inr, map_option-some, refl, some, subst, sym,
  true, ℕ, ◌&&◌, ◌==◌, ◌∙◌, ◌≡◌,
}
use nodogsplash.Prelude.Int32.{is_neg}
use nodogsplash.CString.{str_eq}
use nodogsplash.Auth.FirewallState.{rule_count}
use nodogsplash.Auth.FirewallSync.{IsInSync}
use nodogsplash.Auth.Transitions.{AreDistinct}
use nodogsplash.ClientList.{client_list_flush, client_list_init, find_client}
use nodogsplash.ClientList.Delete.{flush-IsWellFormed}
use nodogsplash.ClientList.Shape.{IsWellFormed}
use nodogsplash.Conf.Options.{Settings}
use nodogsplash.Config.{Config}
use nodogsplash.Daemon.{no_marks}
use nodogsplash.Daemon.Restored.{
  IsSound, IsSoundAndSynced, mark_fields, same_check, IsSound-IsKept, IsSoundAndSynced-IsKept,
}
use nodogsplash.Daemon.Startup.{
  Surroundings, after_import, before_start, reset_firewall, start_daemon,
}
use nodogsplash.Firewall.Filter.{iptables_fw_init}
use nodogsplash.Firewall.Installed.{IsReliable, installed, only_commands}
use nodogsplash.Firewall.Marks.{start_marks, start_marks-AreDistinct}
use nodogsplash.Firewall.Quiet.{IsQuiet}
use nodogsplash.Firewall.Reset.{fw_destroy-Quietly, fw_init-Quietly}
use nodogsplash.Firewall.Teardown.{iptables_fw_destroy}
use nodogsplash.StateFile.{state_file_import}
use nodogsplash.StateFile.Json.{JsonC}
use nodogsplash.StateFile.Numbered.{IsNumberedFile, state_file_import-keeps}
use nodogsplash.World.{Command, Env, World, mark_outgoing}

-- A list that was flushed, with no access installed.
flushed-IsInSync :
    (w : World)
    → IsWellFormed w
    → AreDistinct w.marks
    → IsQuiet w.commands
    → IsInSync (client_list_flush w)
unfolding client_list_flush find_client
flushed-IsInSync w h distinct quiet =
    let (shape, empty) = flush-IsWellFormed w h in
    let marks : (client_list_flush w).marks ≡ w.marks = ground arith in
    let commands : (client_list_flush w).commands ≡ w.commands = ground arith in
    record {
      shape = shape;
      distinct = subst AreDistinct (sym marks) distinct;
      agrees = record {
        outgoing = λ mac ip.
            ap (installed (mark_outgoing ip mac)) commands
            ∙ (quiet mac ip
                ∙ sym (
                    ap
                      (λ l.
                        rule_count (client_list_flush w).marks
                          (find_client (λ c. str_eq c.mac mac && str_eq c.ip ip) l))
                      empty));
      };
    }

module _ (J : JsonC) (env : Env) (around : Surroundings J) (s : Settings) where
  -- A reset sets the marks and runs commands.
  pub reset_lem :
      (w : World) (mask : ℕ) (r : World × ℕ)
      → reset_firewall J env around s w mask ≡ some r
      → (history : List (Command × ℕ)) × (r.0
          ≡ record w { marks = (start_marks w.config w.marks mask).0.0; commands = history })
        × (IsReliable env → IsQuiet history)
  unfolding reset_firewall
  reset_lem w mask r e =
      let (d, gone, e1) =
        and_then-some (iptables_fw_destroy env around.listed around.fuel w) _ r e in
      let ((h1, same, q1), quiet) = fw_destroy-Quietly env around.listed around.fuel w d gone in
      let settings = record s { config = d.0.config } in
      let init = iptables_fw_init env d.0 settings mask around.version in
      elim (Bool-cases (init.1 == 0)) [
        | inr failed ↦ cc (rw failed at e1)
        | inl worked ↦
            let (h2, k, q2) =
              fw_init-Quietly env d.0 settings mask around.version (ground (arith, worked)) in
            let same_r : r ≡ (init.0, (start_marks d.0.config d.0.marks mask).0.1) =
              cc (rw worked at e1) in
            (
              h2,
              ap (λ x. x.0) same_r
                  ∙ (k
                      ∙ ap
                          (λ x.
                            only_commands
                              (record x { marks = (start_marks x.config x.marks mask).0.0 }) h2)
                          same),
              λ rel. q2 (quiet rel),
            )
      ]

  reset-IsSound :
      (config : Config) (w : World) (mask : ℕ) (r : World × ℕ)
      → IsSound config w
      → reset_firewall J env around s w mask ≡ some r
      → IsSound config r.0
  reset-IsSound config w mask r (h, same) e =
      let (history, k, quiet) = reset_lem w mask r e in
      subst (IsSound config) (sym k) (
        record {
          counted = h.counted;
          bounded = h.bounded;
          small = h.small;
          ids = h.ids;
          nodes = h.nodes;
          pairs = h.pairs;
        },
        same,
      )

  reset-IsQuiet :
      (config : Config) (w : World) (mask : ℕ) (r : World × ℕ)
      → IsReliable env
      → (start_marks config no_marks 0).1 ≡ 0
      → mark_fields config ≡ mark_fields w.config
      → reset_firewall J env around s w mask ≡ some r
      → AreDistinct r.0.marks × IsQuiet r.0.commands
  reset-IsQuiet config w mask r rel ok same e =
      let (history, k, quiet) = reset_lem w mask r e in
      subst (λ x. AreDistinct x.marks × IsQuiet x.commands) (sym k)
        (
          start_marks-AreDistinct w.config w.marks mask
              (same_check config w.config no_marks w.marks 0 mask same ok),
          quiet rel,
        )

  after-IsWellFormed :
      (config : Config) (v : World × ℕ) (mask : ℕ) (w : World)
      → IsSound config v.0
      → after_import J env around s v mask ≡ some w
      → IsWellFormed w
  unfolding after_import
  after-IsWellFormed config v mask w h e = elim (Bool-cases (is_neg v.1)) [
    | inr fine ↦ let same : v.0 ≡ w = cc (rw fine at e) in subst IsWellFormed same h.0
    | inl failed ↦
        let (r, reset, same) =
          map_option-some (λ (x : World × ℕ). client_list_flush x.0)
            (reset_firewall J env around s v.0 mask) w (rw failed at e) in
        subst IsWellFormed same
          (flush-IsWellFormed r.0 (reset-IsSound config v.0 mask r h reset).0).0
  ]

  after-IsInSync :
      (config : Config) (v : World × ℕ) (mask : ℕ) (w : World)
      → IsReliable env
      → (start_marks config no_marks 0).1 ≡ 0
      → IsSoundAndSynced config v.0
      → after_import J env around s v mask ≡ some w
      → IsInSync w
  unfolding after_import
  after-IsInSync config v mask w rel ok h e = elim (Bool-cases (is_neg v.1)) [
    | inr fine ↦ let same : v.0 ≡ w = cc (rw fine at e) in subst IsInSync same h.0
    | inl failed ↦
        let (r, reset, same) =
          map_option-some (λ (x : World × ℕ). client_list_flush x.0)
            (reset_firewall J env around s v.0 mask) w (rw failed at e) in
        let (distinct, quiet) = reset-IsQuiet config v.0 mask r rel ok h.1 reset in
        subst IsInSync same (
          flushed-IsInSync r.0 (reset-IsSound config v.0 mask r (h.0.shape, h.1) reset).0 distinct
            quiet)
  ]

  -- The first state of the client list.
  before_start-IsSound : IsSound s.config (before_start s.config)
  unfolding before_start client_list_init
  before_start-IsSound = (
    record {
      counted = refl;
      bounded = omega arith;
      small = omega arith;
      ids = omega arith;
      nodes = omega arith;
      pairs = tt;
    },
    refl,
  )

  first_reset :
      (r : World × ℕ)
      → reset_firewall J env around s (before_start s.config) 0 ≡ some r
      → (r.0.client_id ≡ 1) × (client_list_flush r.0 ≡ r.0)
  unfolding before_start client_list_init client_list_flush
  first_reset r e =
      let (history, k, quiet) = reset_lem (before_start s.config) 0 r e in
      (ap (λ x. x.client_id) k, subst (λ x. client_list_flush x ≡ x) (sym k) refl)

  pub start_daemon-IsWellFormed :
      (w : World)
      → (around.with_state_file ≡ true → IsNumberedFile J (around.from_file s.statefile))
      → start_daemon J env around s ≡ some w
      → IsWellFormed w
  unfolding start_daemon
  start_daemon-IsWellFormed w numbered e =
      let (r, reset, e1) =
        and_then-some (reset_firewall J env around s (before_start s.config) 0) _ w e in
      let h = reset-IsSound s.config (before_start s.config) 0 r before_start-IsSound reset in
      elim (Bool-cases around.with_state_file) [
        | inr off ↦ let same : r.0 ≡ w = cc (rw off at e1) in subst IsWellFormed same h.0
        | inl on ↦
            after-IsWellFormed s.config
              (state_file_import J around.stat around.from_file env r.0 s.statefile) r.1 w
              (state_file_import-keeps J env (IsSound s.config) (IsSound-IsKept env s.config)
                around.stat around.from_file r.0 s.statefile (numbered on) h
                (first_reset r reset).0)
              (rw on at e1)
      ]

  pub start_daemon-IsInSync :
      (w : World)
      → IsReliable env
      → (start_marks s.config no_marks 0).1 ≡ 0
      → (around.with_state_file ≡ true → IsNumberedFile J (around.from_file s.statefile))
      → start_daemon J env around s ≡ some w
      → IsInSync w
  unfolding start_daemon
  start_daemon-IsInSync w rel ok numbered e =
      let (r, reset, e1) =
        and_then-some (reset_firewall J env around s (before_start s.config) 0) _ w e in
      let start = before_start s.config in
      let h = reset-IsSound s.config start 0 r before_start-IsSound reset in
      let (distinct, quiet) =
        reset-IsQuiet s.config start 0 r rel ok before_start-IsSound.1 reset in
      let (first, flushed) = first_reset r reset in
      let synced : IsInSync r.0 =
        subst IsInSync flushed (flushed-IsInSync r.0 h.0 distinct quiet) in
      elim (Bool-cases around.with_state_file) [
        | inr off ↦ let same : r.0 ≡ w = cc (rw off at e1) in subst IsInSync same synced
        | inl on ↦
            after-IsInSync s.config
              (state_file_import J around.stat around.from_file env r.0 s.statefile) r.1 w rel ok
              (state_file_import-keeps J env (IsSoundAndSynced s.config)
                (IsSoundAndSynced-IsKept env s.config rel) around.stat around.from_file r.0
                s.statefile (numbered on) (synced, h.1) first)
              (rw on at e1)
      ]
