-- ===== src/Firewall/Effects.antt =====
-- The effect on the state of the commands of src/fw_iptables.c and src/tc.c, in any environment.
use nodogsplash.Prelude.{
  Bool-cases, List, [], ap, inl, inr, map, refl, suc, zero, ℕ, ◌==◌, ◌∙◌, ◌∷◌, ◌≡◌,
}
use nodogsplash.Client.{Client}
use nodogsplash.Firewall.{
  authenticate_tc, deauthenticate_tc, interface_name, iptables_do_command, iptables_fw_authenticate,
  iptables_fw_deauthenticate, limits_of, retry_command, upload_ifbname,
}
use nodogsplash.Firewall.Installed.{only_commands}
use nodogsplash.Tc.{attach_commands, detach_commands, run_all, tc_attach_client, tc_detach_client}
use nodogsplash.World.{
  Command, Env, World, append, count_incoming, delete, mark_incoming, mark_outgoing, run_command,
  run_tc,
}

abbrev pub OnlyCommands : World → World → Type 0
OnlyCommands w v = (history : List (Command × ℕ)) × (v ≡ only_commands w history)

pub OnlyCommands-trans : (u v w : World) → OnlyCommands u v → OnlyCommands v w → OnlyCommands u w
OnlyCommands-trans u v w (h, e) (k, d) = (k, d ∙ ap (λ x. only_commands x k) e)

retry-OnlyCommands :
    (env : Env) (attempts : ℕ) (w : World) (rc : ℕ) (cmd : Command)
    → OnlyCommands w (retry_command env attempts w rc cmd).0
unfolding retry_command run_command
retry-OnlyCommands env zero w rc cmd = (w.commands, refl)
retry-OnlyCommands env (suc attempts) w rc cmd =
    let status = env.exit_status w.commands cmd in
    let w1 = only_commands w ((cmd, status) ∷ w.commands) in
    elim (Bool-cases (status == 4)) [
      | inl again ↦ rw again (
          OnlyCommands-trans w w1 _ (w1.commands, refl)
            (retry-OnlyCommands env attempts w1 status cmd))
      | inr done ↦ rw done (w1.commands, refl)
    ]

pub do_command-OnlyCommands :
    (env : Env) (w : World) (cmd : Command) → OnlyCommands w (iptables_do_command env w cmd).0
unfolding iptables_do_command
do_command-OnlyCommands env w cmd = retry-OnlyCommands env 5 w 0 cmd

run_all-OnlyCommands :
    (env : Env) (w : World) (cmds : List Command) → OnlyCommands w (run_all env w cmds).0
unfolding run_all run_command
run_all-OnlyCommands env w [] = (w.commands, refl)
run_all-OnlyCommands env w (cmd ∷ cmds) =
    let w1 = only_commands w ((cmd, env.exit_status w.commands cmd) ∷ w.commands) in
    OnlyCommands-trans w w1 _ (w1.commands, refl) (run_all-OnlyCommands env w1 cmds)

three_commands-OnlyCommands :
    (env : Env) (w : World) (c1 c2 c3 : Command)
    → OnlyCommands w
        (iptables_do_command env
          (iptables_do_command env (iptables_do_command env w c1).0 c2).0
          c3).0
three_commands-OnlyCommands env w c1 c2 c3 =
    let w1 = (iptables_do_command env w c1).0 in
    let w2 = (iptables_do_command env w1 c2).0 in
    OnlyCommands-trans w w2 _
      (OnlyCommands-trans w w1 w2 (do_command-OnlyCommands env w c1)
        (do_command-OnlyCommands env w1 c2))
      (do_command-OnlyCommands env w2 c3)

authenticate_tc-OnlyCommands :
    (env : Env) (w : World) (c : Client) → OnlyCommands w (authenticate_tc env w c).0
unfolding authenticate_tc tc_attach_client
authenticate_tc-OnlyCommands env w c = elim (Bool-cases (w.config.traffic_control == 0)) [
  | inl off ↦ rw off (w.commands, refl)
  | inr on ↦ rw on (
      run_all-OnlyCommands env w (
        map run_tc (
          attach_commands w.config (interface_name w.config) (limits_of w.config c).0
            (upload_ifbname w.config) (limits_of w.config c).1 c.id c.ip)))
]

deauthenticate_tc-OnlyCommands :
    (env : Env) (w : World) (c : Client) → OnlyCommands w (deauthenticate_tc env w c).0
unfolding deauthenticate_tc tc_detach_client
deauthenticate_tc-OnlyCommands env w c = elim (Bool-cases (w.config.traffic_control == 0)) [
  | inl off ↦ rw off (w.commands, refl)
  | inr on ↦ rw on (
      run_all-OnlyCommands env w (
        map run_tc (
          detach_commands (interface_name w.config) (limits_of w.config c).0
            (upload_ifbname w.config) (limits_of w.config c).1 c.id)))
]

pub fw_authenticate-OnlyCommands :
    (env : Env) (w : World) (c : Client) → OnlyCommands w (iptables_fw_authenticate env w c).0
unfolding iptables_fw_authenticate
fw_authenticate-OnlyCommands env w c =
    OnlyCommands-trans w _ _
      (three_commands-OnlyCommands env w (append (mark_outgoing c.ip c.mac))
        (append (mark_incoming c.ip)) (append (count_incoming c.ip)))
      (authenticate_tc-OnlyCommands env _ c)

pub fw_deauthenticate-OnlyCommands :
    (env : Env) (w : World) (c : Client) → OnlyCommands w (iptables_fw_deauthenticate env w c).0
unfolding iptables_fw_deauthenticate
fw_deauthenticate-OnlyCommands env w c =
    OnlyCommands-trans w _ _
      (three_commands-OnlyCommands env w (delete (mark_outgoing c.ip c.mac))
        (delete (mark_incoming c.ip)) (delete (count_incoming c.ip)))
      (deauthenticate_tc-OnlyCommands env _ c)
