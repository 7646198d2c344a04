-- ===== src/Firewall/Installed.antt =====
-- What iptables documents of its commands, as a specification: which rules a history of commands
-- leaves installed. A command that failed changed nothing; -A and -I add one copy of a rule and -D
-- removes one.
use nodogsplash.Prelude.{
  Bool, List, [], ap, arith, false, if◌then◌else◌, map, refl, suc, true, ℕ, ◌&&◌, ◌-◌, ◌==◌, ◌∙◌,
  ◌∷◌, ◌≡◌,
}
use nodogsplash.CString.{str_eq}
use nodogsplash.Client.{Client}
use nodogsplash.Firewall.{
  authenticate_tc, deauthenticate_tc, interface_name, iptables_do_command, iptables_fw_authenticate,
  iptables_fw_deauthenticate, limits_of, upload_ifbname,
}
use nodogsplash.Netfilter.{
  Chain, blocked_users, chain_eq, flush_chain, incoming, mangle_table, outgoing, trusted_users,
}
use nodogsplash.Tc.{attach_commands, detach_commands, run_all, tc_attach_client, tc_detach_client}
use nodogsplash.World.{
  Command, Env, Rule, TcCommand, World, append, count_incoming, delete, insert, mark_blocked,
  mark_incoming, mark_outgoing, mark_trusted, pass_allowed, run_binauth, run_command, run_tc,
  set_up,
}

unfoldable pub rule_eq : Rule → Rule → Bool
rule_eq (mark_outgoing i m) (mark_outgoing j n) = str_eq n m && str_eq j i
rule_eq (mark_incoming i) (mark_incoming j) = str_eq i j
rule_eq (count_incoming i) (count_incoming j) = str_eq i j
rule_eq (mark_blocked m) (mark_blocked n) = str_eq m n
rule_eq (pass_allowed m) (pass_allowed n) = str_eq m n
rule_eq (mark_trusted m) (mark_trusted n) = str_eq m n
rule_eq _ _ = false

-- The chain of the mangle table that a rule stands in.
unfoldable pub chain_of : Rule → Chain
chain_of (mark_outgoing ip mac) = outgoing
chain_of (mark_incoming ip) = incoming
chain_of (count_incoming ip) = incoming
chain_of (mark_blocked mac) = blocked_users
chain_of (pass_allowed mac) = blocked_users
chain_of (mark_trusted mac) = trusted_users

-- How many copies of the rule one command leaves of `n`.
unfoldable pub change : Rule → Command → ℕ → ℕ
unfolding rule_eq chain_eq chain_of
change r (append s) n = if rule_eq r s then suc n else n
change r (insert s) n = if rule_eq r s then suc n else n
change r (delete s) n = if rule_eq r s then n - 1 else n
change r (run_binauth a b c) n = n
change r (set_up (flush_chain mangle_table c)) n = if chain_eq c (chain_of r) then 0 else n
change r _ n = n

unfoldable pub installed : Rule → List (Command × ℕ) → ℕ
unfolding change
installed r [] = 0
installed r ((cmd, rc) ∷ history) =
    if rc == 0 then change r cmd (installed r history) else installed r history

-- No command fails.
pub record IsReliable (env : Env) : Type 0 where
  pub succeeds : (history : List (Command × ℕ)) (cmd : Command) → env.exit_status history cmd ≡ 0

-- In a reliable environment iptables_do_command runs its command once.
pub do_command-reliable :
    (env : Env) (w : World) (cmd : Command)
    → IsReliable env
    → iptables_do_command env w cmd ≡ (record w { commands = (cmd, 0) ∷ w.commands }, 0)
unfolding iptables_do_command run_command
do_command-reliable env w cmd r = ground (arith, r.succeeds w.commands cmd)

-- A world with another log of commands.
abbrev pub only_commands : World → List (Command × ℕ) → World
only_commands w history = record w { commands = history }

-- Traffic control does not touch the rules.
pub run_tc_keeps :
    (env : Env) (w : World) (cmds : List TcCommand)
    → (history : List (Command × ℕ)) × ((run_all env w (map run_tc cmds)).0
        ≡ only_commands w history)
      × ((r : Rule) → installed r history ≡ installed r w.commands)
unfolding run_all run_command installed
run_tc_keeps env w [] = (w.commands, refl, λ r. refl)
run_tc_keeps env w (t ∷ ts) =
    let rc = env.exit_status w.commands (run_tc t) in
    let (history, e, same) = run_tc_keeps env (only_commands w ((run_tc t, rc) ∷ w.commands)) ts in
    (history, e, λ r. ground (arith, same r))

tc_history :
    (env : Env) (w : World) (b : Bool) (cmds : List TcCommand) (result : World × ℕ)
    → result ≡ (if b then (w, 0) else run_all env w (map run_tc cmds))
    → (history : List (Command × ℕ)) × (result.0 ≡ only_commands w history)
      × ((r : Rule) → installed r history ≡ installed r w.commands)
tc_history env w true cmds result e = (w.commands, ground (arith, e), λ r. refl)
tc_history env w false cmds result e =
    let (history, k, same) = run_tc_keeps env w cmds in (history, ap (λ p. p.0) e ∙ k, same)

-- The three commands of one client, in a reliable environment.
three_commands :
    (env : Env) (w : World) (c1 c2 c3 : Command)
    → IsReliable env
    → (iptables_do_command env (iptables_do_command env (iptables_do_command env w c1).0 c2).0 c3).0
      ≡ only_commands w ((c3, 0) ∷ (c2, 0) ∷ (c1, 0) ∷ w.commands)
three_commands env w c1 c2 c3 rel = rw (do_command-reliable env w c1 rel) (
    rw (do_command-reliable env (only_commands w ((c1, 0) ∷ w.commands)) c2 rel)
      (rw (do_command-reliable env (only_commands w ((c2, 0) ∷ (c1, 0) ∷ w.commands)) c3 rel)))

-- Authenticating a client adds one copy of each of its three rules.
pub authenticate_history :
    (env : Env) (w : World) (c : Client)
    → IsReliable env
    → (history : List (Command × ℕ)) × ((iptables_fw_authenticate env w c).0
        ≡ only_commands w history)
      × ((r : Rule)
          → installed r history
            ≡ change r (append (count_incoming c.ip)) (
                change r
                  (append (mark_incoming c.ip))
                  (change r (append (mark_outgoing c.ip c.mac)) (installed r w.commands))))
unfolding iptables_fw_authenticate authenticate_tc tc_attach_client installed
authenticate_history env w c rel =
    let w3 = only_commands w (
      (append (count_incoming c.ip), 0)
      ∷ (append (mark_incoming c.ip), 0)
      ∷ (append (mark_outgoing c.ip c.mac), 0)
      ∷ w.commands) in
    let (history, e, same) =
      tc_history env w3 (w.config.traffic_control == 0)
        (attach_commands w.config (interface_name w.config) (limits_of w.config c).0
          (upload_ifbname w.config) (limits_of w.config c).1 c.id c.ip)
        (authenticate_tc env w3 c) refl in
    (
      history,
      ap (λ v. (authenticate_tc env v c).0)
            (three_commands env w (append (mark_outgoing c.ip c.mac)) (append (mark_incoming c.ip))
              (append (count_incoming c.ip)) rel)
          ∙ e,
      same,
    )

-- Deauthenticating it removes one copy of each.
pub deauthenticate_history :
    (env : Env) (w : World) (c : Client)
    → IsReliable env
    → (history : List (Command × ℕ)) × ((iptables_fw_deauthenticate env w c).0
        ≡ only_commands w history)
      × ((r : Rule)
          → installed r history
            ≡ change r (delete (count_incoming c.ip)) (
                change r
                  (delete (mark_incoming c.ip))
                  (change r (delete (mark_outgoing c.ip c.mac)) (installed r w.commands))))
unfolding iptables_fw_deauthenticate deauthenticate_tc tc_detach_client installed
deauthenticate_history env w c rel =
    let w3 = only_commands w (
      (delete (count_incoming c.ip), 0)
      ∷ (delete (mark_incoming c.ip), 0)
      ∷ (delete (mark_outgoing c.ip c.mac), 0)
      ∷ w.commands) in
    let (history, e, same) =
      tc_history env w3 (w.config.traffic_control == 0)
        (detach_commands (interface_name w.config) (limits_of w.config c).0
          (upload_ifbname w.config) (limits_of w.config c).1 c.id)
        (deauthenticate_tc env w3 c) refl in
    (
      history,
      ap (λ v. (deauthenticate_tc env v c).0)
            (three_commands env w (delete (mark_outgoing c.ip c.mac)) (delete (mark_incoming c.ip))
              (delete (count_incoming c.ip)) rel)
          ∙ e,
      same,
    )

-- On a history in which nothing fails, deauthenticating a client right after it was authenticated
-- leaves every rule installed as often as before.
pub deauthenticate-authenticate :
    (env : Env) (w : World) (c : Client) (r : Rule)
    → IsReliable env
    → installed r (iptables_fw_deauthenticate env (iptables_fw_authenticate env w c).0 c).0.commands
      ≡ installed r w.commands
unfolding change
deauthenticate-authenticate env w c r rel =
    let (h1, e1, s1) = authenticate_history env w c rel in
    let (h2, e2, s2) = deauthenticate_history env (only_commands w h1) c rel in
    rw e1 (rw e2 (ground (arith, s1 r, s2 r)))
