-- ===== src/Auth/Effects.antt =====
-- What the three acting branches of auth_change_state in src/auth.c do to the client list, in any
-- environment.
use nodogsplash.Prelude.{
  Bool-cases, List, Option, Option-cases, ap, inl, inr, refl, ℕ, ◌==◌, ◌∙◌, ◌∷◌, ◌≡◌,
}
use nodogsplash.CString.{CString}
use nodogsplash.Auth.{
  auth_client_block, authenticate_branch, binauth_action, block_branch, deauthenticate_branch,
  set_state,
}
use nodogsplash.Client.{Client}
use nodogsplash.ClientList.{client_list_delete, client_reset}
use nodogsplash.Conf.MacList.{add_to_blocked_mac_list}
use nodogsplash.Conf.MacList.Entries.{add_to_blocked_frame}
use nodogsplash.Firewall.{iptables_block_mac}
use nodogsplash.Firewall.Effects.{
  OnlyCommands, OnlyCommands-trans, do_command-OnlyCommands, fw_authenticate-OnlyCommands,
  fw_deauthenticate-OnlyCommands,
}
use nodogsplash.Firewall.Installed.{only_commands}
use nodogsplash.World.{Command, Env, World, append, mark_blocked, run_binauth, run_command}

pub binauth-OnlyCommands :
    (env : Env) (w : World) (c : Client) (reason : Option CString)
    → OnlyCommands w (binauth_action env w c reason)
unfolding binauth_action run_command
binauth-OnlyCommands env w c reason = elim (Option-cases w.config.binauth) [
  | inl off ↦ rw off (w.commands, refl)
  | inr (b, on) ↦ rw on (
    (run_binauth b reason c, env.exit_status w.commands (run_binauth b reason c)) ∷ w.commands,
    refl,
  )
]

pub commands_then_binauth :
    (env : Env) (w v : World) (c : Client) (reason : Option CString)
    → OnlyCommands w v
    → OnlyCommands w (binauth_action env v c reason)
commands_then_binauth env w v c reason h =
    OnlyCommands-trans w v _ h (binauth-OnlyCommands env v c reason)

-- After the authentication, only the state of the client's node is another one.
pub authenticate_branch_lem :
    (env : Env) (w : World) (c : Client) (reason : Option CString)
    → (history : List (Command × ℕ)) × (authenticate_branch env w c reason
        ≡ set_state (only_commands w history) c.node w.marks.authenticated)
unfolding authenticate_branch
authenticate_branch_lem env w c reason =
    let (history, e) =
      commands_then_binauth env w _ c reason (fw_authenticate-OnlyCommands env w c) in
    (history, ap (λ v. set_state v c.node w.marks.authenticated) e)

pub deauthenticate_branch_lem :
    (env : Env) (w : World) (c : Client) (reason : Option CString)
    → (history : List (Command × ℕ)) × (deauthenticate_branch env w c reason
        ≡ set_state
            (client_reset env (only_commands w history) c.node)
            c.node
            w.marks.preauthenticated)
unfolding deauthenticate_branch
deauthenticate_branch_lem env w c reason =
    let (history, e) =
      commands_then_binauth env w _ c reason (fw_deauthenticate-OnlyCommands env w c) in
    (history, ap (λ v. set_state (client_reset env v c.node) c.node w.marks.preauthenticated) e)

-- Blocking changes the log and the list of blocked addresses.
abbrev pub with_blocked : World → List (Command × ℕ) → List CString → World
with_blocked w history macs = record w {
  commands = history;
  config = record w.config { blockedmaclist = macs };
}

pub block_mac_lem :
    (env : Env) (w : World) (mac : CString)
    → (history : List (Command × ℕ)) × (macs : List CString) × ((auth_client_block env w mac).0
        ≡ with_blocked w history macs)
unfolding auth_client_block iptables_block_mac
block_mac_lem env w mac =
    let (macs, e) = add_to_blocked_frame env w.config mac in
    let w1 = record w { config = record w.config { blockedmaclist = macs } } in
    let (history, k) = do_command-OnlyCommands env w1 (append (mark_blocked mac)) in
    elim (Bool-cases ((add_to_blocked_mac_list env w.config mac).1 == 0)) [
      | inl added ↦ (history, macs, rw added (rw e k))
      | inr kept ↦ (w.commands, macs, rw kept (rw e))
    ]

pub block_branch_lem :
    (env : Env) (w : World) (c : Client) (reason : Option CString)
    → (history : List (Command × ℕ)) × (macs : List CString) × (block_branch env w c reason
        ≡ client_list_delete (with_blocked w history macs) c.node)
unfolding block_branch
block_branch_lem env w c reason =
    let (h, e) = commands_then_binauth env w _ c reason (fw_deauthenticate-OnlyCommands env w c) in
    let (history, macs, k) = block_mac_lem env (only_commands w h) c.mac in
    (
      history,
      macs,
      ap (λ v. client_list_delete (auth_client_block env v c.mac).0 c.node) e
          ∙ ap (λ v. client_list_delete v c.node) k,
    )
