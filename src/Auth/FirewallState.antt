-- ===== src/Auth/FirewallState.antt =====
-- The agreement of the firewall with the client list, which src/auth.c is meant to keep: the rule that
-- marks the packets of a client as authenticated stands exactly while the client is authenticated.
use nodogsplash.Prelude.{
  &&-eq-true, Bool, Bool-cases, Option, Option-cases, ap, arith, false, if◌then◌else◌, inl, inr,
  none, some, subst, suc, sym, true, ℕ, ◌&&◌, ◌-◌, ◌==◌, ◌∙◌, ◌≡◌,
}
use nodogsplash.CString.{CString, eq_of_str_eq, str_eq}
use nodogsplash.Auth.{
  auth_client_block, authenticate_branch, binauth_action, block_branch, deauthenticate_branch,
  set_state,
}
use nodogsplash.Auth.Frame.{
  by_pair-IsStable, lockout_clients, lockout_find, logged_in_client, logged_out_client, login_find,
  logout_find,
}
use nodogsplash.Auth.Transitions.{AreDistinct, Outcome, locked_out, logged_in, logged_out, refused}
use nodogsplash.Client.{Client}
use nodogsplash.ClientList.{
  client_list_delete, client_list_find, client_reset, find_client, unlink_node,
}
use nodogsplash.ClientList.Members.{IsMember, find_pair-IsMember, find_pair-unlink_self}
use nodogsplash.ClientList.Shape.{IsWellFormed}
use nodogsplash.Conf.MacList.{add_to_blocked_mac_list}
use nodogsplash.Firewall.{iptables_block_mac, iptables_fw_deauthenticate}
use nodogsplash.Firewall.Installed.{
  IsReliable, authenticate_history, change, deauthenticate_history, do_command-reliable, installed,
  rule_eq,
}
use nodogsplash.World.{Env, Marks, Rule, World, append, mark_blocked, mark_outgoing, run_command}

abbrev pub is_logged_in : Marks → Option Client → Bool
is_logged_in marks none = false
is_logged_in marks (some c) = c.fw_connection_state == marks.authenticated

-- One copy of the rule for a pair of addresses if its client is authenticated, else none.
abbrev pub rule_count : Marks → Option Client → ℕ
rule_count marks o = if is_logged_in marks o then 1 else 0

pub record FirewallAgrees (w : World) : Type 0 where
  pub outgoing :
      (mac ip : CString)
      → installed (mark_outgoing ip mac) w.commands ≡ rule_count w.marks (client_list_find w mac ip)

-- A command of binauth changes no rule.
binauth_installed :
    (env : Env) (w : World) (c : Client) (reason : Option CString) (r : Rule)
    → installed r (binauth_action env w c reason).commands ≡ installed r w.commands
unfolding binauth_action run_command installed
binauth_installed env w c reason r = elim (Option-cases w.config.binauth) [
  | inl off ↦ rw off
  | inr (b, on) ↦ rw on (ground arith)
]

delete_commands :
    (w : World) (node : ℕ) (r : Rule)
    → installed r (client_list_delete w node).commands ≡ installed r w.commands
unfolding client_list_delete
delete_commands w node r = ground arith

block_installed :
    (env : Env) (w : World) (blocked_mac mac ip : CString)
    → IsReliable env
    → installed (mark_outgoing ip mac) (auth_client_block env w blocked_mac).0.commands
      ≡ installed (mark_outgoing ip mac) w.commands
unfolding auth_client_block iptables_block_mac installed change rule_eq
block_installed env w blocked_mac mac ip rel = ground (
  arith,
  do_command-reliable env
      (record w { config = (add_to_blocked_mac_list env w.config blocked_mac).0 })
      (append (mark_blocked blocked_mac)) rel,
)

module _ (env : Env) (w : World) (c : Client) (reason : Option CString) (rel : IsReliable env)
    (mac ip : CString) where
  login_installed :
      installed (mark_outgoing ip mac) (authenticate_branch env w c reason).commands ≡ (
        if str_eq c.mac mac && str_eq c.ip ip
        then suc (installed (mark_outgoing ip mac) w.commands)
        else installed (mark_outgoing ip mac) w.commands)
  unfolding authenticate_branch set_state change
  login_installed =
      let (history, e, same) = authenticate_history env w c rel in
      binauth_installed env _ c reason (mark_outgoing ip mac)
      ∙ (ap (λ v. installed (mark_outgoing ip mac) v.commands) e ∙ same (mark_outgoing ip mac))

  logout_installed :
      installed (mark_outgoing ip mac) (deauthenticate_branch env w c reason).commands ≡ (
        if str_eq c.mac mac && str_eq c.ip ip
        then installed (mark_outgoing ip mac) w.commands - 1
        else installed (mark_outgoing ip mac) w.commands)
  unfolding deauthenticate_branch set_state client_reset change
  logout_installed =
      let (history, e, same) = deauthenticate_history env w c rel in
      binauth_installed env _ c reason (mark_outgoing ip mac)
      ∙ (ap (λ v. installed (mark_outgoing ip mac) v.commands) e ∙ same (mark_outgoing ip mac))

  lockout_installed : installed (mark_outgoing ip mac) (block_branch env w c reason).commands ≡ (
      if str_eq c.mac mac && str_eq c.ip ip
      then installed (mark_outgoing ip mac) w.commands - 1
      else installed (mark_outgoing ip mac) w.commands)
  unfolding block_branch change
  lockout_installed =
      let (history, e, same) = deauthenticate_history env w c rel in
      let w1 = (iptables_fw_deauthenticate env w c).0 in
      let w2 = binauth_action env w1 c reason in
      delete_commands (auth_client_block env w2 c.mac).0 c.node (mark_outgoing ip mac)
      ∙ (block_installed env w2 c.mac mac ip rel
          ∙ (binauth_installed env w1 c reason (mark_outgoing ip mac)
              ∙ (ap (λ v. installed (mark_outgoing ip mac) v.commands) e
                  ∙ same (mark_outgoing ip mac))))

-- The addresses of a client on the list find it, and nothing once it is unlinked.
module _ (w : World) (c : Client) (h : IsWellFormed w) (m : IsMember c w.clients) (mac ip : CString)
    (e : (str_eq c.mac mac && str_eq c.ip ip) ≡ true) where
  pub first_pair : client_list_find w mac ip ≡ some c
  first_pair =
      let (same_mac, same_ip) = &&-eq-true (str_eq c.mac mac) (str_eq c.ip ip) e in
      subst (λ k. client_list_find w k ip ≡ some c) (eq_of_str_eq c.mac mac same_mac)
        (subst (λ k. client_list_find w c.mac k ≡ some c) (eq_of_str_eq c.ip ip same_ip)
          (find_pair-IsMember w.clients c h.pairs m))

  pub unlinked_pair :
      find_client (λ x. str_eq x.mac mac && str_eq x.ip ip) (unlink_node c.node w.clients) ≡ none
  unlinked_pair =
      let (same_mac, same_ip) = &&-eq-true (str_eq c.mac mac) (str_eq c.ip ip) e in
      subst
        (λ k.
          find_client (λ x. str_eq x.mac k && str_eq x.ip ip) (unlink_node c.node w.clients) ≡ none)
        (eq_of_str_eq c.mac mac same_mac)
        (subst
          (λ k.
            find_client (λ x. str_eq x.mac c.mac && str_eq x.ip k) (unlink_node c.node w.clients)
            ≡ none)
          (eq_of_str_eq c.ip ip same_ip) (find_pair-unlink_self w.clients c h.pairs m))

module _ (env : Env) (w : World) (c : Client) (t : ℕ) (reason : Option CString)
    (rel : IsReliable env) (d : AreDistinct w.marks) (h : IsWellFormed w) (m : IsMember c w.clients)
    (agree : FirewallAgrees w) (mac ip : CString) where
  abbrev test : Client → Bool
  test x = str_eq x.mac mac && str_eq x.ip ip

  first : test c ≡ true → client_list_find w mac ip ≡ some c
  first e = first_pair w c h m mac ip e

  gone : test c ≡ true → client_list_find (block_branch env w c reason) mac ip ≡ none
  gone e = ap (find_client test) (lockout_clients env w c reason m) ∙ unlinked_pair w c h m mac ip e

  lockout_agrees :
      c.fw_connection_state ≡ w.marks.authenticated
      → installed (mark_outgoing ip mac) (block_branch env w c reason).commands
        ≡ rule_count w.marks (client_list_find (block_branch env w c reason) mac ip)
  lockout_agrees p = elim (Bool-cases (test c)) [
    | inl hit ↦ ground (
      arith,
      p,
      hit,
      lockout_installed env w c reason rel mac ip,
      gone hit,
      agree.outgoing mac ip,
      first hit,
    )
    | inr miss ↦ ground (
      arith,
      miss,
      lockout_installed env w c reason rel mac ip,
      lockout_find env w c reason test (by_pair-IsStable mac ip) first m miss,
      agree.outgoing mac ip,
    )
  ]

  pub Outcome-agrees :
      (r : World × ℕ)
      → Outcome env w c t reason r
      → installed (mark_outgoing ip mac) r.0.commands
        ≡ rule_count w.marks (client_list_find r.0 mac ip)
  unfolding logged_in_client logged_out_client
  Outcome-agrees r (refused e) =
      ground (arith, ap (λ x. x.0.commands) e, ap (λ x. x.0.clients) e, agree.outgoing mac ip)
  Outcome-agrees r (logged_in p q e) =
      ap (λ x. installed (mark_outgoing ip mac) x.0.commands) e
      ∙ (ground (
        arith,
        p,
        d.pre_auth,
        login_installed env w c reason rel mac ip,
        login_find env w c reason test (by_pair-IsStable mac ip) first m,
        agree.outgoing mac ip,
        first,
      )
          ∙ ap (λ x. rule_count w.marks (client_list_find x.0 mac ip)) (sym e))
  Outcome-agrees r (logged_out p q e) =
      ap (λ x. installed (mark_outgoing ip mac) x.0.commands) e
      ∙ (ground (
        arith,
        p,
        d.pre_auth,
        logout_installed env w c reason rel mac ip,
        logout_find env w c reason test (by_pair-IsStable mac ip) first m,
        agree.outgoing mac ip,
        first,
      )
          ∙ ap (λ x. rule_count w.marks (client_list_find x.0 mac ip)) (sym e))
  Outcome-agrees r (locked_out p q e) =
      ap (λ x. installed (mark_outgoing ip mac) x.0.commands) e
      ∙ (lockout_agrees p ∙ ap (λ x. rule_count w.marks (client_list_find x.0 mac ip)) (sym e))
