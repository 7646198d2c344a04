-- ===== src/Auth/MacOps.antt =====
-- auth_client_trust and its five companions in src/auth.c: the list of the configuration first, the
-- rule of the firewall next.
use nodogsplash.Prelude.{Bool-cases, arith, inl, inr, refl, subst, sym, ℕ, ◌==◌, ◌∙◌, ◌≡◌}
use nodogsplash.CString.{CString}
use nodogsplash.Auth.{
  auth_client_allow, auth_client_block, auth_client_trust, auth_client_unallow, auth_client_unblock,
  auth_client_untrust, with_list,
}
use nodogsplash.Auth.FirewallSync.{IsInSync}
use nodogsplash.ClientList.Shape.{IsWellFormed}
use nodogsplash.Conf.MacList.Unique.{
  MacOp, adding, allowed, apply_op, apply_op-maxclients, blocked, removing, trusted,
}
use nodogsplash.Config.{Config}
use nodogsplash.Firewall.{
  iptables_allow_mac, iptables_block_mac, iptables_do_command, iptables_trust_mac,
  iptables_unallow_mac, iptables_unblock_mac, iptables_untrust_mac,
}
use nodogsplash.Firewall.Effects.{OnlyCommands, do_command-OnlyCommands}
use nodogsplash.Firewall.Installed.{IsReliable, change, do_command-reliable, installed, rule_eq}
use nodogsplash.World.{
  Command, Env, World, append, delete, insert, mark_blocked, mark_outgoing, mark_trusted,
  pass_allowed,
}

-- The operation of src/auth.c for each operation on a list.
unfoldable pub auth_client_op : Env → MacOp → World → CString → World × ℕ
auth_client_op env (adding trusted) w mac = auth_client_trust env w mac
auth_client_op env (removing trusted) w mac = auth_client_untrust env w mac
auth_client_op env (adding blocked) w mac = auth_client_block env w mac
auth_client_op env (removing blocked) w mac = auth_client_unblock env w mac
auth_client_op env (adding allowed) w mac = auth_client_allow env w mac
auth_client_op env (removing allowed) w mac = auth_client_unallow env w mac

-- The command that goes with it.
unfoldable pub command_of : MacOp → CString → Command
command_of (adding trusted) mac = append (mark_trusted mac)
command_of (removing trusted) mac = delete (mark_trusted mac)
command_of (adding blocked) mac = append (mark_blocked mac)
command_of (removing blocked) mac = delete (mark_blocked mac)
command_of (adding allowed) mac = insert (pass_allowed mac)
command_of (removing allowed) mac = delete (pass_allowed mac)

-- Every one of the six is the same: the list operation, and after its success the command.
auth_client_op_lem :
    (env : Env) (op : MacOp) (w : World) (mac : CString)
    → auth_client_op env op w mac
      ≡ with_list
          (apply_op env op w.config mac)
          (λ v. iptables_do_command env v (command_of op mac))
          w
unfolding auth_client_op command_of apply_op auth_client_trust auth_client_untrust auth_client_block
    auth_client_unblock auth_client_allow auth_client_unallow iptables_trust_mac
    iptables_untrust_mac iptables_block_mac iptables_unblock_mac iptables_allow_mac
    iptables_unallow_mac
auth_client_op_lem env (adding trusted) w mac = refl
auth_client_op_lem env (removing trusted) w mac = refl
auth_client_op_lem env (adding blocked) w mac = refl
auth_client_op_lem env (removing blocked) w mac = refl
auth_client_op_lem env (adding allowed) w mac = refl
auth_client_op_lem env (removing allowed) w mac = refl

pub config_only-IsWellFormed :
    (w : World) (config : Config)
    → config.maxclients ≡ w.config.maxclients
    → IsWellFormed w
    → IsWellFormed (record w { config = config })
config_only-IsWellFormed w config e h = record {
  counted = h.counted;
  bounded = ground (arith, e, h.bounded);
  small = h.small;
  ids = h.ids;
  nodes = h.nodes;
  pairs = h.pairs;
}

commands_only-IsWellFormed : (w v : World) → OnlyCommands w v → IsWellFormed w → IsWellFormed v
commands_only-IsWellFormed w v (history, e) h = subst IsWellFormed (sym e) (record {
  counted = h.counted;
  bounded = h.bounded;
  small = h.small;
  ids = h.ids;
  nodes = h.nodes;
  pairs = h.pairs;
})

with_list-IsWellFormed :
    (env : Env) (w : World) (r : Config × ℕ) (cmd : Command)
    → r.0.maxclients ≡ w.config.maxclients
    → IsWellFormed w
    → IsWellFormed (with_list r (λ v. iptables_do_command env v cmd) w).0
unfolding with_list
with_list-IsWellFormed env w (config, rc) cmd e h =
    let v = record w { config = config } in
    let q = config_only-IsWellFormed w config e h in
    elim (Bool-cases (rc == 0)) [
      | inl ok ↦ rw ok (commands_only-IsWellFormed v _ (do_command-OnlyCommands env v cmd) q)
      | inr failed ↦ rw failed q
    ]

pub auth_client_op-IsWellFormed :
    (env : Env) (op : MacOp) (w : World) (mac : CString)
    → IsWellFormed w
    → IsWellFormed (auth_client_op env op w mac).0
auth_client_op-IsWellFormed env op w mac h = rw (auth_client_op_lem env op w mac) (
    with_list-IsWellFormed env w (apply_op env op w.config mac) (command_of op mac)
      (apply_op-maxclients env op w.config mac) h)

-- No such command is about the mark of one client's packets.
op_change :
    (op : MacOp) (mac ip mac' : CString) (n : ℕ)
    → change (mark_outgoing ip mac') (command_of op mac) n ≡ n
unfolding command_of change rule_eq
op_change (adding trusted) mac ip mac' n = refl
op_change (removing trusted) mac ip mac' n = refl
op_change (adding blocked) mac ip mac' n = refl
op_change (removing blocked) mac ip mac' n = refl
op_change (adding allowed) mac ip mac' n = refl
op_change (removing allowed) mac ip mac' n = refl

with_list-IsInSync :
    (env : Env) (w : World) (r : Config × ℕ) (cmd : Command)
    → IsReliable env
    → ((ip mac : CString) (n : ℕ) → change (mark_outgoing ip mac) cmd n ≡ n)
    → r.0.maxclients ≡ w.config.maxclients
    → IsInSync w
    → IsInSync (with_list r (λ v. iptables_do_command env v cmd) w).0
unfolding with_list installed
with_list-IsInSync env w (config, rc) cmd rel same e s =
    let v = record w { config = config } in
    let q : IsInSync v = record {
      shape = config_only-IsWellFormed w config e s.shape;
      distinct = s.distinct;
      agrees = record { outgoing = s.agrees.outgoing };
    } in
    elim (Bool-cases (rc == 0)) [
      | inl ok ↦ rw ok (
          rw (do_command-reliable env v cmd rel) (record {
            shape = commands_only-IsWellFormed v _ (_, refl) q.shape;
            distinct = s.distinct;
            agrees = record { outgoing = λ mac ip. same ip mac _ ∙ s.agrees.outgoing mac ip };
          }))
      | inr failed ↦ rw failed q
    ]

pub auth_client_op-IsInSync :
    (env : Env) (op : MacOp) (w : World) (mac : CString)
    → IsReliable env
    → IsInSync w
    → IsInSync (auth_client_op env op w mac).0
auth_client_op-IsInSync env op w mac rel s = rw (auth_client_op_lem env op w mac) (
    with_list-IsInSync env w (apply_op env op w.config mac) (command_of op mac) rel
      (λ ip mac'. op_change op mac ip mac') (apply_op-maxclients env op w.config mac) s)
