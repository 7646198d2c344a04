-- ===== src/Auth/Invariant.antt =====
-- The invariant of the client list through the operations of src/auth.c.
use nodogsplash.Prelude.{
  Bool-cases, List, Option, ap, arith, inl, inr, none, refl, some, subst, sym, ℕ, ◌==◌, ◌∙◌,
}
use nodogsplash.CString.{CString, codes}
use nodogsplash.Auth.{
  auth_change_state, auth_client_auth, auth_client_auth_nolock, auth_client_deauth, auth_found,
  count_authentication, deauth_found, refresh_found, set_state,
}
use nodogsplash.Auth.Effects.{
  authenticate_branch_lem, block_branch_lem, deauthenticate_branch_lem, with_blocked,
}
use nodogsplash.Auth.Transitions.{
  Outcome, change_state_cases, locked_out, logged_in, logged_out, refused,
}
use nodogsplash.Client.{Client}
use nodogsplash.ClientList.{client_reset}
use nodogsplash.ClientList.Delete.{delete-IsWellFormed}
use nodogsplash.ClientList.Shape.{
  Ascending-update, DistinctPairs-update, IsWellFormed, length-update,
}
use nodogsplash.Firewall.Installed.{only_commands}
use nodogsplash.World.{Command, Env, World}

set_state-IsWellFormed :
    (w : World) (node state : ℕ) → IsWellFormed w → IsWellFormed (set_state w node state)
unfolding set_state
set_state-IsWellFormed w node state h = record {
  counted = h.counted ∙ sym (length-update node _ w.clients);
  bounded = h.bounded;
  small = h.small;
  ids = Ascending-update (λ c. c.id) node 1 w.client_id _ w.clients (λ c. refl) h.ids;
  nodes = Ascending-update (λ c. c.node) node 0 w.next_node _ w.clients (λ c. refl) h.nodes;
  pairs = DistinctPairs-update node _ w.clients (λ c. (refl, refl)) h.pairs;
}

client_reset-IsWellFormed :
    (env : Env) (w : World) (node : ℕ) → IsWellFormed w → IsWellFormed (client_reset env w node)
unfolding client_reset
client_reset-IsWellFormed env w node h = record {
  counted = h.counted ∙ sym (length-update node _ w.clients);
  bounded = h.bounded;
  small = h.small;
  ids = Ascending-update (λ c. c.id) node 1 w.client_id _ w.clients (λ c. refl) h.ids;
  nodes = Ascending-update (λ c. c.node) node 0 w.next_node _ w.clients (λ c. refl) h.nodes;
  pairs = DistinctPairs-update node _ w.clients (λ c. (refl, refl)) h.pairs;
}

commands-IsWellFormed :
    (w : World) (history : List (Command × ℕ))
    → IsWellFormed w
    → IsWellFormed (only_commands w history)
commands-IsWellFormed w history h = record {
  counted = h.counted;
  bounded = h.bounded;
  small = h.small;
  ids = h.ids;
  nodes = h.nodes;
  pairs = h.pairs;
}

pub with_blocked-IsWellFormed :
    (w : World) (history : List (Command × ℕ)) (macs : List CString)
    → IsWellFormed w
    → IsWellFormed (with_blocked w history macs)
with_blocked-IsWellFormed w history macs h = record {
  counted = h.counted;
  bounded = h.bounded;
  small = h.small;
  ids = h.ids;
  nodes = h.nodes;
  pairs = h.pairs;
}

Outcome-IsWellFormed :
    (env : Env) (w : World) (c : Client) (t : ℕ) (reason : Option CString) (r : World × ℕ)
    → Outcome env w c t reason r
    → IsWellFormed w
    → IsWellFormed r.0
Outcome-IsWellFormed env w c t reason r (refused e) h = subst (λ x. IsWellFormed x.0) (sym e) h
Outcome-IsWellFormed env w c t reason r (logged_in p q e) h =
    let (history, k) = authenticate_branch_lem env w c reason in
    subst IsWellFormed (sym (ap (λ x. x.0) e ∙ k))
      (set_state-IsWellFormed _ c.node w.marks.authenticated (commands-IsWellFormed w history h))
Outcome-IsWellFormed env w c t reason r (logged_out p q e) h =
    let (history, k) = deauthenticate_branch_lem env w c reason in
    subst IsWellFormed (sym (ap (λ x. x.0) e ∙ k)) (
      set_state-IsWellFormed _ c.node w.marks.preauthenticated
        (client_reset-IsWellFormed env _ c.node (commands-IsWellFormed w history h)))
Outcome-IsWellFormed env w c t reason r (locked_out p q e) h =
    let (history, macs, k) = block_branch_lem env w c reason in
    subst IsWellFormed (sym (ap (λ x. x.0) e ∙ k))
      (delete-IsWellFormed _ c.node (with_blocked-IsWellFormed w history macs h))

-- Whatever the requested state and the results of the external commands, auth_change_state keeps
-- the client list sound.
pub change_state-IsWellFormed :
    (env : Env) (w : World) (c : Client) (t : ℕ) (reason : Option CString)
    → IsWellFormed w
    → IsWellFormed (auth_change_state env w c t reason).0
change_state-IsWellFormed env w c t reason =
    Outcome-IsWellFormed env w c t reason _ (change_state_cases env w c t reason)

pub deauth-IsWellFormed :
    (env : Env) (w : World) (reason : Option CString) (o : Option Client)
    → IsWellFormed w
    → IsWellFormed (deauth_found env w reason o).0
unfolding deauth_found
deauth-IsWellFormed env w reason none h = h
deauth-IsWellFormed env w reason (some c) h =
    change_state-IsWellFormed env w c w.marks.preauthenticated reason h

pub refresh_found-IsWellFormed :
    (env : Env) (w : World) (now : ℕ) (o : Option Client)
    → IsWellFormed w
    → IsWellFormed (refresh_found env w now o)
unfolding refresh_found
refresh_found-IsWellFormed env w now none h = h
refresh_found-IsWellFormed env w now (some c) h = ground (
  arith,
  change_state-IsWellFormed env w c w.marks.blocked (some (codes "timeout_deauth_block")) h,
  change_state-IsWellFormed env w c w.marks.preauthenticated (some (codes "timeout_deauth")) h,
  change_state-IsWellFormed env w c w.marks.blocked (some (codes "limitout_deauth_block")) h,
  change_state-IsWellFormed env w c w.marks.preauthenticated (some (codes "idle_deauth")) h,
  delete-IsWellFormed w c.node h,
)

pub deauth_id-IsWellFormed :
    (env : Env) (w : World) (id : ℕ) (reason : Option CString)
    → IsWellFormed w
    → IsWellFormed (auth_client_deauth env w id reason).0
unfolding auth_client_deauth
deauth_id-IsWellFormed env w id reason = deauth-IsWellFormed env w reason _

count-IsWellFormed : (r : World × ℕ) → IsWellFormed r.0 → IsWellFormed (count_authentication r).0
unfolding count_authentication
count-IsWellFormed (w, rc) h = elim (Bool-cases (rc == 0)) [
  | inl ok ↦ rw ok (record {
    counted = h.counted;
    bounded = h.bounded;
    small = h.small;
    ids = h.ids;
    nodes = h.nodes;
    pairs = h.pairs;
  })
  | inr failed ↦ rw failed h
]

auth_found-IsWellFormed :
    (env : Env) (w : World) (reason : Option CString) (o : Option Client)
    → IsWellFormed w
    → IsWellFormed (auth_found env w reason o).0
unfolding auth_found
auth_found-IsWellFormed env w reason none h = h
auth_found-IsWellFormed env w reason (some c) h =
    count-IsWellFormed _ (change_state-IsWellFormed env w c w.marks.authenticated reason h)

pub auth-IsWellFormed :
    (env : Env) (w : World) (id : ℕ) (reason : Option CString)
    → IsWellFormed w
    → IsWellFormed (auth_client_auth env w id reason).0
unfolding auth_client_auth_nolock
auth-IsWellFormed env w id reason = auth_found-IsWellFormed env w reason _
