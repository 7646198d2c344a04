-- ===== src/Auth/FirewallLoops.antt =====
-- The agreement of the firewall with the client list, through the remaining operations of
-- src/auth.c and the insertion of src/client_list.c.
use nodogsplash.Prelude.{
  Bool, Bool-cases, List, Option, [], arith, false, if◌then◌else◌, inl, inr, none, refl, some,
  subst, sym, true, ℕ, ◌&&◌, ◌++◌, ◌==◌, ◌∷◌, ◌≡◌, ◌≢◌,
}
use nodogsplash.Prelude.Int32.{is_pos}
use nodogsplash.CString.{CString, str_eq}
use nodogsplash.Auth.{
  auth_change_state, auth_client_auth, auth_client_auth_nolock, auth_client_deauth,
  auth_client_deauth_all, auth_found, count_authentication, deauth_body, deauth_found,
  idle_too_long, limit_reached, refresh_client_list, refresh_found, session_over,
}
use nodogsplash.Auth.FirewallState.{FirewallAgrees, rule_count}
use nodogsplash.Auth.FirewallSync.{IsInSync, change_state-IsInSync, delete-IsInSync, IsMember-of_id}
use nodogsplash.Auth.Loops.{loop_keeps_invariant}
use nodogsplash.Auth.Transitions.{AreDistinct}
use nodogsplash.Client.{Client}
use nodogsplash.ClientList.{client_list_add_client, client_list_find_by_id, find_client}
use nodogsplash.ClientList.Add.{Appended, add_client-IsWellFormed, add_client_cases}
use nodogsplash.Firewall.Installed.{IsReliable}
use nodogsplash.World.{Env, Marks, World}

-- What happens to the client that a search found.
found_change-IsInSync :
    (env : Env) (w : World) (id t : ℕ) (c : Client) (reason : Option CString)
    → IsReliable env
    → client_list_find_by_id w id ≡ some c
    → IsInSync w
    → IsInSync (auth_change_state env w c t reason).0
found_change-IsInSync env w id t c reason rel found s =
    change_state-IsInSync env w c t reason rel (IsMember-of_id w c id s.shape found) s

deauth_found-IsInSync :
    (env : Env) (w : World) (id : ℕ) (reason : Option CString) (o : Option Client)
    → client_list_find_by_id w id ≡ o
    → IsReliable env
    → IsInSync w
    → IsInSync (deauth_found env w reason o).0
unfolding deauth_found
deauth_found-IsInSync env w id reason none e rel s = s
deauth_found-IsInSync env w id reason (some c) e rel s =
    found_change-IsInSync env w id w.marks.preauthenticated c reason rel e s

pub deauth-IsInSync :
    (env : Env) (w : World) (id : ℕ) (reason : Option CString)
    → IsReliable env
    → IsInSync w
    → IsInSync (auth_client_deauth env w id reason).0
unfolding auth_client_deauth
deauth-IsInSync env w id reason = deauth_found-IsInSync env w id reason _ refl

pub deauth_all-IsInSync :
    (env : Env) (w : World) → IsReliable env → IsInSync w → IsInSync (auth_client_deauth_all env w)
unfolding auth_client_deauth_all deauth_body
deauth_all-IsInSync env w rel s =
    loop_keeps_invariant _ IsInSync (λ v id q. deauth_found-IsInSync env v id _ _ refl rel q) w _ s

IsInSync-if :
    (b : Bool) (v w : World)
    → (b ≡ true → IsInSync v)
    → (b ≡ false → IsInSync w)
    → IsInSync (if b then v else w)
IsInSync-if true v w x y = x refl
IsInSync-if false v w x y = y refl

idle_preauth :
    (w : World) (now : ℕ) (c : Client)
    → AreDistinct w.marks
    → idle_too_long w.config.preauth_idle_timeout w.marks.preauthenticated now c ≡ true
    → c.fw_connection_state ≢ w.marks.authenticated
unfolding idle_too_long
idle_preauth w now c d e p = ground (arith, e, p, d.pre_auth)

refresh_found-IsInSync :
    (env : Env) (w : World) (id now : ℕ) (o : Option Client)
    → client_list_find_by_id w id ≡ o
    → IsReliable env
    → IsInSync w
    → IsInSync (refresh_found env w now o)
unfolding refresh_found
refresh_found-IsInSync env w id now none e rel s = s
refresh_found-IsInSync env w id now (some c) e rel s =
    let change : (t : ℕ) (reason : Option CString)
        → IsInSync (auth_change_state env w c t reason).0 =
      λ t reason. found_change-IsInSync env w id t c reason rel e s in
    IsInSync-if (session_over now c) _ _
      (λ _.
        IsInSync-if (is_pos w.config.session_timeout_block) _ _ (λ _. change _ _) (λ _. change _ _))
      (λ _.
        IsInSync-if (limit_reached w c) _ _ (λ _. change _ _)
          (λ _.
            IsInSync-if (idle_too_long w.config.preauth_idle_timeout w.marks.preauthenticated now c)
              _ _
              (λ idle.
                delete-IsInSync w c (idle_preauth w now c s.distinct idle)
                  (IsMember-of_id w c id s.shape e) s)
              (λ _.
                IsInSync-if (idle_too_long w.config.auth_idle_timeout w.marks.authenticated now c) _
                  _ (λ _. change _ _) (λ _. s))))

pub refresh-IsInSync :
    (env : Env) (w : World) (now : ℕ)
    → IsReliable env
    → IsInSync w
    → IsInSync (refresh_client_list env w now)
unfolding refresh_client_list
refresh-IsInSync env w now rel s =
    loop_keeps_invariant _ IsInSync (λ v id q. refresh_found-IsInSync env v id now _ refl rel q) w _
      s

count-IsInSync : (r : World × ℕ) → IsInSync r.0 → IsInSync (count_authentication r).0
unfolding count_authentication
count-IsInSync (v, rc) q = elim (Bool-cases (rc == 0)) [
  | inl ok ↦ rw ok (record {
    shape = record {
      counted = q.shape.counted;
      bounded = q.shape.bounded;
      small = q.shape.small;
      ids = q.shape.ids;
      nodes = q.shape.nodes;
      pairs = q.shape.pairs;
    };
    distinct = q.distinct;
    agrees = record { outgoing = q.agrees.outgoing };
  })
  | inr failed ↦ rw failed q
]

auth_found-IsInSync :
    (env : Env) (w : World) (id : ℕ) (reason : Option CString) (o : Option Client)
    → client_list_find_by_id w id ≡ o
    → IsReliable env
    → IsInSync w
    → IsInSync (auth_found env w reason o).0
unfolding auth_found
auth_found-IsInSync env w id reason none e rel s = s
auth_found-IsInSync env w id reason (some c) e rel s =
    count-IsInSync _ (found_change-IsInSync env w id w.marks.authenticated c reason rel e s)

pub auth-IsInSync :
    (env : Env) (w : World) (id : ℕ) (reason : Option CString)
    → IsReliable env
    → IsInSync w
    → IsInSync (auth_client_auth env w id reason).0
unfolding auth_client_auth_nolock
auth-IsInSync env w id reason = auth_found-IsInSync env w id reason _ refl

append_count :
    (marks : Marks) (c : Client) (mac ip : CString) (cs : List Client)
    → c.fw_connection_state ≢ marks.authenticated
    → rule_count marks (find_client (λ x. str_eq x.mac mac && str_eq x.ip ip) (cs ++ c ∷ []))
      ≡ rule_count marks (find_client (λ x. str_eq x.mac mac && str_eq x.ip ip) cs)
unfolding find_client
append_count marks c mac ip [] other = ground (arith, other)
append_count marks c mac ip (x ∷ xs) other = ground (arith, append_count marks c mac ip xs other)

Appended-agrees : (w w' : World) (c : Client) → Appended w w' c → IsInSync w → FirewallAgrees w'
Appended-agrees w w' c new s = record {
  outgoing = λ mac ip. ground (
    arith,
    new.commands,
    new.marks,
    new.clients,
    s.agrees.outgoing mac ip,
    append_count w.marks c mac ip w.clients (λ e. ground (
      arith, e, new.state, s.distinct.pre_auth, s.distinct.auth_blocked, s.distinct.auth_trusted,
    )),
  );
}

pub add_client-IsInSync :
    (env : Env) (w : World) (mac ip : CString)
    → IsInSync w
    → IsInSync (client_list_add_client env w mac ip).0
add_client-IsInSync env w mac ip s = elim (add_client_cases env w mac ip) [
  | inl same ↦ subst IsInSync (sym same) s
  | inr (c, new) ↦ record {
    shape = add_client-IsWellFormed env w mac ip s.shape;
    distinct = subst AreDistinct (sym new.marks) s.distinct;
    agrees = Appended-agrees w _ c new s;
  }
]
