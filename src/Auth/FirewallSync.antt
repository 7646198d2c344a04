-- ===== src/Auth/FirewallSync.antt =====
-- The agreement of the firewall with the client list, through auth_change_state of src/auth.c and
-- client_list_delete of src/client_list.c.
use nodogsplash.Prelude.{
  Bool-cases, Option, ap, arith, inl, inr, some, subst, sym, ℕ, ◌&&◌, ◌==◌, ◌∙◌, ◌≡◌, ◌≢◌,
}
use nodogsplash.CString.{CString, str_eq}
use nodogsplash.Auth.{auth_change_state}
use nodogsplash.Auth.FirewallState.{
  FirewallAgrees, first_pair, Outcome-agrees, rule_count, unlinked_pair,
}
use nodogsplash.Auth.Frame.{marks_kept}
use nodogsplash.Auth.Invariant.{change_state-IsWellFormed}
use nodogsplash.Auth.Transitions.{AreDistinct, change_state_cases}
use nodogsplash.Client.{Client}
use nodogsplash.ClientList.{
  client_list_delete, client_list_find, client_list_find_by_id, find_client, unlink_node,
}
use nodogsplash.ClientList.Delete.{delete-IsWellFormed}
use nodogsplash.ClientList.Members.{IsMember, IsMember-find, find-unlink_ne, has_node-IsMember}
use nodogsplash.ClientList.Shape.{IsWellFormed}
use nodogsplash.Firewall.Installed.{IsReliable}
use nodogsplash.World.{Env, World}

-- A sound state: the list is sound, the marks are distinct, and the firewall agrees with the list.
pub record IsInSync (w : World) : Type 0 where
  pub shape : IsWellFormed w
  pub distinct : AreDistinct w.marks
  pub agrees : FirewallAgrees w

pub IsMember-of_id :
    (w : World) (c : Client) (id : ℕ)
    → IsWellFormed w
    → client_list_find_by_id w id ≡ some c
    → IsMember c w.clients
IsMember-of_id w c id h found =
    IsMember-find (λ d. d.id == id) 0 w.next_node w.clients c h.nodes found

-- In an environment where no command fails, a change of state of a client on the list, whatever the
-- state that is asked for, keeps the list sound and in agreement with the firewall: the rule that
-- marks its packets is installed once while it is authenticated and not at all otherwise.
pub change_state-IsInSync :
    (env : Env) (w : World) (c : Client) (t : ℕ) (reason : Option CString)
    → IsReliable env
    → IsMember c w.clients
    → IsInSync w
    → IsInSync (auth_change_state env w c t reason).0
change_state-IsInSync env w c t reason rel m s =
    let same = marks_kept env w c t reason in
    record {
      shape = change_state-IsWellFormed env w c t reason s.shape;
      distinct = subst AreDistinct (sym same) s.distinct;
      agrees = record {
        outgoing = λ mac ip.
            Outcome-agrees env w c t reason rel s.distinct s.shape m s.agrees mac ip _
              (change_state_cases env w c t reason)
            ∙ ap
                (λ k. rule_count k (client_list_find (auth_change_state env w c t reason).0 mac ip))
                (sym same);
      };
    }

-- Two addresses found on the list for a pair of addresses.
delete_find :
    (w : World) (c : Client) (mac ip : CString)
    → c.fw_connection_state ≢ w.marks.authenticated
    → IsMember c w.clients
    → IsInSync w
    → rule_count w.marks (find_client (λ x. str_eq x.mac mac && str_eq x.ip ip) w.clients)
      ≡ rule_count w.marks
          (find_client (λ x. str_eq x.mac mac && str_eq x.ip ip) (unlink_node c.node w.clients))
delete_find w c mac ip other m s = elim (Bool-cases (str_eq c.mac mac && str_eq c.ip ip)) [
  | inl hit ↦
      ground
        (arith, other, first_pair w c s.shape m mac ip hit, unlinked_pair w c s.shape m mac ip hit)
  | inr miss ↦
      ground (arith, find-unlink_ne (λ x. str_eq x.mac mac && str_eq x.ip ip) w.clients c miss m)
]

-- Deleting a client that is not authenticated.
pub delete-IsInSync :
    (w : World) (c : Client)
    → c.fw_connection_state ≢ w.marks.authenticated
    → IsMember c w.clients
    → IsInSync w
    → IsInSync (client_list_delete w c.node)
unfolding client_list_delete
delete-IsInSync w c other m s = record {
  shape = delete-IsWellFormed w c.node s.shape;
  distinct = ground (arith, s.distinct);
  agrees = record {
    outgoing = λ mac ip. ground (
      arith,
      s.agrees.outgoing mac ip,
      delete_find w c mac ip other m s,
      has_node-IsMember w.clients c m,
    );
  };
}
