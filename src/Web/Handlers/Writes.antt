-- ===== src/Web/Handlers/Writes.antt =====
-- The write that ends a login in src/http_microhttpd.c, and the invariants of the client list.
use nodogsplash.Prelude.{List, [], arith, refl, sym, ℕ, ◌&&◌, ◌∙◌, ◌∷◌, ◌≡◌}
use nodogsplash.CString.{CString, str_eq}
use nodogsplash.Auth.FirewallState.{rule_count}
use nodogsplash.Auth.FirewallSync.{IsInSync}
use nodogsplash.Client.{Client}
use nodogsplash.ClientList.{find_client, update_node}
use nodogsplash.ClientList.Shape.{
  Ascending-update, DistinctPairs-update, IsWellFormed, length-update,
}
use nodogsplash.Web.Handlers.{login_fields}
use nodogsplash.World.{Marks, World}

-- A write that keeps the identity and the state of a client.
module _ (f : Client → Client)
    (same : (c : Client)
      → ((f c).id ≡ c.id)
        × ((f c).node ≡ c.node)
        × ((f c).mac ≡ c.mac)
        × ((f c).ip ≡ c.ip)
        × ((f c).fw_connection_state ≡ c.fw_connection_state)) where
  pub write-IsWellFormed :
      (w : World) (node : ℕ)
      → IsWellFormed w
      → IsWellFormed (record w { clients = update_node node f w.clients })
  write-IsWellFormed w node h = record {
    counted = h.counted ∙ sym (length-update node _ w.clients);
    bounded = h.bounded;
    small = h.small;
    ids = Ascending-update (λ c. c.id) node 1 w.client_id _ w.clients (λ c. (same c).0) h.ids;
    nodes = Ascending-update (λ c. c.node) node 0 w.next_node _ w.clients (λ c. (same c).1) h.nodes;
    pairs = DistinctPairs-update node _ w.clients (λ c. ((same c).2, (same c).3)) h.pairs;
  }

  write_count :
      (marks : Marks) (node : ℕ) (mac ip : CString) (cs : List Client)
      → rule_count marks
          (find_client (λ x. str_eq x.mac mac && str_eq x.ip ip) (update_node node f cs))
        ≡ rule_count marks (find_client (λ x. str_eq x.mac mac && str_eq x.ip ip) cs)
  unfolding find_client update_node
  write_count marks node mac ip [] = refl
  write_count marks node mac ip (x ∷ xs) =
      ground (arith, (same x).2, (same x).3, (same x).4, write_count marks node mac ip xs)

  pub write-IsInSync :
      (w : World) (node : ℕ)
      → IsInSync w
      → IsInSync (record w { clients = update_node node f w.clients })
  write-IsInSync w node s = record {
    shape = write-IsWellFormed w node s.shape;
    distinct = s.distinct;
    agrees = record {
      outgoing =
          λ mac ip. s.agrees.outgoing mac ip ∙ sym (write_count w.marks node mac ip w.clients);
    };
  }

pub login_same :
    (now : ℕ) (limits : ℕ × ℕ × ℕ) (c : Client)
    → ((login_fields now limits c).id ≡ c.id)
      × ((login_fields now limits c).node ≡ c.node)
      × ((login_fields now limits c).mac ≡ c.mac)
      × ((login_fields now limits c).ip ≡ c.ip)
      × ((login_fields now limits c).fw_connection_state ≡ c.fw_connection_state)
unfolding login_fields
login_same now (s, u, d) c = (refl, refl, refl, refl, refl)
