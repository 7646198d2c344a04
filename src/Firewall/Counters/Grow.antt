-- ===== src/Firewall/Counters/Grow.antt =====
-- The order on clients and worlds that describes an update of the counters in src/fw_iptables.c.
use nodogsplash.Prelude.{
  Bool-cases, List, [], ap, arith, inl, inr, length, none, refl, subst, suc, sym, ℕ, ◌&&◌, ◌+◌,
  ◌==◌, ◌∙◌, ◌∷◌, ◌≡◌, ◌≤◌,
}
use nodogsplash.CString.{CString, str_eq}
use nodogsplash.Client.{Client}
use nodogsplash.ClientList.{find_client, update_node}
use nodogsplash.ClientList.Members.{IsMember}
use nodogsplash.ClientList.Shape.{Ascending, DistinctPairs, IsWellFormed}
use nodogsplash.World.{World}

pub record Grown (c d : Client) : Type 0 where
  pub node : d.node ≡ c.node
  pub id : d.id ≡ c.id
  pub mac : d.mac ≡ c.mac
  pub ip : d.ip ≡ c.ip
  pub token : d.token ≡ c.token
  pub state : d.fw_connection_state ≡ c.fw_connection_state
  pub session_end : d.session_end ≡ c.session_end
  pub incoming : c.counters.incoming ≤ d.counters.incoming
  pub outgoing : c.counters.outgoing ≤ d.counters.outgoing

-- The two lists agree client by client.
pub data ListGrown : List Client → List Client → Type 0 where
  none_left : ListGrown [] []
  one_more :
      (c d : Client) (cs ds : List Client)
      → Grown c d
      → ListGrown cs ds
      → ListGrown (c ∷ cs) (d ∷ ds)

pub record WorldGrown (w w' : World) : Type 0 where
  pub list : ListGrown w.clients w'.clients
  pub count : w'.client_count ≡ w.client_count
  pub next_id : w'.client_id ≡ w.client_id
  pub next_node : w'.next_node ≡ w.next_node
  pub config : w'.config ≡ w.config
  pub marks : w'.marks ≡ w.marks
  pub commands : w'.commands ≡ w.commands

Grown-refl : (c : Client) → Grown c c
Grown-refl c = record {
  node = refl;
  id = refl;
  mac = refl;
  ip = refl;
  token = refl;
  state = refl;
  session_end = refl;
  incoming = omega arith;
  outgoing = omega arith;
}

Grown-trans : (a b c : Client) → Grown a b → Grown b c → Grown a c
Grown-trans a b c p q = record {
  node = q.node ∙ p.node;
  id = q.id ∙ p.id;
  mac = q.mac ∙ p.mac;
  ip = q.ip ∙ p.ip;
  token = q.token ∙ p.token;
  state = q.state ∙ p.state;
  session_end = q.session_end ∙ p.session_end;
  incoming = omega (arith, p.incoming, q.incoming);
  outgoing = omega (arith, p.outgoing, q.outgoing);
}

list_refl : (cs : List Client) → ListGrown cs cs
list_refl [] = none_left
list_refl (c ∷ cs) = one_more c c cs cs (Grown-refl c) (list_refl cs)

list_trans : (xs ys zs : List Client) → ListGrown xs ys → ListGrown ys zs → ListGrown xs zs
list_trans xs ys zs none_left none_left = none_left
list_trans xs ys zs (one_more a b as' bs p ps) (one_more b' c bs' cs q qs) =
    one_more a c as' cs (Grown-trans a b c p q) (list_trans as' bs cs ps qs)

pub world_refl : (w : World) → WorldGrown w w
world_refl w = record {
  list = list_refl w.clients;
  count = refl;
  next_id = refl;
  next_node = refl;
  config = refl;
  marks = refl;
  commands = refl;
}

pub world_trans : (u v w : World) → WorldGrown u v → WorldGrown v w → WorldGrown u w
world_trans u v w p q = record {
  list = list_trans u.clients v.clients w.clients p.list q.list;
  count = q.count ∙ p.count;
  next_id = q.next_id ∙ p.next_id;
  next_node = q.next_node ∙ p.next_node;
  config = q.config ∙ p.config;
  marks = q.marks ∙ p.marks;
  commands = q.commands ∙ p.commands;
}

-- A write to one client that the list holds.
pub list_update :
    (f : Client → Client) (cs : List Client) (c : Client)
    → Grown c (f c)
    → IsMember c cs
    → ListGrown cs (update_node c.node f cs)
unfolding find_client update_node
list_update f [] c g m = none_left
list_update f (x ∷ xs) c g m = elim (Bool-cases (x.node == c.node)) [
  | inl hit ↦
      let same : x ≡ c = ground (arith, hit, m) in
      rw hit (one_more x (f x) xs xs (subst (λ k. Grown k (f k)) (sym same) g) (list_refl xs))
  | inr miss ↦
      rw miss (one_more x x xs _ (Grown-refl x) (list_update f xs c g (ground (arith, miss, m))))
]

-- A world with grown counters is as well formed as it was.
list_length : (cs ds : List Client) → ListGrown cs ds → length ds ≡ length cs
list_length cs ds none_left = refl
list_length cs ds (one_more c d cs' ds' p ps) = ap suc (list_length cs' ds' ps)

Ascending-Grown :
    (f : Client → ℕ) (lo hi : ℕ) (cs ds : List Client)
    → ((c d : Client) → Grown c d → f d ≡ f c)
    → ListGrown cs ds
    → Ascending f lo hi cs
    → Ascending f lo hi ds
Ascending-Grown f lo hi cs ds same none_left h = h
Ascending-Grown f lo hi cs ds same (one_more c d cs' ds' p ps) h =
    ground (arith, same c d p, h, Ascending-Grown f (f c + 1) hi cs' ds' same ps h.1)

find_pair-grown :
    (mac ip : CString) (cs ds : List Client)
    → ListGrown cs ds
    → find_client (λ x. str_eq x.mac mac && str_eq x.ip ip) cs ≡ none
    → find_client (λ x. str_eq x.mac mac && str_eq x.ip ip) ds ≡ none
unfolding find_client
find_pair-grown mac ip cs ds none_left e = refl
find_pair-grown mac ip cs ds (one_more c d cs' ds' p ps) e =
    ground (arith, e, p.mac, p.ip, find_pair-grown mac ip cs' ds' ps)

DistinctPairs-grown : (cs ds : List Client) → ListGrown cs ds → DistinctPairs cs → DistinctPairs ds
DistinctPairs-grown cs ds none_left h = tt
DistinctPairs-grown cs ds (one_more c d cs' ds' p ps) h = (
  ground (arith, p.mac, p.ip, find_pair-grown c.mac c.ip cs' ds' ps h.0),
  DistinctPairs-grown cs' ds' ps h.1,
)

pub grown-IsWellFormed : (w v : World) → WorldGrown w v → IsWellFormed w → IsWellFormed v
grown-IsWellFormed w v g h = record {
  counted = g.count ∙ (h.counted ∙ sym (list_length w.clients v.clients g.list));
  bounded = ground (arith, g.count, g.config, h.bounded);
  small = ground (arith, g.count, h.small);
  ids = ground (
    arith,
    g.next_id,
    Ascending-Grown (λ c. c.id) 1 w.client_id w.clients v.clients (λ c d p. p.id) g.list h.ids,
  );
  nodes = ground (
    arith,
    g.next_node,
    Ascending-Grown (λ c. c.node) 0 w.next_node w.clients v.clients (λ c d p. p.node) g.list
        h.nodes,
  );
  pairs = DistinctPairs-grown w.clients v.clients g.list h.pairs;
}
