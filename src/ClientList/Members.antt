-- ===== src/ClientList/Members.antt =====
-- What the searches find after a write to, or the removal of, a node of the list. A client is on the
-- list if the node that it names is found there and holds it.
use nodogsplash.Prelude.{
  Bool, Bool-cases, List, [], arith, false, if◌then◌else◌, inl, inr, map, none, refl, some, true, ℕ,
  ◌&&◌, ◌+◌, ◌==◌, ◌||◌, ◌∷◌, ◌≡◌,
}
use nodogsplash.CString.{CString, str_eq, str_eq_refl, str_eq_comm}
use nodogsplash.Client.{Client}
use nodogsplash.ClientList.{
  client_list_find_by_any, find_client, has_node, or_else_find, unlink_node, update_node,
}
use nodogsplash.ClientList.Search.{has_node_of_find}
use nodogsplash.ClientList.Shape.{Ascending, DistinctPairs, IsWellFormed, find-in_range}
use nodogsplash.World.{World}

abbrev pub IsMember : Client → List Client → Type 0
IsMember c cs = find_client (λ d. d.node == c.node) cs ≡ some c

pub not_found-test :
    (test : Client → Bool) (cs : List Client) (c : Client)
    → find_client test cs ≡ none
    → IsMember c cs
    → test c ≡ false
unfolding find_client
not_found-test test [] c e m = cc
not_found-test test (x ∷ xs) c e m = elim (Bool-cases (test x)) [
  | inl hit ↦ absurd (ground (arith, hit, e))
  | inr miss ↦ ground (arith, miss, not_found-test test xs c, e, m)
]

pub IsMember-find :
    (test : Client → Bool) (lo hi : ℕ) (cs : List Client) (c : Client)
    → Ascending (λ d. d.node) lo hi cs
    → find_client test cs ≡ some c
    → IsMember c cs
unfolding find_client
IsMember-find test lo hi [] c asc e = cc
IsMember-find test lo hi (x ∷ xs) c asc e = elim (Bool-cases (test x)) [
  | inl hit ↦ ground (arith, hit, e)
  | inr miss ↦
      let found : find_client test xs ≡ some c = ground (arith, miss, e) in
      ground (
        arith,
        IsMember-find test (x.node + 1) hi xs c asc.1 found,
        find-in_range (λ d. d.node) test (x.node + 1) hi xs c found asc.1,
      )
]

-- The pair of addresses of a client on the list finds it.
pub find_pair-IsMember :
    (cs : List Client) (c : Client)
    → DistinctPairs cs
    → IsMember c cs
    → find_client (λ d. str_eq d.mac c.mac && str_eq d.ip c.ip) cs ≡ some c
unfolding find_client
find_pair-IsMember [] c p m = cc
find_pair-IsMember (x ∷ xs) c p m = elim (Bool-cases (x.node == c.node)) [
  | inl hit ↦ ground (arith, hit, m, str_eq_refl c.mac, str_eq_refl c.ip)
  | inr miss ↦
      let rest : IsMember c xs = ground (arith, miss, m) in
      ground (
        arith,
        not_found-test (λ d. str_eq d.mac x.mac && str_eq d.ip x.ip) xs c p.0 rest,
        find_pair-IsMember xs c p.1 rest,
        str_eq_comm x.mac c.mac,
        str_eq_comm x.ip c.ip,
      )
]

-- A write to a client on the list that does not change the outcome of a test.
pub find-update :
    (test : Client → Bool) (f : Client → Client) (cs : List Client) (c : Client)
    → test (f c) ≡ test c
    → (test c ≡ true → find_client test cs ≡ some c)
    → IsMember c cs
    → find_client test (update_node c.node f cs)
      ≡ (if test c then some (f c) else find_client test cs)
unfolding find_client update_node
find-update test f [] c same first m = cc
find-update test f (x ∷ xs) c same first m = elim (Bool-cases (x.node == c.node)) [
  | inl hit ↦ ground (arith, hit, m, same)
  | inr miss ↦ elim (Bool-cases (test x)) [
    | inl tx ↦ ground (arith, miss, tx, first)
    | inr fx ↦ ground (
      arith,
      miss,
      fx,
      first,
      find-update test f xs c same (λ t. ground (arith, first t, fx)) (ground (arith, miss, m)),
    )
  ]
]

-- Removing a client on the list that fails a test.
pub find-unlink_ne :
    (test : Client → Bool) (cs : List Client) (c : Client)
    → test c ≡ false
    → IsMember c cs
    → find_client test (unlink_node c.node cs) ≡ find_client test cs
unfolding find_client unlink_node
find-unlink_ne test [] c fails m = cc
find-unlink_ne test (x ∷ xs) c fails m = elim (Bool-cases (x.node == c.node)) [
  | inl hit ↦ ground (arith, hit, m, fails)
  | inr miss ↦ ground (arith, miss, m, find-unlink_ne test xs c fails)
]

-- Once a client on the list is removed, its pair of addresses is not found.
pub find_pair-unlink_self :
    (cs : List Client) (c : Client)
    → DistinctPairs cs
    → IsMember c cs
    → find_client (λ d. str_eq d.mac c.mac && str_eq d.ip c.ip) (unlink_node c.node cs) ≡ none
unfolding find_client unlink_node
find_pair-unlink_self [] c p m = cc
find_pair-unlink_self (x ∷ xs) c p m = elim (Bool-cases (x.node == c.node)) [
  | inl hit ↦ ground (arith, hit, m, p.0)
  | inr miss ↦
      let rest : IsMember c xs = ground (arith, miss, m) in
      ground (
        arith,
        miss,
        not_found-test (λ d. str_eq d.mac x.mac && str_eq d.ip x.ip) xs c p.0 rest,
        find_pair-unlink_self xs c p.1 rest,
        str_eq_comm x.mac c.mac,
        str_eq_comm x.ip c.ip,
      )
]

pub has_node-IsMember : (cs : List Client) (c : Client) → IsMember c cs → has_node c.node cs ≡ true
has_node-IsMember cs c m = has_node_of_find (λ d. d.node == c.node) cs c m

-- Two writes to one node are one.
pub update-update :
    (node : ℕ) (f g : Client → Client) (cs : List Client)
    → ((c : Client) → (f c).node ≡ c.node)
    → update_node node g (update_node node f cs) ≡ update_node node (λ c. g (f c)) cs
unfolding update_node
update-update node f g [] same = refl
update-update node f g (x ∷ xs) same = ground (arith, same x, update-update node f g xs same)

-- Identifiers of a list.
unfoldable pub has_id : ℕ → List ℕ → Bool
has_id id [] = false
has_id id (i ∷ ids) = i == id || has_id id ids

pub has_id-map :
    (cs : List Client) (c : Client) (id : ℕ)
    → find_client (λ d. d.id == id) cs ≡ some c
    → has_id id (map (λ d. d.id) cs) ≡ true
unfolding find_client has_id
has_id-map [] c id e = cc
has_id-map (x ∷ xs) c id e = ground (arith, has_id-map xs c id)

-- The identifier of a client on the list finds it.
pub find_id-IsMember :
    (lo hi : ℕ) (cs : List Client) (c : Client)
    → Ascending (λ d. d.id) lo hi cs
    → IsMember c cs
    → find_client (λ d. d.id == c.id) cs ≡ some c
unfolding find_client
find_id-IsMember lo hi [] c asc m = cc
find_id-IsMember lo hi (x ∷ xs) c asc m = elim (Bool-cases (x.node == c.node)) [
  | inl hit ↦ ground (arith, hit, m)
  | inr miss ↦
      let rest : IsMember c xs = ground (arith, miss, m) in
      ground (
        arith,
        find_id-IsMember (x.id + 1) hi xs c asc.1 rest,
        find-in_range (λ d. d.id) (λ d. d.node == c.node) (x.id + 1) hi xs c rest asc.1,
      )
]

-- A client found by any of the three keys is on the list, with an identifier that finds it.
pub any-IsMember :
    (w : World) (mac ip token : CString) (c : Client)
    → IsWellFormed w
    → client_list_find_by_any w (some mac) (some ip) (some token) ≡ some c
    → IsMember c w.clients
unfolding client_list_find_by_any or_else_find
any-IsMember w mac ip token c h e = ground (
  arith,
  e,
  IsMember-find (λ d. str_eq d.token token) 0 w.next_node w.clients c h.nodes,
  IsMember-find (λ d. str_eq d.ip ip) 0 w.next_node w.clients c h.nodes,
  IsMember-find (λ d. str_eq d.mac mac) 0 w.next_node w.clients c h.nodes,
)
