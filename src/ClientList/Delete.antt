-- ===== src/ClientList/Delete.antt =====
-- client_list_delete, client_list_init and client_list_flush of src/client_list.c.
use nodogsplash.Prelude.{
  Bool-cases, List, [], arith, if◌then◌else◌, inl, inr, none, refl, some, ℕ, ◌+◌, ◌==◌, ◌∷◌, ◌≡◌,
}
use nodogsplash.Client.{Client}
use nodogsplash.ClientList.{
  client_list_delete, client_list_find_by_id, client_list_flush, find_client, has_node, unlink_node,
}
use nodogsplash.ClientList.Search.{has_node_of_find}
use nodogsplash.ClientList.Shape.{
  Ascending, Ascending-unlink, DistinctPairs-unlink, IsWellFormed, find-below, find-in_range,
  length-unlink,
}
use nodogsplash.World.{World}

-- Deleting a node keeps the list sound, whether or not the node is on it.
pub delete-IsWellFormed :
    (w : World) (node : ℕ) → IsWellFormed w → IsWellFormed (client_list_delete w node)
unfolding client_list_delete
delete-IsWellFormed w node h = elim (Bool-cases (has_node node w.clients)) [
  | inl there ↦ rw there (record {
    counted = ground (arith, length-unlink node w.clients, h.counted, there);
    bounded = omega (arith, h.bounded);
    small = omega (arith, h.small);
    ids = Ascending-unlink (λ c. c.id) node 1 w.client_id w.clients h.ids;
    nodes = Ascending-unlink (λ c. c.node) node 0 w.next_node w.clients h.nodes;
    pairs = DistinctPairs-unlink node w.clients h.pairs;
  })
  | inr absent ↦ rw absent h
]

-- Unlinking a node from a list with ascending nodes and identifiers.
find_id-unlink :
    (cs : List Client) (c : Client) (id lo hi lo' hi' : ℕ)
    → Ascending (λ d. d.id) lo hi cs
    → Ascending (λ d. d.node) lo' hi' cs
    → find_client (λ d. d.id == c.id) cs ≡ some c
    → find_client (λ d. d.id == id) (unlink_node c.node cs)
      ≡ (if c.id == id then none else find_client (λ d. d.id == id) cs)
unfolding find_client unlink_node
find_id-unlink [] c id lo hi lo' hi' asc nodes e = cc
find_id-unlink (x ∷ xs) c id lo hi lo' hi' asc nodes e = elim (Bool-cases (x.id == c.id)) [
  | inl hit ↦ ground (arith, e, find-below (λ d. d.id) id (x.id + 1) hi xs)
  | inr miss ↦ ground (
    arith,
    find-in_range (λ d. d.node) (λ d. d.id == c.id) (x.node + 1) hi' xs c (ground (arith, e, miss))
        nodes.1,
    find_id-unlink xs c id (x.id + 1) hi (x.node + 1) hi' asc.1 nodes.1 (ground (arith, e, miss)),
    e,
    miss,
  )
]

-- On a sound list, deleting the client that a search by identifier found removes exactly it:
-- afterwards its identifier is not found, and every other identifier finds what it found before.
pub find_by_id-delete :
    (w : World) (c : Client) (id : ℕ)
    → IsWellFormed w
    → client_list_find_by_id w c.id ≡ some c
    → client_list_find_by_id (client_list_delete w c.node) id
      ≡ (if c.id == id then none else client_list_find_by_id w id)
unfolding client_list_delete
find_by_id-delete w c id h e = ground (
  arith,
  has_node_of_find (λ d. d.id == c.id) w.clients c e,
  find_id-unlink w.clients c id 1 w.client_id 0 w.next_node h.ids h.nodes e,
)

-- Flushing a sound list leaves a sound and empty one.
pub flush-IsWellFormed :
    (w : World)
    → IsWellFormed w
    → IsWellFormed (client_list_flush w) × ((client_list_flush w).clients ≡ [])
unfolding client_list_flush
flush-IsWellFormed w h = elim (Bool-cases (w.client_count == 0)) [
  | inl empty ↦ rw empty (h, ground (arith, h.counted))
  | inr some_left ↦ rw some_left (
    record {
      counted = refl;
      bounded = omega arith;
      small = omega arith;
      ids = omega arith;
      nodes = omega arith;
      pairs = tt;
    },
    refl,
  )
]
