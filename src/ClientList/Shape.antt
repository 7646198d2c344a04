-- ===== src/ClientList/Shape.antt =====
-- The shape of a sound client list of src/client_list.c: the invariant of its operations.
use nodogsplash.Prelude.{
  Bool, Bool-cases, List, [], arith, if◌then◌else◌, inl, inr, length, none, refl, some, suc, true,
  ℕ, ◌&&◌, ◌++◌, ◌+◌, ◌-◌, ◌<◌, ◌==◌, ◌^◌, ◌∙◌, ◌∷◌, ◌≡◌, ◌≤◌,
}
use nodogsplash.CString.{str_eq, str_eq_comm}
use nodogsplash.Client.{Client}
use nodogsplash.ClientList.{find_client, has_node, unlink_node, update_node}
use nodogsplash.ClientList.Search.{
  find_client-append_none, find_client-unlink_none, find_client-update_none,
}
use nodogsplash.World.{World}

-- The keys grow along the list, from `lo` on and below `hi`.
abbrev pub Ascending : (Client → ℕ) → ℕ → ℕ → List Client → Type 0
Ascending key lo hi [] = lo ≤ hi
Ascending key lo hi (c ∷ cs) = (lo ≤ key c) × Ascending key (key c + 1) hi cs

-- No two clients have both the same MAC address and the same IP address.
abbrev pub DistinctPairs : List Client → Type 0
DistinctPairs [] = Unit
DistinctPairs (c ∷ cs) =
    (find_client (λ d. str_eq d.mac c.mac && str_eq d.ip c.ip) cs ≡ none) × DistinctPairs cs

-- The counter is the length, which the limit bounds; identifiers and nodes are used once, and
-- those not yet given out are free; the addresses are pairwise distinct.
pub record IsWellFormed (w : World) : Type 0 where
  pub counted : w.client_count ≡ length w.clients
  pub bounded : w.client_count ≤ w.config.maxclients
  pub small : w.client_count < 2 ^ 31
  pub ids : Ascending (λ c. c.id) 1 w.client_id w.clients
  pub nodes : Ascending (λ c. c.node) 0 w.next_node w.clients
  pub pairs : DistinctPairs w.clients

pub Ascending-le :
    (key : Client → ℕ) (lo hi : ℕ) (cs : List Client) → Ascending key lo hi cs → lo ≤ hi
Ascending-le key lo hi [] h = h
Ascending-le key lo hi (c ∷ cs) h = omega (arith, Ascending-le key (key c + 1) hi cs h.1)

pub Ascending-weaken :
    (key : Client → ℕ) (lo lo' hi : ℕ) (cs : List Client)
    → lo' ≤ lo
    → Ascending key lo hi cs
    → Ascending key lo' hi cs
Ascending-weaken key lo lo' hi [] k h = omega arith
Ascending-weaken key lo lo' hi (c ∷ cs) k h = (omega (arith, h.0), h.1)

pub Ascending-append :
    (key : Client → ℕ) (lo hi : ℕ) (cs : List Client) (c : Client)
    → key c ≡ hi
    → Ascending key lo hi cs
    → Ascending key lo (suc hi) (cs ++ c ∷ [])
Ascending-append key lo hi [] c e h = (omega arith, omega arith)
Ascending-append key lo hi (x ∷ xs) c e h = (h.0, Ascending-append key (key x + 1) hi xs c e h.1)

pub Ascending-unlink :
    (key : Client → ℕ) (node lo hi : ℕ) (cs : List Client)
    → Ascending key lo hi cs
    → Ascending key lo hi (unlink_node node cs)
unfolding unlink_node
Ascending-unlink key node lo hi [] h = h
Ascending-unlink key node lo hi (x ∷ xs) h = elim (Bool-cases (x.node == node)) [
  | inl hit ↦ rw hit (Ascending-weaken key (key x + 1) lo hi xs (omega (arith, h.0)) h.1)
  | inr miss ↦ rw miss (h.0, Ascending-unlink key node (key x + 1) hi xs h.1)
]

pub Ascending-update :
    (key : Client → ℕ) (node lo hi : ℕ) (f : Client → Client) (cs : List Client)
    → ((c : Client) → key (f c) ≡ key c)
    → Ascending key lo hi cs
    → Ascending key lo hi (update_node node f cs)
unfolding update_node
Ascending-update key node lo hi f [] same h = h
Ascending-update key node lo hi f (x ∷ xs) same h = elim (Bool-cases (x.node == node)) [
  | inl hit ↦ rw (hit, same x) (h.0, h.1)
  | inr miss ↦ rw miss (h.0, Ascending-update key node (key x + 1) hi f xs same h.1)
]

-- A key below the range is no key of the list.
pub find-below :
    (key : Client → ℕ) (n lo hi : ℕ) (cs : List Client)
    → n < lo
    → Ascending key lo hi cs
    → find_client (λ c. key c == n) cs ≡ none
unfolding find_client
find-below key n lo hi [] k h = refl
find-below key n lo hi (x ∷ xs) k h =
    ground (arith, find-below key n (key x + 1) hi xs (omega (arith, h.0)) h.1, h.0)

pub find-above :
    (key : Client → ℕ) (n lo hi : ℕ) (cs : List Client)
    → hi ≤ n
    → Ascending key lo hi cs
    → find_client (λ c. key c == n) cs ≡ none
unfolding find_client
find-above key n lo hi [] k h = refl
find-above key n lo hi (x ∷ xs) k h =
    ground (arith, find-above key n (key x + 1) hi xs k h.1, Ascending-le key (key x + 1) hi xs h.1)

pub length-unlink :
    (node : ℕ) (cs : List Client)
    → length (unlink_node node cs) ≡ (if has_node node cs then length cs - 1 else length cs)
unfolding unlink_node has_node
length-unlink node [] = refl
length-unlink node (x ∷ xs) = elim (Bool-cases (has_node node xs)) [
  | inl there ↦ ground (arith, length-unlink node xs, has_node-pos node xs there)
  | inr absent ↦ ground (arith, length-unlink node xs)
]
  where
    has_node-pos : (n : ℕ) (ys : List Client) → has_node n ys ≡ true → 0 < length ys
    has_node-pos n [] h = cc
    has_node-pos n (y ∷ ys) h = omega arith

pub length-update :
    (node : ℕ) (f : Client → Client) (cs : List Client) → length (update_node node f cs) ≡ length cs
unfolding update_node
length-update node f [] = refl
length-update node f (x ∷ xs) = ground (arith, length-update node f xs)

pub DistinctPairs-unlink :
    (node : ℕ) (cs : List Client) → DistinctPairs cs → DistinctPairs (unlink_node node cs)
unfolding unlink_node
DistinctPairs-unlink node [] h = tt
DistinctPairs-unlink node (x ∷ xs) h = elim (Bool-cases (x.node == node)) [
  | inl hit ↦ rw hit h.1
  | inr miss ↦ rw miss (find_client-unlink_none _ node xs h.0, DistinctPairs-unlink node xs h.1)
]

pub DistinctPairs-update :
    (node : ℕ) (f : Client → Client) (cs : List Client)
    → ((c : Client) → ((f c).mac ≡ c.mac) × ((f c).ip ≡ c.ip))
    → DistinctPairs cs
    → DistinctPairs (update_node node f cs)
unfolding update_node
DistinctPairs-update node f [] same h = tt
DistinctPairs-update node f (x ∷ xs) same h = elim (Bool-cases (x.node == node)) [
  | inl hit ↦ rw (hit, (same x).0, (same x).1) h
  | inr miss ↦ rw miss (
    find_client-update_none _ node f xs (λ c. rw ((same c).0, (same c).1)) h.0,
    DistinctPairs-update node f xs same h.1,
  )
]

-- A new client at the end whose addresses the list does not hold.
pub DistinctPairs-append :
    (cs : List Client) (c : Client)
    → find_client (λ d. str_eq d.mac c.mac && str_eq d.ip c.ip) cs ≡ none
    → DistinctPairs cs
    → DistinctPairs (cs ++ c ∷ [])
unfolding find_client
DistinctPairs-append [] c e h = (refl, tt)
DistinctPairs-append (x ∷ xs) c e h =
    let differs = str_eq_comm x.mac c.mac in
    let differs' = str_eq_comm x.ip c.ip in
    (
      find_client-append_none _ xs (c ∷ []) h.0 ∙ ground (arith, e, differs, differs'),
      DistinctPairs-append xs c (ground (arith, e)) h.1,
    )

-- What a search finds has its key in the range.
pub find-in_range :
    (key : Client → ℕ) (test : Client → Bool) (lo hi : ℕ) (cs : List Client) (c : Client)
    → find_client test cs ≡ some c
    → Ascending key lo hi cs
    → (lo ≤ key c) × (key c < hi)
unfolding find_client
find-in_range key test lo hi [] c e h = cc
find-in_range key test lo hi (x ∷ xs) c e h =
    ground
      (arith, find-in_range key test (key x + 1) hi xs c, Ascending-le key (key x + 1) hi xs h.1)
