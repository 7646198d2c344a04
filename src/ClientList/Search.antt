-- ===== src/ClientList/Search.antt =====
-- Lemmas on the searches of src/client_list.c.
use nodogsplash.Prelude.{
  Bool, Bool-cases, List, [], arith, false, inl, inr, none, refl, some, true, ℕ, ◌++◌, ◌∷◌, ◌≡◌,
}
use nodogsplash.Client.{Client}
use nodogsplash.ClientList.{find_client, has_node, unlink_node, update_node}

-- What a search returns passes its test.
pub find_client_sound :
    (test : Client → Bool) (cs : List Client) (c : Client)
    → find_client test cs ≡ some c
    → test c ≡ true
unfolding find_client
find_client_sound test [] c e = cc
find_client_sound test (x ∷ xs) c e = elim (Bool-cases (test x)) [
  | inl hit ↦ ground (arith, hit)
  | inr miss ↦ find_client_sound test xs c (ground (arith, miss))
]

pub find_client-append_some :
    (test : Client → Bool) (cs ds : List Client) (c : Client)
    → find_client test cs ≡ some c
    → find_client test (cs ++ ds) ≡ some c
unfolding find_client
find_client-append_some test [] ds c e = cc
find_client-append_some test (x ∷ xs) ds c e = ground (arith, find_client-append_some test xs ds c)

pub find_client-append_none :
    (test : Client → Bool) (cs ds : List Client)
    → find_client test cs ≡ none
    → find_client test (cs ++ ds) ≡ find_client test ds
unfolding find_client
find_client-append_none test [] ds e = refl
find_client-append_none test (x ∷ xs) ds e = ground (arith, find_client-append_none test xs ds)

-- An item that fails the test is no find, and is passed over.
pub find_client-cons_false :
    (test : Client → Bool) (c : Client) (cs : List Client)
    → test c ≡ false
    → find_client test (c ∷ cs) ≡ find_client test cs
unfolding find_client
find_client-cons_false test c cs h = ground arith

-- Writing to nodes does not change a search whose test does not read what is written.
pub find_client-update_none :
    (test : Client → Bool) (node : ℕ) (f : Client → Client) (cs : List Client)
    → ((c : Client) → test (f c) ≡ test c)
    → find_client test cs ≡ none
    → find_client test (update_node node f cs) ≡ none
unfolding find_client update_node
find_client-update_none test node f [] same e = refl
find_client-update_none test node f (x ∷ xs) same e =
    ground (arith, find_client-update_none test node f xs same, same x)

pub find_client-unlink_none :
    (test : Client → Bool) (node : ℕ) (cs : List Client)
    → find_client test cs ≡ none
    → find_client test (unlink_node node cs) ≡ none
unfolding find_client unlink_node
find_client-unlink_none test node [] e = refl
find_client-unlink_none test node (x ∷ xs) e = ground (arith, find_client-unlink_none test node xs)

pub has_node_of_find :
    (test : Client → Bool) (cs : List Client) (c : Client)
    → find_client test cs ≡ some c
    → has_node c.node cs ≡ true
unfolding find_client has_node
has_node_of_find test [] c e = cc
has_node_of_find test (x ∷ xs) c e = ground (arith, has_node_of_find test xs c)

-- An item at the end that fails the test is no find.
pub find_client-append_skip :
    (test : Client → Bool) (cs : List Client) (c : Client)
    → test c ≡ false
    → find_client test (cs ++ c ∷ []) ≡ find_client test cs
unfolding find_client
find_client-append_skip test [] c h = ground (arith, h)
find_client-append_skip test (x ∷ xs) c h = ground (arith, find_client-append_skip test xs c h)
