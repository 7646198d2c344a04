-- ===== src/ClientList/Add.antt =====
-- client_list_add_client of src/client_list.c as an insertion into a finite map from the pairs of a
-- MAC and an IP address.
use nodogsplash.Prelude.{
  Bool-cases, Option-cases, [], arith, false, inl, inr, length-append, none, refl, some, ◌&&◌, ◌++◌,
  ◌↔◌, ◌∷◌, ◌≡◌, ◌⊎◌,
}
use nodogsplash.Prelude.Int32.{int_lt}
use nodogsplash.CString.{CString, str_eq, str_eq_refl}
use nodogsplash.Client.{Client}
use nodogsplash.ClientList.{
  add_or_keep, client_list_add_client, client_list_append, client_list_find, find_client,
  initial_state, new_client, reset_inputs,
}
use nodogsplash.ClientList.Search.{find_client-append_none, find_client-append_skip}
use nodogsplash.ClientList.Shape.{Ascending-append, DistinctPairs-append, IsWellFormed}
use nodogsplash.World.{Env, World}

-- The invariant of the new list: the appended client takes the next identifier and node.
append-IsWellFormed :
    (env : Env) (w : World) (mac ip : CString)
    → client_list_find w mac ip ≡ none
    → IsWellFormed w
    → IsWellFormed (client_list_append env w mac ip).0
unfolding client_list_append new_client
append-IsWellFormed env w mac ip e h =
    elim (Bool-cases (int_lt w.client_count w.config.maxclients)) [
      | inr full ↦ rw full h
      | inl room ↦ rw room (record {
        counted = omega (arith, h.counted, length-append w.clients (made ∷ []));
        bounded = ground (arith, room, h.small);
        small = ground (arith, room, h.small);
        ids = Ascending-append (λ c. c.id) 1 w.client_id w.clients made refl h.ids;
        nodes = Ascending-append (λ c. c.node) 0 w.next_node w.clients made refl h.nodes;
        pairs = DistinctPairs-append w.clients made e h.pairs;
      })
    ]
  where
    made : Client
    made =
        new_client (reset_inputs env w).0 mac ip (reset_inputs env w).1 (reset_inputs env w).2
          (reset_inputs env w).3

-- Adding a client keeps the list sound: its counter is its length and within the limit, its
-- identifiers are distinct and all below the next one, and no pair of addresses stands in it twice.
pub add_client-IsWellFormed :
    (env : Env) (w : World) (mac ip : CString)
    → IsWellFormed w
    → IsWellFormed (client_list_add_client env w mac ip).0
unfolding client_list_add_client add_or_keep
add_client-IsWellFormed env w mac ip h = elim (Option-cases (client_list_find w mac ip)) [
  | inl absent ↦ rw absent (ground (arith, append-IsWellFormed env w mac ip absent h))
  | inr (c, found) ↦ rw found (ground arith)
]

-- client_list_add_client returns no client exactly if an address has a wrong format, or the pair of
-- addresses is new and the counter is, as an int, not below the limit.
pub add_client_fails :
    (env : Env) (w : World) (mac ip : CString)
    → ((client_list_add_client env w mac ip).1 ≡ none) ↔ (
        (env.valid_mac mac ≡ false)
        ⊎ ((env.valid_ip ip ≡ false)
            ⊎ ((client_list_find w mac ip ≡ none)
                × (int_lt w.client_count w.config.maxclients ≡ false))))
unfolding client_list_add_client add_or_keep client_list_append
add_client_fails env w mac ip = elim (Option-cases (client_list_find w mac ip)) [
  | inl absent ↦ (λ e. ground (arith, absent), λ e. ground (arith, absent))
  | inr (c, found) ↦ (λ e. ground (arith, found), λ e. ground (arith, found))
]

-- A client that client_list_add_client returns is the one that the new list holds for the pair of
-- addresses.
pub find-add_client :
    (env : Env) (w : World) (mac ip : CString) (c : Client)
    → (client_list_add_client env w mac ip).1 ≡ some c
    → client_list_find (client_list_add_client env w mac ip).0 mac ip ≡ some c
unfolding client_list_add_client add_or_keep client_list_append new_client find_client
find-add_client env w mac ip c e = elim (Option-cases (client_list_find w mac ip)) [
  | inl absent ↦ ground (
    arith,
    absent,
    find_client-append_none (λ d. str_eq d.mac mac && str_eq d.ip ip) w.clients (c ∷ []) absent,
    str_eq_refl mac,
    str_eq_refl ip,
  )
  | inr (d, found) ↦ ground (arith, found)
]

-- For a pair of addresses other than the added one, the new list finds what the old one found.
pub find-add_client_ne :
    (env : Env) (w : World) (mac ip mac' ip' : CString)
    → (str_eq mac mac' && str_eq ip ip') ≡ false
    → client_list_find (client_list_add_client env w mac ip).0 mac' ip'
      ≡ client_list_find w mac' ip'
unfolding client_list_add_client add_or_keep client_list_append new_client find_client
find-add_client_ne env w mac ip mac' ip' ne = elim (Option-cases (client_list_find w mac ip)) [
  | inl absent ↦ ground (
    arith,
    absent,
    find_client-append_skip (λ d. str_eq d.mac mac' && str_eq d.ip ip') w.clients
        (let (w', now, r1, r2) = reset_inputs env w in new_client w' mac ip now r1 r2) ne,
  )
  | inr (d, found) ↦ ground (arith, found)
]

-- After a request that returned a client, a second one for the same pair of addresses changes nothing
-- and returns the same client.
pub add_client_twice :
    (env : Env) (w : World) (mac ip : CString) (c : Client)
    → (client_list_add_client env w mac ip).1 ≡ some c
    → client_list_add_client env (client_list_add_client env w mac ip).0 mac ip
      ≡ ((client_list_add_client env w mac ip).0, some c)
unfolding client_list_add_client add_or_keep
add_client_twice env w mac ip c e =
    ground (arith, find-add_client env w mac ip c e, add_client_fails env w mac ip)

-- The two outcomes for the state: nothing changes, or a client is appended that is blocked, trusted
-- or preauthenticated.
pub record Appended (w w' : World) (c : Client) : Type 0 where
  pub clients : w'.clients ≡ w.clients ++ c ∷ []
  pub commands : w'.commands ≡ w.commands
  pub marks : w'.marks ≡ w.marks
  pub state :
      (c.fw_connection_state ≡ w.marks.blocked)
      ⊎ ((c.fw_connection_state ≡ w.marks.trusted)
          ⊎ (c.fw_connection_state ≡ w.marks.preauthenticated))

append_cases :
    (env : Env) (w : World) (mac ip : CString)
    → ((client_list_append env w mac ip).0 ≡ w)
      ⊎ ((c : Client) × Appended w (client_list_append env w mac ip).0 c)
unfolding client_list_append new_client initial_state
append_cases env w mac ip = elim (Bool-cases (int_lt w.client_count w.config.maxclients)) [
  | inr full ↦ inl (ground (arith, full))
  | inl room ↦ rw room (
      inr (
        new_client (reset_inputs env w).0 mac ip (reset_inputs env w).1 (reset_inputs env w).2
            (reset_inputs env w).3,
        record { clients = refl; commands = refl; marks = refl; state = ground arith },
      ))
]

pub add_client_cases :
    (env : Env) (w : World) (mac ip : CString)
    → ((client_list_add_client env w mac ip).0 ≡ w)
      ⊎ ((c : Client) × Appended w (client_list_add_client env w mac ip).0 c)
unfolding client_list_add_client add_or_keep
add_client_cases env w mac ip = elim (Bool-cases (env.valid_mac mac)) [
  | inr bad ↦ inl (ground (arith, bad))
  | inl good ↦ elim (Bool-cases (env.valid_ip ip)) [
    | inr bad ↦ inl (ground (arith, good, bad))
    | inl fine ↦ elim (Option-cases (client_list_find w mac ip)) [
      | inl absent ↦ rw good (rw fine (rw absent (append_cases env w mac ip)))
      | inr (c, found) ↦ rw good (rw fine (rw found (inl refl)))
    ]
  ]
]

-- The configuration is only read.
pub config-add_client :
    (env : Env) (w : World) (mac ip : CString)
    → (client_list_add_client env w mac ip).0.config ≡ w.config
unfolding client_list_add_client add_or_keep client_list_append reset_inputs
config-add_client env w mac ip = elim (Option-cases (client_list_find w mac ip)) [
  | inl absent ↦ ground (arith, absent)
  | inr (c, found) ↦ ground (arith, found)
]
