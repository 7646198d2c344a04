-- ===== src/StateFile/Roundtrip.antt =====
-- state_file_export and state_file_import of src/state_file.c on the whole client list.
use nodogsplash.Prelude.{
  All, Bool, List, Option, [], ap, append-nil, append_assoc, arith, false, length, length-append,
  none, refl, some, subst, suc, sym, true, ℕ, ◌&&◌, ◌++◌, ◌+◌, ◌<◌, ◌==◌, ◌^◌, ◌∙◌, ◌∷◌, ◌≡◌, ◌≤◌,
  ◌⊎◌,
}
use nodogsplash.CString.{CString, codes, str_eq, str_eq_comm}
use nodogsplash.Auth.Transitions.{AreDistinct}
use nodogsplash.Client.{Client}
use nodogsplash.ClientList.{find_client, has_node, initial_state}
use nodogsplash.ClientList.Shape.{Ascending, DistinctPairs, IsWellFormed}
use nodogsplash.StateFile.{
  Stat, accessible, export_top, get_field, import_array, import_clients, import_top,
  json_export_version, minus_einval, right_name, right_version, state_file_import,
  state_file_import_client,
}
use nodogsplash.StateFile.Export.{SavedAll, export_top-SavedAll}
use nodogsplash.StateFile.Json.{IsDocumented, JsonC}
use nodogsplash.StateFile.Restore.{IsRestorable, Restored, import_client-Restored}
use nodogsplash.StateFile.Saved.{IsInRange}
use nodogsplash.World.{Env, World}

-- The clients under new nodes, from `n` on.
unfoldable pub renumber : ℕ → List Client → List Client
renumber n [] = []
renumber n (c ∷ cs) = record c { node = n } ∷ renumber (suc n) cs

renumber-append :
    (n m : ℕ) (cs : List Client) (c : Client)
    → m ≡ n + length cs
    → renumber n (cs ++ c ∷ []) ≡ renumber n cs ++ record c { node = m } ∷ []
unfolding renumber
renumber-append n m [] c e = let e' : n ≡ m = omega arith in rw e' refl
renumber-append n m (x ∷ xs) c e =
    ap (λ l. record x { node = n } ∷ l) (renumber-append (suc n) m xs c (omega arith))

has_node-renumber :
    (n m : ℕ) (cs : List Client) → n + length cs ≤ m → has_node m (renumber n cs) ≡ false
unfolding renumber has_node
has_node-renumber n m [] h = refl
has_node-renumber n m (x ∷ xs) h = ground (arith, has_node-renumber (suc n) m xs (omega arith))

-- A search that does not read the nodes.
find-renumber :
    (test : Client → Bool) (n : ℕ) (cs : List Client)
    → ((c : Client) (k : ℕ) → test (record c { node = k }) ≡ test c)
    → find_client test cs ≡ none
    → find_client test (renumber n cs) ≡ none
unfolding renumber find_client
find-renumber test n [] same h = refl
find-renumber test n (x ∷ xs) same h = ground (arith, find-renumber test (suc n) xs same, same x n)

-- In a list without a pair twice, the clients before one do not have its pair.
pair_is_new :
    (front rest : List Client) (c : Client)
    → DistinctPairs (front ++ c ∷ rest)
    → find_client (λ d. str_eq d.mac c.mac && str_eq d.ip c.ip) front ≡ none
unfolding find_client
pair_is_new [] rest c h = refl
pair_is_new (x ∷ xs) rest c h = ground (
  arith,
  pair_is_new xs rest c h.1,
  find_client_absent (λ d. str_eq d.mac x.mac && str_eq d.ip x.ip) xs rest c h.0,
  str_eq_comm x.mac c.mac,
  str_eq_comm x.ip c.ip,
)
  where
    find_client_absent :
        (test : Client → Bool) (xs rest : List Client) (c : Client)
        → find_client test (xs ++ c ∷ rest) ≡ none
        → test c ≡ false
    find_client_absent test [] rest c h = ground arith
    find_client_absent test (x ∷ xs) rest c h = find_client_absent test xs rest c (ground arith)

id_is_new :
    (lo hi : ℕ) (front rest : List Client) (c : Client)
    → Ascending (λ d. d.id) lo hi (front ++ c ∷ rest)
    → (find_client (λ d. d.id == c.id) front ≡ none) × (lo ≤ c.id)
unfolding find_client
id_is_new lo hi [] rest c h = (refl, h.0)
id_is_new lo hi (x ∷ xs) rest c h = ground (arith, id_is_new (x.id + 1) hi xs rest c h.1, h.0)

-- What the import asks of a saved client, given the state of the daemon.
pub record IsAcceptable (env : Env) (w : World) (c : Client) : Type 0 where
  pub range : IsInRange c
  pub good_mac : env.valid_mac c.mac ≡ true
  pub good_ip : env.valid_ip c.ip ≡ true
  pub unlisted : initial_state w c.mac ≡ w.marks.preauthenticated
  pub reachable :
      (c.fw_connection_state ≡ w.marks.preauthenticated)
      ⊎ (c.fw_connection_state ≡ w.marks.authenticated)

-- The state `w` after the clients of `front` were imported into `w0`.
record HasImported (w0 w : World) (front : List Client) : Type 0 where
  clients : w.clients ≡ renumber w0.next_node front
  config : w.config ≡ w0.config
  marks : w.marks ≡ w0.marks
  count : w.client_count ≡ length front
  nodes : w.next_node ≡ w0.next_node + length front

initial_state_same :
    (w w0 : World) (mac : CString)
    → w.config ≡ w0.config
    → w.marks ≡ w0.marks
    → initial_state w mac ≡ initial_state w0 mac
unfolding initial_state
initial_state_same w w0 mac e d = cc

HasImported-next :
    (w0 w w' : World) (front : List Client) (c : Client)
    → HasImported w0 w front
    → Restored w w' c
    → HasImported w0 w' (front ++ c ∷ [])
HasImported-next w0 w w' front c p r = record {
  clients =
      r.clients
      ∙ ap (λ l. l ++ record c { node = w.next_node } ∷ []) p.clients
      ∙ sym (renumber-append w0.next_node w.next_node front c p.nodes);
  config = r.config ∙ p.config;
  marks = r.marks ∙ p.marks;
  count = omega (arith, r.count, p.count, length-append front (c ∷ []));
  nodes = omega (arith, r.next_node, p.nodes, length-append front (c ∷ []));
}

next-IsRestorable :
    (env : Env) (w0 w : World) (front rest : List Client) (c : Client) (hi : ℕ)
    → HasImported w0 w front
    → IsAcceptable env w0 c
    → DistinctPairs (front ++ c ∷ rest)
    → Ascending (λ d. d.id) 1 hi (front ++ c ∷ rest)
    → length (front ++ c ∷ rest) ≤ w0.config.maxclients
    → w0.config.maxclients < 2 ^ 31
    → IsRestorable env w c
next-IsRestorable env w0 w front rest c hi p a pairs ids room small = record {
  addable = record {
    new_pair =
        ap (find_client (λ d. str_eq d.mac c.mac && str_eq d.ip c.ip)) p.clients
        ∙ find-renumber _ w0.next_node front (λ d k. refl) (pair_is_new front rest c pairs);
    good_mac = a.good_mac;
    good_ip = a.good_ip;
    room = ground (arith, p.count, p.config, length-append front (c ∷ rest));
  };
  new_id =
      ap (find_client (λ d. d.id == c.id)) p.clients
      ∙ find-renumber _ w0.next_node front (λ d k. refl) (id_is_new 1 hi front rest c ids).0;
  fresh =
      ap (has_node w.next_node) p.clients
      ∙ has_node-renumber w0.next_node w.next_node front (omega (arith, p.nodes));
  unlisted =
      initial_state_same w w0 c.mac p.config p.marks
      ∙ a.unlisted
      ∙ ap (λ m. m.preauthenticated) (sym p.marks);
  reachable = rw p.marks a.reachable;
}

module _ (J : JsonC) (env : Env) (w0 : World) (distinct : AreDistinct w0.marks)
    (small : w0.config.maxclients < 2 ^ 31) where
  import_rest :
      (rest : List Client) (l : List J.Json) (front : List Client) (w : World) (rc hi : ℕ)
      → HasImported w0 w front
      → SavedAll J l rest
      → All (IsAcceptable env w0) rest
      → DistinctPairs (front ++ rest)
      → Ascending (λ d. d.id) 1 hi (front ++ rest)
      → length (front ++ rest) ≤ w0.config.maxclients
      → ((import_clients J env w rc l).1 ≡ 0)
        × ((import_clients J env w rc l).0.clients ≡ renumber w0.next_node (front ++ rest))
  unfolding import_clients
  import_rest [] [] front w rc hi p s a pairs ids room =
      (refl, p.clients ∙ ap (renumber w0.next_node) (sym (append-nil front)))
  import_rest [] (cli ∷ l) front w rc hi p s a pairs ids room = absurd s
  import_rest (c ∷ rest) [] front w rc hi p s a pairs ids room = absurd s
  import_rest (c ∷ rest) (cli ∷ l) front w rc hi p s a pairs ids room =
      let ((counters, saved), more) = s in
      let (rc_zero, r) =
        import_client-Restored J env cli counters c saved w a.0.range (rw p.marks distinct)
          (next-IsRestorable env w0 w front rest c hi p a.0 pairs ids room small) in
      let again = sym (append_assoc front (c ∷ []) rest) in
      let ih =
        import_rest rest l (front ++ c ∷ []) (state_file_import_client J env w cli).0 0 hi
          (HasImported-next w0 w _ front c p r) more a.1 (subst DistinctPairs again pairs)
          (subst (Ascending (λ d. d.id) 1 hi) again ids)
          (subst (λ k. length k ≤ w0.config.maxclients) again room) in
      rw saved.an_object (rw rc_zero (rw again ih))

version_passes :
    (J : JsonC) (top : J.Json)
    → get_field J top (codes "version") J.is_int J.get_int64 ≡ some json_export_version
    → right_version J top ≡ true
unfolding right_version
version_passes J top e = rw (right_version, e) refl

name_passes :
    (J : JsonC) (top : J.Json)
    → get_field J top (codes "name") J.is_string J.get_string ≡ some (codes "nodogsplash")
    → right_name J top ≡ true
unfolding right_name str_eq
name_passes J top e = rw (right_name, e) refl

top_is_imported :
    (J : JsonC) (env : Env) (w : World) (top a : J.Json)
    → get_field J top (codes "version") J.is_int J.get_int64 ≡ some json_export_version
    → get_field J top (codes "name") J.is_string J.get_string ≡ some (codes "nodogsplash")
    → get_field J top (codes "clients") J.is_array (λ v. v) ≡ some a
    → import_top J env w (some top) ≡ import_clients J env w minus_einval (J.items a)
unfolding import_top import_array
top_is_imported J env w top a version name listed =
    rw (import_top, version_passes J top version)
      (rw (import_top, name_passes J top name) (rw listed refl))

file_is_read :
    (J : JsonC) (env : Env) (w : World) (path : CString) (stat : CString → Stat)
    (from_file : CString → Option J.Json)
    → stat path ≡ accessible
    → state_file_import J stat from_file env w path ≡ import_top J env w (from_file path)
unfolding state_file_import
file_is_read J env w path stat from_file there = rw (state_file_import, there) refl

-- A daemon that starts with an empty list, the same marks and MAC lists that name none of the saved
-- clients, and that reads the file which another wrote, ends with result 0 and the same clients in
-- the same order, with all their fields but the node. The other list is well-formed and fits the
-- limit, its fields are in the range of their types, and its clients are preauthenticated or
-- authenticated, with addresses of the right format.
pub state_file_roundtrip :
    (J : JsonC) (env : Env) (old w : World) (path : CString) (top : J.Json) (stat : CString → Stat)
    (from_file : CString → Option J.Json)
    → IsDocumented J
    → IsWellFormed old
    → All (IsAcceptable env w) old.clients
    → AreDistinct w.marks
    → w.clients ≡ []
    → w.client_count ≡ 0
    → old.client_count ≤ w.config.maxclients
    → w.config.maxclients < 2 ^ 31
    → export_top J old.clients ≡ some top
    → stat path ≡ accessible
    → from_file path ≡ some top
    → ((state_file_import J stat from_file env w path).1 ≡ 0)
      × ((state_file_import J stat from_file env w path).0.clients
          ≡ renumber w.next_node old.clients)
unfolding renumber
state_file_roundtrip J env old w path top stat from_file doc old_ok ok distinct list_is_empty
      no_count room small wrote there read =
    let (version, name, (a, listed, saved)) =
      export_top-SavedAll J doc old.clients top (ranges old.clients ok) wrote in
    let begun : HasImported w w [] = record {
      clients = list_is_empty;
      config = refl;
      marks = refl;
      count = no_count;
      nodes = omega arith;
    } in
    let fits : length old.clients ≤ w.config.maxclients = omega (arith, old_ok.counted, room) in
    rw
      (file_is_read J env w path stat from_file there
        ∙ ap (import_top J env w) read
        ∙ top_is_imported J env w top a version name listed)
      (import_rest J env w distinct small old.clients (J.items a) [] w minus_einval old.client_id
        begun saved ok old_ok.pairs old_ok.ids fits)
  where
    ranges : (cs : List Client) → All (IsAcceptable env w) cs → All IsInRange cs
    ranges [] h = tt
    ranges (c ∷ cs) h = (h.0.range, ranges cs h.1)
