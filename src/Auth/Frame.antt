-- ===== src/Auth/Frame.antt =====
-- What the searches of the client list find after a branch of auth_change_state in src/auth.c.
use nodogsplash.Prelude.{
  ==_iff, Bool, Option, ap, arith, false, if◌then◌else◌, inl, inr, refl, some, subst, true, ℕ, ◌&&◌,
  ◌==◌, ◌∙◌, ◌≡◌, ◌⊎◌,
}
use nodogsplash.Prelude.Int32.{minus_one}
use nodogsplash.CString.{CString, str_eq}
use nodogsplash.Auth.{
  auth_change_state, authenticate_branch, block_branch, deauthenticate_branch, set_state,
}
use nodogsplash.Auth.Effects.{
  authenticate_branch_lem, block_branch_lem, deauthenticate_branch_lem, with_blocked,
}
use nodogsplash.Auth.Invariant.{with_blocked-IsWellFormed}
use nodogsplash.Auth.Transitions.{
  Outcome, change_state_cases, locked_out, logged_in, logged_out, refused,
}
use nodogsplash.Client.{Client}
use nodogsplash.ClientList.{
  client_list_delete, client_list_find_by_id, client_reset, find_client, reset_fields, reset_inputs,
  unlink_node,
}
use nodogsplash.ClientList.Delete.{find_by_id-delete}
use nodogsplash.ClientList.Members.{
  IsMember, IsMember-find, find-unlink_ne, find-update, has_node-IsMember, update-update,
}
use nodogsplash.ClientList.Shape.{IsWellFormed}
use nodogsplash.World.{Env, World}

-- The searches by identifier and by addresses, for a test that no branch changes the outcome of.
pub record IsStable (test : Client → Bool) : Type 0 where
  pub of_state : (c : Client) (s : ℕ) → test (record c { fw_connection_state = s }) ≡ test c
  pub of_reset : (c : Client) (now r1 r2 : ℕ) → test (reset_fields c now r1 r2) ≡ test c

pub by_id-IsStable : (i : ℕ) → IsStable (λ c. c.id == i)
unfolding reset_fields
by_id-IsStable i = record { of_state = λ c s. refl; of_reset = λ c now r1 r2. refl }

pub by_pair-IsStable : (mac ip : CString) → IsStable (λ c. str_eq c.mac mac && str_eq c.ip ip)
unfolding reset_fields
by_pair-IsStable mac ip = record { of_state = λ c s. refl; of_reset = λ c now r1 r2. refl }

-- The client as each branch leaves it.
unfoldable pub logged_in_client : World → Client → Client
logged_in_client w c = record c { fw_connection_state = w.marks.authenticated }

unfoldable pub logged_out_client : Env → World → Client → Client
unfolding reset_fields
logged_out_client env w c =
    let (w', now, r1, r2) = reset_inputs env w in
    record (reset_fields c now r1 r2) { fw_connection_state = w.marks.preauthenticated }

module _ (env : Env) (w : World) (c : Client) (reason : Option CString) (test : Client → Bool)
    (stable : IsStable test) (first : test c ≡ true → find_client test w.clients ≡ some c)
    (m : IsMember c w.clients) where
  pub login_find :
      find_client test (authenticate_branch env w c reason).clients
      ≡ (if test c then some (logged_in_client w c) else find_client test w.clients)
  unfolding set_state logged_in_client
  login_find =
      let (history, e) = authenticate_branch_lem env w c reason in
      ap (λ v. find_client test v.clients) e
      ∙ find-update test _ w.clients c (stable.of_state c w.marks.authenticated) first m

  pub logout_find :
      find_client test (deauthenticate_branch env w c reason).clients
      ≡ (if test c then some (logged_out_client env w c) else find_client test w.clients)
  unfolding set_state logged_out_client client_reset
  logout_find =
      let (history, e) = deauthenticate_branch_lem env w c reason in
      let (w', now, r1, r2) = reset_inputs env w in
      ap (λ v. find_client test v.clients) e
      ∙ (ap (find_client test) (
            update-update c.node (λ d. reset_fields d now r1 r2)
              (λ d. record d { fw_connection_state = w.marks.preauthenticated }) w.clients
              (λ d. refl))
          ∙ find-update test _ w.clients c
              (stable.of_state _ w.marks.preauthenticated ∙ stable.of_reset c now r1 r2) first m)

  pub lockout_find :
      test c ≡ false
      → find_client test (block_branch env w c reason).clients ≡ find_client test w.clients
  unfolding client_list_delete
  lockout_find fails =
      let (history, macs, e) = block_branch_lem env w c reason in
      ap (λ v. find_client test v.clients) e
      ∙ rw (has_node-IsMember w.clients c m) (find-unlink_ne test w.clients c fails m)

-- The node of the blocked client is gone.
pub lockout_clients :
    (env : Env) (w : World) (c : Client) (reason : Option CString)
    → IsMember c w.clients
    → (block_branch env w c reason).clients ≡ unlink_node c.node w.clients
unfolding client_list_delete
lockout_clients env w c reason m =
    let (history, macs, e) = block_branch_lem env w c reason in
    ap (λ v. v.clients) e ∙ rw (has_node-IsMember w.clients c m)

Outcome-marks :
    (env : Env) (w : World) (c : Client) (t : ℕ) (reason : Option CString) (r : World × ℕ)
    → Outcome env w c t reason r
    → r.0.marks ≡ w.marks
unfolding set_state client_reset client_list_delete
Outcome-marks env w c t reason r (refused e) = ap (λ x. x.0.marks) e
Outcome-marks env w c t reason r (logged_in p q e) =
    ap (λ x. x.0.marks) e ∙ ap (λ v. v.marks) (authenticate_branch_lem env w c reason).1
Outcome-marks env w c t reason r (logged_out p q e) =
    ap (λ x. x.0.marks) e ∙ ap (λ v. v.marks) (deauthenticate_branch_lem env w c reason).1
Outcome-marks env w c t reason r (locked_out p q e) =
    let (history, macs, k) = block_branch_lem env w c reason in
    ap (λ x. x.0.marks) e ∙ (ap (λ v. v.marks) k ∙ ground arith)

-- No transition changes the marks.
pub marks_kept :
    (env : Env) (w : World) (c : Client) (t : ℕ) (reason : Option CString)
    → (auth_change_state env w c t reason).0.marks ≡ w.marks
marks_kept env w c t reason = Outcome-marks env w c t reason _ (change_state_cases env w c t reason)

-- The change of one client does not show under another identifier, and under its own it shows the
-- old client if the change was refused, and nothing or a client in the new state if not.
module _ (env : Env) (w : World) (c : Client) (t : ℕ) (reason : Option CString) (h : IsWellFormed w)
    (found : client_list_find_by_id w c.id ≡ some c) where
  member : IsMember c w.clients
  member = IsMember-find (λ d. d.id == c.id) 0 w.next_node w.clients c h.nodes found

  first_id : (i : ℕ) → (c.id == i) ≡ true → client_list_find_by_id w i ≡ some c
  first_id i e = subst (λ k. client_list_find_by_id w k ≡ some c) ((==_iff c.id i).0 e) found

  find_ne :
      (i : ℕ) (r : World × ℕ)
      → Outcome env w c t reason r
      → (c.id == i) ≡ false
      → client_list_find_by_id r.0 i ≡ client_list_find_by_id w i
  find_ne i r (refused e) ne = ap (λ x. client_list_find_by_id x.0 i) e
  find_ne i r (logged_in p q e) ne =
      ap (λ x. client_list_find_by_id x.0 i) e
      ∙ (login_find env w c reason _ (by_id-IsStable i) (first_id i) member ∙ rw ne)
  find_ne i r (logged_out p q e) ne =
      ap (λ x. client_list_find_by_id x.0 i) e
      ∙ (logout_find env w c reason _ (by_id-IsStable i) (first_id i) member ∙ rw ne)
  find_ne i r (locked_out p q e) ne =
      ap (λ x. client_list_find_by_id x.0 i) e
      ∙ lockout_find env w c reason _ (by_id-IsStable i) (first_id i) member ne

  find_self :
      (r : World × ℕ) (d : Client)
      → Outcome env w c t reason r
      → client_list_find_by_id r.0 c.id ≡ some d
      → ((r ≡ (w, minus_one)) × (d ≡ c)) ⊎ (d.fw_connection_state ≡ t)
  unfolding logged_in_client logged_out_client
  find_self r d (refused e) f =
      inl (e, ground (arith, f, found, ap (λ x. client_list_find_by_id x.0 c.id) e))
  find_self r d (logged_in p q e) f = inr (
      ground (
        arith,
        q,
        f,
        ap (λ x. client_list_find_by_id x.0 c.id) e,
        login_find env w c reason _ (by_id-IsStable c.id) (first_id c.id) member,
      ))
  find_self r d (logged_out p q e) f = inr (
      ground (
        arith,
        q,
        f,
        ap (λ x. client_list_find_by_id x.0 c.id) e,
        logout_find env w c reason _ (by_id-IsStable c.id) (first_id c.id) member,
      ))
  find_self r d (locked_out p q e) f =
      let (history, macs, k) = block_branch_lem env w c reason in
      absurd (
        ground (
          arith,
          f,
          ap (λ x. client_list_find_by_id x.0 c.id) e,
          ap (λ v. client_list_find_by_id v c.id) k,
          find_by_id-delete (with_blocked w history macs) c c.id
              (with_blocked-IsWellFormed w history macs h) found,
        ))

  pub change_find_ne :
      (i : ℕ)
      → (c.id == i) ≡ false
      → client_list_find_by_id (auth_change_state env w c t reason).0 i ≡ client_list_find_by_id w i
  change_find_ne i = find_ne i _ (change_state_cases env w c t reason)

  pub change_find_self :
      (d : Client)
      → client_list_find_by_id (auth_change_state env w c t reason).0 c.id ≡ some d
      → ((auth_change_state env w c t reason ≡ (w, minus_one)) × (d ≡ c))
        ⊎ (d.fw_connection_state ≡ t)
  change_find_self d = find_self _ d (change_state_cases env w c t reason)
