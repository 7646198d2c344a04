-- ===== src/Auth/Transitions.antt =====
-- The transitions of auth_change_state in src/auth.c.
use nodogsplash.Prelude.{
  Bool-cases, Option, ap, arith, inl, inr, refl, some, ℕ, ◌==◌, ◌↔◌, ◌≡◌, ◌≢◌, ◌⊎◌,
}
use nodogsplash.Prelude.Int32.{minus_one}
use nodogsplash.CString.{CString}
use nodogsplash.Auth.{
  auth_change_state, auth_client_auth, auth_client_auth_nolock, auth_client_deauth, auth_found,
  authenticate_branch, block_branch, count_authentication, deauth_found, deauthenticate_branch,
}
use nodogsplash.Client.{Client}
use nodogsplash.ClientList.{client_list_find_by_id}
use nodogsplash.World.{Env, Marks, World}

-- The marks are pairwise different, as _iptables_init_marks makes sure of.
pub record AreDistinct (m : Marks) : Type 0 where
  pub pre_auth : m.preauthenticated ≢ m.authenticated
  pub pre_blocked : m.preauthenticated ≢ m.blocked
  pub pre_trusted : m.preauthenticated ≢ m.trusted
  pub auth_blocked : m.authenticated ≢ m.blocked
  pub auth_trusted : m.authenticated ≢ m.trusted
  pub blocked_trusted : m.blocked ≢ m.trusted

-- The transitions that the code makes.
pub data Allowed (m : Marks) : ℕ → ℕ → Type 0 where
  log_in : {s t : ℕ} → s ≡ m.preauthenticated → t ≡ m.authenticated → Allowed m s t
  log_out : {s t : ℕ} → s ≡ m.authenticated → t ≡ m.preauthenticated → Allowed m s t
  lock_out : {s t : ℕ} → s ≡ m.authenticated → t ≡ m.blocked → Allowed m s t

-- auth_change_state does one of five things: it refuses and changes nothing, or it logs the client
-- in, logs it out, or blocks and deletes it.
pub data Outcome (env : Env) (w : World) (c : Client) (t : ℕ) (reason : Option CString)
    (r : World × ℕ) : Type 0 where
  refused : r ≡ (w, minus_one) → Outcome env w c t reason r
  logged_in :
      c.fw_connection_state ≡ w.marks.preauthenticated
      → t ≡ w.marks.authenticated
      → r ≡ (authenticate_branch env w c reason, 0)
      → Outcome env w c t reason r
  logged_out :
      c.fw_connection_state ≡ w.marks.authenticated
      → t ≡ w.marks.preauthenticated
      → r ≡ (deauthenticate_branch env w c reason, 0)
      → Outcome env w c t reason r
  locked_out :
      c.fw_connection_state ≡ w.marks.authenticated
      → t ≡ w.marks.blocked
      → r ≡ (block_branch env w c reason, 0)
      → Outcome env w c t reason r

pub change_state_cases :
    (env : Env) (w : World) (c : Client) (t : ℕ) (reason : Option CString)
    → Outcome env w c t reason (auth_change_state env w c t reason)
unfolding auth_change_state
change_state_cases env w c t reason = elim (Bool-cases (c.fw_connection_state == t)) [
  | inl same ↦ rw same (refused refl)
  | inr other ↦ rw other (elim (Bool-cases (c.fw_connection_state == w.marks.preauthenticated)) [
    | inl pre ↦ rw pre (elim (Bool-cases (t == w.marks.authenticated)) [
      | inl into ↦ rw into (logged_in (ground (arith, pre)) (ground (arith, into)) refl)
      | inr not_into ↦ rw not_into (refused refl)
    ])
    | inr not_pre ↦ rw not_pre (elim (Bool-cases (c.fw_connection_state == w.marks.authenticated)) [
      | inl auth ↦ rw auth (elim (Bool-cases (t == w.marks.preauthenticated)) [
        | inl out ↦ rw out (logged_out (ground (arith, auth)) (ground (arith, out)) refl)
        | inr not_out ↦ rw not_out (elim (Bool-cases (t == w.marks.blocked)) [
          | inl lock ↦ rw lock (locked_out (ground (arith, auth)) (ground (arith, lock)) refl)
          | inr no_lock ↦ rw no_lock (refused refl)
        ])
      ])
      | inr not_auth ↦ rw not_auth (refused refl)
    ])
  ])
]

pub change_state_succeeds :
    (env : Env) (w : World) (c : Client) (s t : ℕ) (reason : Option CString)
    → AreDistinct w.marks
    → c.fw_connection_state ≡ s
    → Allowed w.marks s t
    → (auth_change_state env w c t reason).1 ≡ 0
unfolding auth_change_state
change_state_succeeds env w c s t reason d e (log_in p q) = ground (arith, d.pre_auth)
change_state_succeeds env w c s t reason d e (log_out p q) = ground (arith, d.pre_auth)
change_state_succeeds env w c s t reason d e (lock_out p q) =
    ground (arith, d.pre_auth, d.pre_blocked, d.auth_blocked)

Outcome-Allowed :
    (env : Env) (w : World) (c : Client) (t : ℕ) (reason : Option CString) (r : World × ℕ)
    → Outcome env w c t reason r
    → (r ≡ (w, minus_one)) ⊎ ((r.1 ≡ 0) × Allowed w.marks c.fw_connection_state t)
Outcome-Allowed env w c t reason r (refused e) = inl e
Outcome-Allowed env w c t reason r (logged_in p q e) = inr (ap (λ x. x.1) e, log_in p q)
Outcome-Allowed env w c t reason r (logged_out p q e) = inr (ap (λ x. x.1) e, log_out p q)
Outcome-Allowed env w c t reason r (locked_out p q e) = inr (ap (λ x. x.1) e, lock_out p q)

-- With distinct marks, auth_change_state either returns -1 and changes nothing, or returns 0 on one
-- of the allowed transitions: from preauthenticated to authenticated, and from authenticated to
-- preauthenticated or blocked. It returns 0 on each allowed transition.
pub change_state-Allowed :
    (env : Env) (w : World) (c : Client) (t : ℕ) (reason : Option CString)
    → AreDistinct w.marks
    → ((auth_change_state env w c t reason ≡ (w, minus_one))
        ⊎ (((auth_change_state env w c t reason).1 ≡ 0) × Allowed w.marks c.fw_connection_state t))
      × (((auth_change_state env w c t reason).1 ≡ 0) ↔ Allowed w.marks c.fw_connection_state t)
change_state-Allowed env w c t reason d =
    let result = Outcome-Allowed env w c t reason _ (change_state_cases env w c t reason) in
    (
      result,
      (
        λ e. elim result [ inl bad ↦ absurd (ground (arith, e, bad)) | inr good ↦ good.1 ],
        change_state_succeeds env w c c.fw_connection_state t reason d refl,
      ),
    )

-- The results of the two entry points for the client that an identifier finds.
module _ (env : Env) (w : World) (c : Client) (reason : Option CString) (d : AreDistinct w.marks)
    (found : client_list_find_by_id w c.id ≡ some c) where
  pub auth_result :
      ((auth_client_auth env w c.id reason).1 ≡ 0)
      ↔ (c.fw_connection_state ≡ w.marks.preauthenticated)
  unfolding auth_client_auth_nolock auth_found count_authentication auth_change_state
  auth_result = (λ e. ground (arith, e, found), λ e. ground (arith, e, found, d.pre_auth))

  pub deauth_result :
      ((auth_client_deauth env w c.id reason).1 ≡ 0)
      ↔ (c.fw_connection_state ≡ w.marks.authenticated)
  unfolding auth_client_deauth deauth_found auth_change_state
  deauth_result =
      (λ e. ground (arith, e, found, d.pre_auth), λ e. ground (arith, e, found, d.pre_auth))
