-- ===== src/Auth/Timeouts.antt =====
-- The periodic check of src/auth.c, fw_refresh_client_list.
use nodogsplash.Prelude.{
  Bool, Bool-cases, Option, ap, arith, false, if◌then◌else◌, inl, inr, none, refl, some, sym, true,
  ℕ, ◌<◌, ◌==◌, ◌∙◌, ◌≡◌, ◌≢◌, ◌⊎◌,
}
use nodogsplash.Prelude.Int32.{is_pos}
use nodogsplash.CString.{CString, codes}
use nodogsplash.Auth.{
  auth_change_state, idle_too_long, limit_reached, refresh_client_list, refresh_found, session_over,
}
use nodogsplash.Auth.Frame.{change_find_ne, change_find_self, marks_kept}
use nodogsplash.Auth.Invariant.{refresh_found-IsWellFormed}
use nodogsplash.Auth.Loops.{Handles, loop-IsWellFormed, loop_all, marks-loop}
use nodogsplash.Auth.Transitions.{Allowed, AreDistinct, change_state_succeeds, lock_out, log_out}
use nodogsplash.Client.{Client}
use nodogsplash.ClientList.{client_list_delete, client_list_find_by_id}
use nodogsplash.ClientList.Delete.{find_by_id-delete}
use nodogsplash.ClientList.Shape.{IsWellFormed}
use nodogsplash.World.{Env, World}

-- No authenticated client with this identifier is past the end of its session.
abbrev pub Settled : World → ℕ → ℕ → Type 0
Settled w now id =
    (c : Client)
    → client_list_find_by_id w id ≡ some c
    → c.fw_connection_state ≡ w.marks.authenticated
    → session_over now c ≡ false

Settled-if :
    (b : Bool) (v w : World) (now id : ℕ)
    → (b ≡ true → Settled v now id)
    → (b ≡ false → Settled w now id)
    → Settled (if b then v else w) now id
Settled-if true v w now id x y = x refl
Settled-if false v w now id x y = y refl

module _ (env : Env) (w : World) (now : ℕ) (c : Client) (h : IsWellFormed w)
    (d : AreDistinct w.marks) (found : client_list_find_by_id w c.id ≡ some c) where
  -- A change out of the authenticated state that is allowed whenever the session is over.
  settle_change :
      (t : ℕ) (reason : Option CString)
      → t ≢ w.marks.authenticated
      → (session_over now c ≡ true → Allowed w.marks w.marks.authenticated t)
      → Settled (auth_change_state env w c t reason).0 now c.id
  settle_change t reason out can x f state =
      let authentic : x.fw_connection_state ≡ w.marks.authenticated =
        state ∙ ap (λ m. m.authenticated) (marks_kept env w c t reason) in
      elim (change_find_self env w c t reason h found x f) [
        | inl (same, e) ↦ elim (Bool-cases (session_over now c)) [
          | inl over ↦ absurd (
              ground (
                arith,
                ap (λ r. r.1) same,
                change_state_succeeds env w c w.marks.authenticated t reason d
                    (ground (arith, e, authentic)) (can over),
              ))
          | inr fresh ↦ ground (arith, e, fresh)
        ]
        | inr e ↦ absurd (out (sym e ∙ authentic))
      ]

  refresh_settles : Settled (refresh_found env w now (some c)) now c.id
  unfolding refresh_found
  refresh_settles =
      Settled-if (session_over now c) _ _ now c.id
        (λ over.
          Settled-if (is_pos w.config.session_timeout_block) _ _ now c.id
            (λ _. settle_change w.marks.blocked _ to_blocked (λ _. lock_out refl refl))
            (λ _. settle_change w.marks.preauthenticated _ d.pre_auth (λ _. log_out refl refl)))
        (λ fresh.
          Settled-if (limit_reached w c) _ _ now c.id
            (λ _. settle_change w.marks.blocked _ to_blocked (λ _. lock_out refl refl))
            (λ _.
              Settled-if
                (idle_too_long w.config.preauth_idle_timeout w.marks.preauthenticated now c) _ _ now
                c.id (λ _ x f _. absurd (ground (arith, f, find_by_id-delete w c c.id h found)))
                (λ _.
                  Settled-if (idle_too_long w.config.auth_idle_timeout w.marks.authenticated now c)
                    _ _ now c.id
                    (λ _.
                      settle_change w.marks.preauthenticated _ d.pre_auth (λ _. log_out refl refl))
                    (λ _ x f _. ground (arith, f, found, fresh)))))
    where
      to_blocked : w.marks.blocked ≢ w.marks.authenticated
      to_blocked e = d.auth_blocked (sym e)

module _ (env : Env) (w : World) (now : ℕ) (c : Client) (h : IsWellFormed w)
    (found : client_list_find_by_id w c.id ≡ some c) where
  refresh_ne :
      (i : ℕ)
      → (c.id == i) ≡ false
      → client_list_find_by_id (refresh_found env w now (some c)) i ≡ client_list_find_by_id w i
  unfolding refresh_found
  refresh_ne i ne = ground (
    arith,
    change_find_ne env w c w.marks.blocked (some (codes "timeout_deauth_block")) h found i ne,
    change_find_ne env w c w.marks.preauthenticated (some (codes "timeout_deauth")) h found i ne,
    change_find_ne env w c w.marks.blocked (some (codes "limitout_deauth_block")) h found i ne,
    change_find_ne env w c w.marks.preauthenticated (some (codes "idle_deauth")) h found i ne,
    find_by_id-delete w c i h found,
  )

refresh_marks :
    (env : Env) (w : World) (now : ℕ) (o : Option Client)
    → (refresh_found env w now o).marks ≡ w.marks
unfolding refresh_found client_list_delete
refresh_marks env w now none = refl
refresh_marks env w now (some c) = ground (
  arith,
  marks_kept env w c w.marks.blocked (some (codes "timeout_deauth_block")),
  marks_kept env w c w.marks.preauthenticated (some (codes "timeout_deauth")),
  marks_kept env w c w.marks.blocked (some (codes "limitout_deauth_block")),
  marks_kept env w c w.marks.preauthenticated (some (codes "idle_deauth")),
)

refresh_handles :
    (env : Env) (now : ℕ) → Handles (λ w o. refresh_found env w now o) (λ w i. Settled w now i)
unfolding refresh_found
refresh_handles env now = record {
  sound = λ w o. refresh_found-IsWellFormed env w now o;
  marks = λ w o. refresh_marks env w now o;
  absent = λ w. refl;
  local = λ w c i h found ne. refresh_ne env w now c h found i ne;
  settles = λ w c h d found. refresh_settles env w now c h d found;
  vacuous = λ w i e c f s. cc;
  depends = λ v w i e m q c f s. q c (sym e ∙ f) (s ∙ ap (λ k. k.authenticated) m);
}

-- The check keeps the client list sound.
pub refresh-IsWellFormed :
    (env : Env) (w : World) (now : ℕ)
    → IsWellFormed w
    → IsWellFormed (refresh_client_list env w now)
unfolding refresh_client_list
refresh-IsWellFormed env w now = loop-IsWellFormed _ _ (refresh_handles env now) w _

not_over :
    (now : ℕ) (c : Client)
    → session_over now c ≡ false
    → (c.session_end ≡ 0) ⊎ (now < c.session_end)
unfolding session_over
not_over now c e = ground arith

-- After the periodic check of a sound list with distinct marks, no client that is authenticated has
-- reached the end of its session: the end is not set, or it lies after the time of the check. This
-- holds whatever the results of the external commands.
pub refresh_ends_sessions :
    (env : Env) (w : World) (now id : ℕ) (c : Client)
    → IsWellFormed w
    → AreDistinct w.marks
    → client_list_find_by_id (refresh_client_list env w now) id ≡ some c
    → c.fw_connection_state ≡ w.marks.authenticated
    → (c.session_end ≡ 0) ⊎ (now < c.session_end)
unfolding refresh_client_list
refresh_ends_sessions env w now id c h d found state = not_over now c (
    loop_all _ _ (refresh_handles env now) w id h d c found
      (state ∙ sym (ap (λ k. k.authenticated) (marks-loop _ _ (refresh_handles env now) w _))))
