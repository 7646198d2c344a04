-- ===== src/Auth/Logins.antt =====
-- Who is authenticated after auth_client_deauth of src/auth.c.
use nodogsplash.Prelude.{
  ==_iff, Bool-cases, Option, Option-cases, ap, arith, inl, inr, none, refl, some, subst, sym, true,
  ℕ, ◌==◌, ◌∙◌, ◌≡◌,
}
use nodogsplash.CString.{CString}
use nodogsplash.Auth.{auth_change_state, auth_client_deauth, deauth_found}
use nodogsplash.Auth.FirewallState.{is_logged_in}
use nodogsplash.Auth.Frame.{change_find_ne, change_find_self}
use nodogsplash.Auth.Transitions.{AreDistinct}
use nodogsplash.Client.{Client}
use nodogsplash.ClientList.{client_list_find_by_id}
use nodogsplash.ClientList.Search.{find_client_sound}
use nodogsplash.ClientList.Shape.{IsWellFormed}
use nodogsplash.World.{Env, World}

module _ (env : Env) (w : World) (reason : Option CString) (i : ℕ) (h : IsWellFormed w)
    (d : AreDistinct w.marks) where
  change_logged :
      (c : Client)
      → client_list_find_by_id w c.id ≡ some c
      → is_logged_in w.marks
          (client_list_find_by_id (auth_change_state env w c w.marks.preauthenticated reason).0 i)
        ≡ true
      → is_logged_in w.marks (client_list_find_by_id w i) ≡ true
  change_logged c found e =
      let v = (auth_change_state env w c w.marks.preauthenticated reason).0 in
      elim (Bool-cases (c.id == i)) [
        | inr miss ↦
            ap (is_logged_in w.marks)
              (sym (change_find_ne env w c w.marks.preauthenticated reason h found i miss))
            ∙ e
        | inl hit ↦ elim (Option-cases (client_list_find_by_id v i)) [
          | inl nobody ↦ absurd (ground (arith, nobody, e))
          | inr (x, there) ↦
              elim (change_find_self env w c w.marks.preauthenticated reason h found x (
                subst (λ k. client_list_find_by_id v k ≡ some x) (sym ((==_iff c.id i).0 hit))
                  there)) [
                    | inl (same, k) ↦ ground (arith, hit, k, there, e, found)
                    | inr state ↦ absurd (ground (arith, state, there, e, d.pre_auth))
                  ]
        ]
      ]

  found_logged :
      (id : ℕ) (o : Option Client)
      → client_list_find_by_id w id ≡ o
      → is_logged_in w.marks (client_list_find_by_id (deauth_found env w reason o).0 i) ≡ true
      → is_logged_in w.marks (client_list_find_by_id w i) ≡ true
  unfolding deauth_found
  found_logged id none found e = e
  found_logged id (some c) found e =
      let same : c.id ≡ id = (==_iff c.id id).0 (find_client_sound _ w.clients c found) in
      change_logged c (subst (λ k. client_list_find_by_id w k ≡ some c) (sym same) found) e

  pub deauth_logged :
      (id : ℕ)
      → is_logged_in w.marks (client_list_find_by_id (auth_client_deauth env w id reason).0 i)
        ≡ true
      → is_logged_in w.marks (client_list_find_by_id w i) ≡ true
  unfolding auth_client_deauth
  deauth_logged id = found_logged id _ refl
