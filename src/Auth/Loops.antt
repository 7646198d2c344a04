-- ===== src/Auth/Loops.antt =====
-- The loops over the client list in src/auth.c, from what their body does for one client.
use nodogsplash.Prelude.{
  ==_iff, Bool-cases, List, Option, Option-cases, [], ap, arith, false, inl, inr, map, none, refl,
  some, subst, sym, true, ℕ, ◌==◌, ◌∙◌, ◌∷◌, ◌≡◌,
}
use nodogsplash.Auth.{for_each_client}
use nodogsplash.Auth.Transitions.{AreDistinct}
use nodogsplash.Client.{Client}
use nodogsplash.ClientList.{client_list_find_by_id}
use nodogsplash.ClientList.Members.{has_id, has_id-map}
use nodogsplash.ClientList.Search.{find_client_sound}
use nodogsplash.ClientList.Shape.{IsWellFormed}
use nodogsplash.World.{World}

-- A body that handles one client: it keeps the list sound and the marks, does nothing to other
-- identifiers, nothing at all when no client is found, and makes `Q` hold for the one found.
pub record Handles (body : World → Option Client → World) (Q : World → ℕ → Type 0) : Type 0 where
  pub sound : (w : World) (o : Option Client) → IsWellFormed w → IsWellFormed (body w o)
  pub marks : (w : World) (o : Option Client) → (body w o).marks ≡ w.marks
  pub absent : (w : World) → body w none ≡ w
  pub local :
      (w : World) (c : Client) (i : ℕ)
      → IsWellFormed w
      → client_list_find_by_id w c.id ≡ some c
      → (c.id == i) ≡ false
      → client_list_find_by_id (body w (some c)) i ≡ client_list_find_by_id w i
  pub settles :
      (w : World) (c : Client)
      → IsWellFormed w
      → AreDistinct w.marks
      → client_list_find_by_id w c.id ≡ some c
      → Q (body w (some c)) c.id
  pub vacuous : (w : World) (i : ℕ) → client_list_find_by_id w i ≡ none → Q w i
  pub depends :
      (v w : World) (i : ℕ)
      → client_list_find_by_id v i ≡ client_list_find_by_id w i
      → v.marks ≡ w.marks
      → Q w i
      → Q v i

module _ (body : World → Option Client → World) (Q : World → ℕ → Type 0) (hs : Handles body Q) where
  step_ne :
      (w : World) (id i : ℕ)
      → IsWellFormed w
      → (id == i) ≡ false
      → client_list_find_by_id (body w (client_list_find_by_id w id)) i ≡ client_list_find_by_id w i
  step_ne w id i h ne = elim (Option-cases (client_list_find_by_id w id)) [
    | inl none_found ↦ rw none_found (ap (λ v. client_list_find_by_id v i) (hs.absent w))
    | inr (c, found) ↦
        let same : c.id ≡ id = (==_iff c.id id).0 (find_client_sound _ w.clients c found) in
        rw found (
          hs.local w c i h (subst (λ k. client_list_find_by_id w k ≡ some c) (sym same) found)
            (ground (arith, same, ne)))
  ]

  step_settles :
      (w : World) (id : ℕ)
      → IsWellFormed w
      → AreDistinct w.marks
      → Q (body w (client_list_find_by_id w id)) id
  step_settles w id h d = elim (Option-cases (client_list_find_by_id w id)) [
    | inl none_found ↦
        rw none_found (subst (λ v. Q v id) (sym (hs.absent w)) (hs.vacuous w id none_found))
    | inr (c, found) ↦
        let same : c.id ≡ id = (==_iff c.id id).0 (find_client_sound _ w.clients c found) in
        rw found (
          subst (Q (body w (some c))) same (
            hs.settles w c h d (subst (λ k. client_list_find_by_id w k ≡ some c) (sym same) found)))
  ]

  pub loop-IsWellFormed :
      (w : World) (ids : List ℕ) → IsWellFormed w → IsWellFormed (for_each_client body w ids)
  unfolding for_each_client
  loop-IsWellFormed w [] h = h
  loop-IsWellFormed w (id ∷ ids) h =
      loop-IsWellFormed (body w (client_list_find_by_id w id)) ids (hs.sound w _ h)

  pub marks-loop : (w : World) (ids : List ℕ) → (for_each_client body w ids).marks ≡ w.marks
  unfolding for_each_client
  marks-loop w [] = refl
  marks-loop w (id ∷ ids) = marks-loop (body w (client_list_find_by_id w id)) ids ∙ hs.marks w _

  -- What holds for an identifier stays; what does not yet hold is brought about in its round.
  loop_keeps :
      (w : World) (ids : List ℕ) (i : ℕ)
      → IsWellFormed w
      → AreDistinct w.marks
      → Q w i
      → Q (for_each_client body w ids) i
  unfolding for_each_client
  loop_keeps w [] i h d q = q
  loop_keeps w (id ∷ ids) i h d q =
      let v = body w (client_list_find_by_id w id) in
      let d' : AreDistinct v.marks = subst AreDistinct (sym (hs.marks w _)) d in
      loop_keeps v ids i (hs.sound w _ h) d' (elim (Bool-cases (id == i)) [
        | inl hit ↦ subst (Q v) ((==_iff id i).0 hit) (step_settles w id h d)
        | inr miss ↦ hs.depends v w i (step_ne w id i h miss) (hs.marks w _) q
      ])

  loop_settles :
      (w : World) (ids : List ℕ) (i : ℕ)
      → IsWellFormed w
      → AreDistinct w.marks
      → has_id i ids ≡ true
      → Q (for_each_client body w ids) i
  unfolding for_each_client has_id
  loop_settles w [] i h d m = cc
  loop_settles w (id ∷ ids) i h d m =
      let v = body w (client_list_find_by_id w id) in
      let d' : AreDistinct v.marks = subst AreDistinct (sym (hs.marks w _)) d in
      elim (Bool-cases (id == i)) [
        | inl hit ↦
            loop_keeps v ids i (hs.sound w _ h) d'
              (subst (Q v) ((==_iff id i).0 hit) (step_settles w id h d))
        | inr miss ↦ loop_settles v ids i (hs.sound w _ h) d' (ground (arith, m, miss))
      ]

  -- After the loop over the whole list, `Q` holds for every identifier.
  pub loop_all :
      (w : World) (i : ℕ)
      → IsWellFormed w
      → AreDistinct w.marks
      → Q (for_each_client body w (map (λ c. c.id) w.clients)) i
  loop_all w i h d = elim (Option-cases (client_list_find_by_id w i)) [
    | inl none_found ↦ loop_keeps w _ i h d (hs.vacuous w i none_found)
    | inr (c, found) ↦ loop_settles w _ i h d (has_id-map w.clients c i found)
  ]

-- An invariant of the body is one of the loop.
pub loop_keeps_invariant :
    (body : World → Option Client → World) (P : World → Type 0)
    → ((w : World) (id : ℕ) → P w → P (body w (client_list_find_by_id w id)))
    → (w : World) (ids : List ℕ) → P w
    → P (for_each_client body w ids)
unfolding for_each_client
loop_keeps_invariant body P keep w [] p = p
loop_keeps_invariant body P keep w (id ∷ ids) p =
    loop_keeps_invariant body P keep (body w (client_list_find_by_id w id)) ids (keep w id p)
