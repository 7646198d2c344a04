-- ===== src/StateFile/Written.antt =====
-- The file that state_file_export of src/state_file.c writes for a daemon that never deleted a client.
use nodogsplash.Prelude.{
  All, List, [], ap, arith, length, none, some, subst, suc, sym, ℕ, ◌+◌, ◌∙◌, ◌∷◌, ◌≡◌, ◌≤◌,
}
use nodogsplash.CString.{codes}
use nodogsplash.Client.{Client}
use nodogsplash.ClientList.Shape.{Ascending, IsWellFormed}
use nodogsplash.StateFile.{export_top, get_field}
use nodogsplash.StateFile.Export.{SavedAll, export_top-SavedAll}
use nodogsplash.StateFile.Json.{IsDocumented, JsonC}
use nodogsplash.StateFile.Numbered.{IsNumbered, IsNumberedFile}
use nodogsplash.StateFile.Saved.{IsInRange}
use nodogsplash.World.{World}

some_inj {ℓ} : {A : Type ℓ} (a b : A) → some a ≡ some b → a ≡ b
some_inj a b e = ap (λ o. elim o [ none ↦ a | some v ↦ v ]) e

-- Ascending identifiers take up at least as many numbers as there are clients.
length-Ascending :
    (lo hi : ℕ) (cs : List Client) → Ascending (λ c. c.id) lo hi cs → lo + length cs ≤ hi
length-Ascending lo hi [] h = omega arith
length-Ascending lo hi (c ∷ cs) h = omega (arith, h.0, length-Ascending (c.id + 1) hi cs h.1)

module _ (J : JsonC) where
  SavedAll-IsNumbered :
      (lo hi : ℕ) (l : List J.Json) (cs : List Client)
      → Ascending (λ c. c.id) lo hi cs
      → hi ≡ lo + length cs
      → All IsInRange cs
      → SavedAll J l cs
      → IsNumbered J lo l
  SavedAll-IsNumbered lo hi [] cs asc tight r saved = tt
  SavedAll-IsNumbered lo hi (cli ∷ l) [] asc tight r saved = absurd saved
  SavedAll-IsNumbered lo hi (cli ∷ l) (c ∷ cs) asc tight r saved =
      let first : c.id ≡ lo = omega (arith, asc.0, length-Ascending (c.id + 1) hi cs asc.1) in
      (
        λ number found.
            let same : number ≡ c.id = some_inj number c.id (sym found ∙ saved.0.1.id) in
            omega (arith, r.0.number, first, same),
        SavedAll-IsNumbered (suc lo) hi l cs
            (subst (λ n. Ascending (λ d. d.id) n hi cs) (omega (arith, first)) asc.1) (omega arith)
            r.1 saved.1,
      )

  -- On a sound list, with fields in the range of their types, where the next identifier is one more
  -- than the number of clients, so that none was ever deleted, the file that is written has its clients
  -- numbered from 1 on.
  pub export-IsNumbered :
      (w : World) (top : J.Json)
      → IsDocumented J
      → IsWellFormed w
      → w.client_id ≡ suc w.client_count
      → All IsInRange w.clients
      → export_top J w.clients ≡ some top
      → IsNumberedFile J (some top)
  export-IsNumbered w top doc h none_deleted r wrote top' clients e f =
      let (version, name, (a, listed, saved)) = export_top-SavedAll J doc w.clients top r wrote in
      let same_top : top ≡ top' = some_inj top top' e in
      let same : a ≡ clients = some_inj a clients (
        sym listed
        ∙ (ap (λ v. get_field J v (codes "clients") J.is_array (λ x. x)) same_top ∙ f)) in
      subst (λ v. IsNumbered J 1 (J.items v)) same
        (SavedAll-IsNumbered 1 w.client_id (J.items a) w.clients h.ids
          (omega (arith, none_deleted, h.counted)) r saved)
