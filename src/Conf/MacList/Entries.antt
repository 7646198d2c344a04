-- ===== src/Conf/MacList/Entries.antt =====
-- Lemmas on the lists of MAC entries of src/conf.c.
use nodogsplash.Prelude.{Bool-cases, List, [], arith, false, inl, inr, refl, true, ◌∷◌, ◌≡◌}
use nodogsplash.CString.{
  CString, eq_of_str_eq, str_case_eq, str_case_eq_refl, str_case_eq_symm, str_case_eq_trans, str_eq,
}
use nodogsplash.Conf.MacList.{add_to_blocked_mac_list, has_case_entry, has_entry, unlink_entry}
use nodogsplash.Config.{Config}
use nodogsplash.World.{Env}

-- No two entries are the same MAC without regard to case.
abbrev pub NoCaseDup : List CString → Type 0
NoCaseDup [] = Unit
NoCaseDup (p ∷ ps) = (has_case_entry p ps ≡ false) × NoCaseDup ps

pub has_case_entry-congr :
    (a b : CString) (ps : List CString)
    → str_case_eq a b ≡ true
    → has_case_entry a ps ≡ has_case_entry b ps
unfolding has_case_entry
has_case_entry-congr a b [] h = refl
has_case_entry-congr a b (p ∷ ps) h = ground (
  arith,
  has_case_entry-congr a b ps h,
  str_case_eq_symm a b h,
  str_case_eq_trans p a b,
  str_case_eq_trans p b a,
)

pub has_case_entry-unlink_le :
    (a b : CString) (ps : List CString)
    → has_case_entry a ps ≡ false
    → has_case_entry a (unlink_entry b ps) ≡ false
unfolding has_case_entry unlink_entry
has_case_entry-unlink_le a b [] h = refl
has_case_entry-unlink_le a b (p ∷ ps) h = ground (arith, has_case_entry-unlink_le a b ps)

pub unlink_entry-NoCaseDup :
    (a : CString) (ps : List CString) → NoCaseDup ps → NoCaseDup (unlink_entry a ps)
unfolding unlink_entry
unlink_entry-NoCaseDup a [] h = tt
unlink_entry-NoCaseDup a (p ∷ ps) h =
    ground (arith, unlink_entry-NoCaseDup a ps h.1, has_case_entry-unlink_le p a ps h.0)

-- In a list without duplicates, no entry for the MAC is left after unlinking.
pub has_case_entry-unlink_self :
    (a : CString) (ps : List CString) → NoCaseDup ps → has_case_entry a (unlink_entry a ps) ≡ false
unfolding has_case_entry unlink_entry
has_case_entry-unlink_self a [] h = refl
has_case_entry-unlink_self a (p ∷ ps) h =
    ground (arith, has_case_entry-unlink_self a ps h.1, has_case_entry-congr p a ps)

-- An entry for another MAC stays.
pub has_entry-unlink_ne :
    (a b : CString) (ps : List CString)
    → str_case_eq b a ≡ false
    → has_entry b (unlink_entry a ps) ≡ has_entry b ps
unfolding has_entry unlink_entry
has_entry-unlink_ne a b [] h = refl
has_entry-unlink_ne a b (p ∷ ps) h = elim (Bool-cases (str_eq p b)) [
  | inl same ↦ ground (arith, has_entry-unlink_ne a b ps h, eq_of_str_eq p b same)
  | inr other ↦ ground (arith, has_entry-unlink_ne a b ps h)
]

pub has_case_entry_of_has_entry :
    (a : CString) (ps : List CString) → has_entry a ps ≡ true → has_case_entry a ps ≡ true
unfolding has_entry has_case_entry
has_case_entry_of_has_entry a [] h = h
has_case_entry_of_has_entry a (p ∷ ps) h = elim (Bool-cases (str_eq p a)) [
  | inl same ↦ ground (arith, eq_of_str_eq p a same, str_case_eq_refl a)
  | inr other ↦ ground (arith, has_case_entry_of_has_entry a ps)
]

-- Adding to the blocked list leaves the rest of the configuration.
pub add_to_blocked_frame :
    (env : Env) (config : Config) (mac : CString)
    → (macs : List CString) × ((add_to_blocked_mac_list env config mac).0
        ≡ record config { blockedmaclist = macs })
unfolding add_to_blocked_mac_list
add_to_blocked_frame env config mac =
    ((add_to_blocked_mac_list env config mac).0.blockedmaclist, ground arith)
