-- ===== src/Conf/Printing.antt =====
-- A firewall rule of src/conf.c written out as the words that its parser reads.
use nodogsplash.Prelude.{
  All, Bool, List, [], ap, arith, false, map, not, refl, true, ℕ, ◌&&◌, ◌++◌, ◌==◌, ◌∷◌, ◌≡◌,
}
use nodogsplash.CString.{CString, to_lower}
use nodogsplash.Conf.Lines.{
  Free, Words, after_word, drop_until, is_blank, next_word, skip_blanks, take_until,
}

-- Words with one blank between them.
unfoldable pub spaced : List CString → CString
spaced [] = []
spaced (w ∷ []) = w
spaced (w ∷ v ∷ ws) = w ++ b' ' ∷ spaced (v ∷ ws)

abbrev pub IsLower : ℕ → Type 0
IsLower c = to_lower c ≡ c

-- A word is not empty, has no blank and no capital letter.
pub record IsWord (w : CString) : Type 0 where
  pub filled : (c : ℕ) × (s : CString) × (w ≡ c ∷ s)
  pub unbroken : Free is_blank w
  pub lower : All IsLower w

-- The parser in front of these words.
unfoldable pub at_words : List CString → Words
unfolding spaced
at_words [] = record { left = []; finished = true }
at_words (w ∷ ws) = record { left = spaced (w ∷ ws); finished = false }

take_until-word : (w rest : CString) → Free is_blank w → take_until is_blank (w ++ b' ' ∷ rest) ≡ w
unfolding take_until is_blank
take_until-word [] rest free = refl
take_until-word (c ∷ s) rest free = rw free.0 (ap (λ t. c ∷ t) (take_until-word s rest free.1))

drop_until-word :
    (w rest : CString) → Free is_blank w → drop_until is_blank (w ++ b' ' ∷ rest) ≡ b' ' ∷ rest
unfolding drop_until is_blank
drop_until-word [] rest free = refl
drop_until-word (c ∷ s) rest free = rw free.0 (drop_until-word s rest free.1)

take_until-last : (w : CString) → Free is_blank w → take_until is_blank w ≡ w
unfolding take_until
take_until-last [] free = refl
take_until-last (c ∷ s) free = rw free.0 (ap (λ t. c ∷ t) (take_until-last s free.1))

drop_until-last : (w : CString) → Free is_blank w → drop_until is_blank w ≡ []
unfolding drop_until
drop_until-last [] free = refl
drop_until-last (c ∷ s) free = rw free.0 (drop_until-last s free.1)

-- A text of words starts with no blank.
skip_blanks-spaced :
    (v : CString) (ws : List CString) → IsWord v → skip_blanks (spaced (v ∷ ws)) ≡ spaced (v ∷ ws)
unfolding skip_blanks spaced
skip_blanks-spaced [] ws word = let (c, s, e) = word.filled in cc
skip_blanks-spaced (c ∷ s) [] word = rw (word.unbroken.0) refl
skip_blanks-spaced (c ∷ s) (w ∷ ws) word = rw (word.unbroken.0) refl

pub next_word-at_words :
    (w : CString) (ws : List CString)
    → IsWord w
    → All IsWord ws
    → next_word (at_words (w ∷ ws)) ≡ (w, at_words ws)
unfolding next_word at_words
next_word-at_words w [] word words =
    rw (take_until-last w word.unbroken) (rw (drop_until-last w word.unbroken) refl)
next_word-at_words w (v ∷ ws) word words = rw (take_until-word w (spaced (v ∷ ws)) word.unbroken) (
    rw (drop_until-word w (spaced (v ∷ ws)) word.unbroken)
      (rw (skip_blanks-spaced v ws words.0) refl))

-- A test of the first letters reads the first word.
pub head_word :
    (w : CString) (ws : List CString) → IsWord w → take_until is_blank (at_words (w ∷ ws)).left ≡ w
unfolding at_words spaced
head_word w [] word = take_until-last w word.unbroken
head_word w (v ∷ ws) word = take_until-word w (spaced (v ∷ ws)) word.unbroken

-- TO_NEXT_WORD leaves the words behind the first.
pub rest_words :
    (w : CString) (ws : List CString)
    → IsWord w
    → All IsWord ws
    → after_word (drop_until is_blank (at_words (w ∷ ws)).left) (at_words (w ∷ ws)) ≡ at_words ws
unfolding next_word
rest_words w ws word words = ap (λ p. p.1) (next_word-at_words w ws word words)

-- The test for a word.
unfoldable pub is_plain : CString → Bool
unfolding is_blank
is_plain [] = true
is_plain (c ∷ s) = (not (is_blank c) && to_lower c == c) && is_plain s

is_plain-Free : (w : CString) → is_plain w ≡ true → Free is_blank w
unfolding is_plain
is_plain-Free [] h = tt
is_plain-Free (c ∷ s) h = (ground arith, is_plain-Free s (ground arith))

is_plain-IsLower : (w : CString) → is_plain w ≡ true → All IsLower w
unfolding is_plain
is_plain-IsLower [] h = tt
is_plain-IsLower (c ∷ s) h = (ground arith, is_plain-IsLower s (ground arith))

pub is_plain-IsWord : (c : ℕ) (s : CString) → is_plain (c ∷ s) ≡ true → IsWord (c ∷ s)
is_plain-IsWord c s h = record {
  filled = (c, s, refl);
  unbroken = is_plain-Free (c ∷ s) h;
  lower = is_plain-IsLower (c ∷ s) h;
}

-- tolower leaves a text of such words as it is.
lower-append : (w t : CString) → All IsLower w → map to_lower t ≡ t → map to_lower (w ++ t) ≡ w ++ t
lower-append [] t h k = k
lower-append (c ∷ s) t h k = rw (h.0) (ap (λ l. c ∷ l) (lower-append s t h.1 k))

pub lower-spaced : (ws : List CString) → All IsWord ws → map to_lower (spaced ws) ≡ spaced ws
unfolding spaced
lower-spaced [] h = refl
lower-spaced (w ∷ []) h = lower-last w h.0.lower
  where
    lower-last : (t : CString) → All IsLower t → map to_lower t ≡ t
    lower-last [] k = refl
    lower-last (c ∷ s) k = rw k.0 (ap (λ l. c ∷ l) (lower-last s k.1))
lower-spaced (w ∷ v ∷ ws) h =
    lower-append w (b' ' ∷ spaced (v ∷ ws)) h.0.lower
      (ap (λ l. b' ' ∷ l) (lower-spaced (v ∷ ws) h.1))
