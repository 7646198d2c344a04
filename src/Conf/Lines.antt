-- ===== src/Conf/Lines.antt =====
-- src/conf.c: the characters of a line of the configuration file. `_strip_whitespace` and the loops
-- that move a pointer to the end of a word. A line is what one call of fgets gives.
use nodogsplash.Prelude.{
  All, Bool, [], false, if◌then◌else◌, not, true, ℕ, ◌&&◌, ◌==◌, ◌||◌, ◌∷◌, ◌≡◌,
}
use nodogsplash.CString.{CString}
use nodogsplash.Conf.DebugLevel.{is_space}

-- isblank of the C locale
unfoldable pub is_blank : ℕ → Bool
is_blank c = c == b' ' || c == 9

-- The comment starts at the first `#` with no backslash before it, `prev` being the character
-- before the text.
unfoldable pub strip_comment : ℕ → CString → CString
strip_comment prev [] = []
strip_comment prev (c ∷ s) = if c == b'#' && not (prev == b'\\') then [] else c ∷ strip_comment c s

unfoldable pub strip_leading : CString → CString
unfolding is_space
strip_leading [] = []
strip_leading (c ∷ s) = if is_space c then strip_leading s else c ∷ s

-- A space is cut if only spaces follow it.
keep_or_cut : ℕ → CString → CString
unfolding is_space
keep_or_cut c [] = if is_space c then [] else c ∷ []
keep_or_cut c (d ∷ s) = c ∷ d ∷ s

unfoldable pub strip_trailing : CString → CString
unfolding keep_or_cut
strip_trailing [] = []
strip_trailing (c ∷ s) = keep_or_cut c (strip_trailing s)

unfoldable pub strip_whitespace : CString → CString
unfolding strip_comment strip_leading strip_trailing
strip_whitespace line = strip_trailing (strip_leading (strip_comment 0 line))

-- The characters up to the first that passes the test, and the rest from that one on.
unfoldable pub take_until : (ℕ → Bool) → CString → CString
take_until test [] = []
take_until test (c ∷ s) = if test c then [] else c ∷ take_until test s

unfoldable pub drop_until : (ℕ → Bool) → CString → CString
drop_until test [] = []
drop_until test (c ∷ s) = if test c then c ∷ s else drop_until test s

unfoldable pub skip_blanks : CString → CString
unfolding is_blank
skip_blanks [] = []
skip_blanks (c ∷ s) = if is_blank c then skip_blanks s else c ∷ s

-- The pointer to the text that is left, and the flag of TO_NEXT_WORD that the end was reached.
pub record Words : Type 0 where
  pub left : CString
  pub finished : Bool

unfoldable pub after_word : CString → Words → Words
unfolding skip_blanks
after_word [] w = record { left = []; finished = true }
after_word (c ∷ s) w = record { left = skip_blanks s; finished = w.finished }

-- The macro TO_NEXT_WORD, with the word that it ends.
unfoldable pub next_word : Words → CString × Words
unfolding after_word take_until drop_until is_blank
next_word w = (take_until is_blank w.left, after_word (drop_until is_blank w.left) w)

-- No character passes the test.
abbrev pub Free : (ℕ → Bool) → CString → Type 0
Free test s = All (λ c. test c ≡ false) s
