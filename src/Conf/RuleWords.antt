-- ===== src/Conf/RuleWords.antt =====
-- The parts of a firewall rule of src/conf.c written out as words, and read by their parsers.
use nodogsplash.Prelude.{
  All, List, Option, [], ap, false, none, refl, some, sym, true, ◌++◌, ◌∙◌, ◌∷◌, ◌≡◌,
}
use nodogsplash.CString.{CString, codes, has_prefix, str_case_eq, str_eq_refl}
use nodogsplash.Conf.Legal.{prefix_of_word, protocol_of_word}
use nodogsplash.Conf.Lines.{Free, is_blank}
use nodogsplash.Conf.Printing.{IsWord, at_words, head_word, is_plain, is_plain-IsWord, rest_words}
use nodogsplash.Conf.Rulesets.{
  Target, has_ports, is_mask, is_port, read_ipset, read_mask, read_port, read_protocol, read_target,
  starts_protocol, target_accept, target_drop, target_log, target_reject, target_ulog,
}

unfoldable pub target_word : Target → CString
target_word target_reject = codes "block"
target_word target_drop = codes "drop"
target_word target_accept = codes "allow"
target_word target_log = codes "log"
target_word target_ulog = codes "ulog"

unfoldable pub protocol_words : Option CString → List CString
protocol_words none = []
protocol_words (some s) = s ∷ []

-- A keyword and its word.
unfoldable pub keyword_words : CString → Option CString → List CString
keyword_words keyword none = []
keyword_words keyword (some s) = keyword ∷ s ∷ []

-- The keywords are words.
pub port-IsWord : IsWord (codes "port")
unfolding is_plain
port-IsWord = is_plain-IsWord _ _ refl

pub ipset-IsWord : IsWord (codes "ipset")
unfolding is_plain
ipset-IsWord = is_plain-IsWord _ _ refl

pub to-IsWord : IsWord (codes "to")
unfolding is_plain
to-IsWord = is_plain-IsWord _ _ refl

pub target_word-IsWord : (t : Target) → IsWord (target_word t)
unfolding target_word is_plain
target_word-IsWord target_reject = is_plain-IsWord _ _ refl
target_word-IsWord target_drop = is_plain-IsWord _ _ refl
target_word-IsWord target_accept = is_plain-IsWord _ _ refl
target_word-IsWord target_log = is_plain-IsWord _ _ refl
target_word-IsWord target_ulog = is_plain-IsWord _ _ refl

pub read_target-printed : (t : Target) → read_target (target_word t) ≡ some t
unfolding read_target target_word str_case_eq
read_target-printed target_reject = refl
read_target-printed target_drop = refl
read_target-printed target_accept = refl
read_target-printed target_log = refl
read_target-printed target_ulog = refl

-- The parser tests the first letters of the word that it stands at.
starts_at :
    (w : CString) (ws : List CString)
    → IsWord w
    → starts_protocol (at_words (w ∷ ws)).left ≡ starts_protocol w
starts_at w ws word =
    sym (protocol_of_word (at_words (w ∷ ws)).left) ∙ ap starts_protocol (head_word w ws word)

prefix_at :
    (p w : CString) (ws : List CString)
    → Free is_blank p
    → IsWord w
    → has_prefix (at_words (w ∷ ws)).left p ≡ has_prefix w p
prefix_at p w ws free word =
    sym (prefix_of_word p (at_words (w ∷ ws)).left free)
    ∙ ap (λ t. has_prefix t p) (head_word w ws word)

pub read_protocol-printed :
    (protocol : Option CString) (w : CString) (ws : List CString)
    → ((s : CString) → protocol ≡ some s → IsWord s × (starts_protocol s ≡ true))
    → IsWord w
    → starts_protocol w ≡ false
    → All IsWord ws
    → read_protocol (at_words (protocol_words protocol ++ w ∷ ws)) ≡ (protocol, at_words (w ∷ ws))
unfolding read_protocol protocol_words
read_protocol-printed none w ws good word other words =
    rw (read_protocol, starts_at w ws word ∙ other) refl
read_protocol-printed (some s) w ws good word other words =
    let (s_word, starts) = good s refl in
    rw (read_protocol, starts_at s (w ∷ ws) s_word ∙ starts)
      (rw (head_word s (w ∷ ws) s_word) (rw (rest_words s (w ∷ ws) s_word (word, words)) refl))

pub read_port-printed :
    (protocol port : Option CString) (w : CString) (ws : List CString)
    → ((s : CString) → port ≡ some s → IsWord s × (is_port s ≡ true) × (has_ports protocol ≡ true))
    → IsWord w
    → has_prefix w (codes "port") ≡ false
    → All IsWord ws
    → read_port protocol (at_words (keyword_words (codes "port") port ++ w ∷ ws))
      ≡ some (port, at_words (w ∷ ws))
unfolding read_port keyword_words has_prefix
read_port-printed protocol none w ws good word other words =
    rw (read_port, prefix_at (codes "port") w ws (port-IsWord.unbroken) word ∙ other) refl
read_port-printed protocol (some s) w ws good word other words =
    let (s_word, digits, with_ports) = good s refl in
    rw
      (
        read_port,
        prefix_at (codes "port") (codes "port") (s ∷ w ∷ ws) (port-IsWord.unbroken) port-IsWord,
      )
      (rw with_ports (
        rw (rest_words (codes "port") (s ∷ w ∷ ws) port-IsWord (s_word, (word, words))) (
          rw (head_word s (w ∷ ws) s_word)
            (rw digits (rw (rest_words s (w ∷ ws) s_word (word, words)) refl)))))

pub read_ipset-printed :
    (ipset : Option CString) (w : CString) (ws : List CString)
    → ((s : CString) → ipset ≡ some s → IsWord s)
    → IsWord w
    → has_prefix w (codes "ipset") ≡ false
    → All IsWord ws
    → read_ipset (at_words (keyword_words (codes "ipset") ipset ++ w ∷ ws))
      ≡ (ipset, at_words (w ∷ ws))
unfolding read_ipset keyword_words has_prefix
read_ipset-printed none w ws good word other words =
    rw (read_ipset, prefix_at (codes "ipset") w ws (ipset-IsWord.unbroken) word ∙ other) refl
read_ipset-printed (some s) w ws good word other words =
    let s_word = good s refl in
    rw
      (
        read_ipset,
        prefix_at (codes "ipset") (codes "ipset") (s ∷ w ∷ ws) (ipset-IsWord.unbroken) ipset-IsWord,
      )
      (rw (rest_words (codes "ipset") (s ∷ w ∷ ws) ipset-IsWord (s_word, (word, words)))
        (rw (head_word s (w ∷ ws) s_word) (rw (rest_words s (w ∷ ws) s_word (word, words)) refl)))

not_finished : (w : CString) (ws : List CString) → (at_words (w ∷ ws)).finished ≡ false
unfolding at_words
not_finished w ws = refl

pub read_mask-printed :
    (mask : CString)
    → IsWord mask
    → is_mask mask ≡ true
    → read_mask (at_words (codes "to" ∷ mask ∷ [])) ≡ some mask
unfolding read_mask
read_mask-printed mask word legal =
    rw (read_mask, rest_words (codes "to") (mask ∷ []) to-IsWord (word, tt))
      (rw (head_word (codes "to") (mask ∷ []) to-IsWord) (
        rw (str_eq_refl (codes "to")) (
          rw (not_finished mask []) (
            rw (not_finished (codes "to") (mask ∷ []))
              (rw (head_word mask [] word) (rw legal refl))))))
