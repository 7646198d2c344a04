-- ===== src/Conf/RuleRoundtrip.antt =====
-- A firewall rule of src/conf.c written out and parsed again.
use nodogsplash.Prelude.{
  All, List, Option, [], ap, false, map, none, refl, some, true, ◌++◌, ◌∷◌, ◌≡◌,
}
use nodogsplash.CString.{CString, codes, has_prefix, to_lower}
use nodogsplash.Conf.Lines.{Words, next_word}
use nodogsplash.Conf.Printing.{IsWord, at_words, lower-spaced, next_word-at_words, spaced}
use nodogsplash.Conf.RuleWords.{
  ipset-IsWord, keyword_words, port-IsWord, protocol_words, read_ipset-printed, read_mask-printed,
  read_port-printed, read_protocol-printed, read_target-printed, target_word, target_word-IsWord,
  to-IsWord,
}
use nodogsplash.Conf.Rulesets.{
  FirewallRule, Target, has_ports, is_mask, is_port, read_ipset, read_mask, read_port,
  read_protocol, read_rest, read_rule, read_target, starts_protocol,
}

abbrev pub from_ipset : Option CString → CString → List CString
from_ipset ipset mask = keyword_words (codes "ipset") ipset ++ codes "to" ∷ mask ∷ []

abbrev pub from_port : Option CString → Option CString → CString → List CString
from_port port ipset mask = keyword_words (codes "port") port ++ from_ipset ipset mask

-- The text of a rule, with its mask written out.
unfoldable pub print_rule : FirewallRule → CString
unfolding target_word protocol_words keyword_words spaced
print_rule r =
    spaced (target_word r.target ∷ (protocol_words r.protocol ++ from_port r.port r.ipset r.mask))

-- The words of a rule that the parser reads back.
pub record IsCanonical (r : FirewallRule) : Type 0 where
  pub protocol : (s : CString) → r.protocol ≡ some s → IsWord s × (starts_protocol s ≡ true)
  pub port :
      (s : CString)
      → r.port ≡ some s
      → IsWord s × (is_port s ≡ true) × (has_ports r.protocol ≡ true)
  pub ipset : (s : CString) → r.ipset ≡ some s → IsWord s
  pub mask : IsWord r.mask × (is_mask r.mask ≡ true)

rest_steps :
    (t : Target) (w w1 w2 w3 : Words) (protocol port ipset : Option CString) (mask : CString)
    → read_protocol w ≡ (protocol, w1)
    → read_port protocol w1 ≡ some (port, w2)
    → read_ipset w2 ≡ (ipset, w3)
    → read_mask w3 ≡ some mask
    → read_rest t w
      ≡ some (record { target = t; protocol = protocol; port = port; mask = mask; ipset = ipset })
unfolding read_rest
rest_steps t w w1 w2 w3 protocol port ipset mask p q r m =
    rw (read_rest, p) (rw q (rw r (rw m (rw (ap (λ x. x.0) p) (rw (ap (λ x. x.0) r) refl)))))

module _ (t : Target) (protocol : Option CString) (mask : CString)
    (good_protocol : (s : CString) → protocol ≡ some s → IsWord s × (starts_protocol s ≡ true))
    (good_mask : IsWord mask × (is_mask mask ≡ true)) where
  tail_words : All IsWord (mask ∷ [])
  tail_words = (good_mask.0, tt)

  read_rest-printed :
      (port ipset : Option CString)
      → ((s : CString)
          → port ≡ some s
          → IsWord s × (is_port s ≡ true) × (has_ports protocol ≡ true))
      → ((s : CString) → ipset ≡ some s → IsWord s)
      → read_rest t (at_words (protocol_words protocol ++ from_port port ipset mask))
        ≡ some (record { target = t; protocol = protocol; port = port; mask = mask; ipset = ipset })
  unfolding keyword_words starts_protocol has_prefix
  read_rest-printed none none good_port good_ipset =
      rest_steps t _ _ _ _ protocol none none mask
        (read_protocol-printed protocol (codes "to") (mask ∷ []) good_protocol to-IsWord refl
          tail_words)
        (read_port-printed protocol none (codes "to") (mask ∷ []) good_port to-IsWord refl
          tail_words)
        (read_ipset-printed none (codes "to") (mask ∷ []) good_ipset to-IsWord refl tail_words)
        (read_mask-printed mask good_mask.0 good_mask.1)
  read_rest-printed none (some s) good_port good_ipset =
      let words : All IsWord (s ∷ codes "to" ∷ mask ∷ []) =
        (good_ipset s refl, (to-IsWord, tail_words)) in
      rest_steps t _ _ _ _ protocol none (some s) mask
        (read_protocol-printed protocol (codes "ipset") (s ∷ codes "to" ∷ mask ∷ []) good_protocol
          ipset-IsWord refl words)
        (read_port-printed protocol none (codes "ipset") (s ∷ codes "to" ∷ mask ∷ []) good_port
          ipset-IsWord refl words)
        (read_ipset-printed (some s) (codes "to") (mask ∷ []) good_ipset to-IsWord refl tail_words)
        (read_mask-printed mask good_mask.0 good_mask.1)
  read_rest-printed (some p) none good_port good_ipset =
      rest_steps t _ _ _ _ protocol (some p) none mask
        (read_protocol-printed protocol (codes "port") (p ∷ codes "to" ∷ mask ∷ []) good_protocol
          port-IsWord refl ((good_port p refl).0, (to-IsWord, tail_words)))
        (read_port-printed protocol (some p) (codes "to") (mask ∷ []) good_port to-IsWord refl
          tail_words)
        (read_ipset-printed none (codes "to") (mask ∷ []) good_ipset to-IsWord refl tail_words)
        (read_mask-printed mask good_mask.0 good_mask.1)
  read_rest-printed (some p) (some s) good_port good_ipset =
      let words : All IsWord (s ∷ codes "to" ∷ mask ∷ []) =
        (good_ipset s refl, (to-IsWord, tail_words)) in
      rest_steps t _ _ _ _ protocol (some p) (some s) mask
        (read_protocol-printed protocol (codes "port")
          (p ∷ codes "ipset" ∷ s ∷ codes "to" ∷ mask ∷ []) good_protocol port-IsWord refl
          ((good_port p refl).0, (ipset-IsWord, words)))
        (read_port-printed protocol (some p) (codes "ipset") (s ∷ codes "to" ∷ mask ∷ []) good_port
          ipset-IsWord refl words)
        (read_ipset-printed (some s) (codes "to") (mask ∷ []) good_ipset to-IsWord refl tail_words)
        (read_mask-printed mask good_mask.0 good_mask.1)

All-optional :
    (w : CString) (o : Option CString) (rest : List CString)
    → IsWord w
    → ((s : CString) → o ≡ some s → IsWord s)
    → All IsWord rest
    → All IsWord (keyword_words w o ++ rest)
unfolding keyword_words
All-optional w none rest word good h = h
All-optional w (some s) rest word good h = (word, (good s refl, h))

All-protocol :
    (o : Option CString) (rest : List CString)
    → ((s : CString) → o ≡ some s → IsWord s)
    → All IsWord rest
    → All IsWord (protocol_words o ++ rest)
unfolding protocol_words
All-protocol none rest good h = h
All-protocol (some s) rest good h = (good s refl, h)

rule_steps :
    (s token : CString) (w : Words) (t : Target) (rule : FirewallRule)
    → next_word (record { left = map to_lower s; finished = false }) ≡ (token, w)
    → read_target token ≡ some t
    → read_rest t w ≡ some rule
    → read_rule s ≡ some rule
unfolding read_rule
rule_steps s token w t rule split known rest =
    rw (read_rule, ap (λ x. x.0) split) (rw known (rw (ap (λ x. x.1) split) rest))

-- The parser stands before the words of a text.
lowered_text :
    (w : CString) (ws : List CString)
    → All IsWord (w ∷ ws)
    → next_word (record { left = map to_lower (spaced (w ∷ ws)); finished = false })
      ≡ (w, at_words ws)
unfolding at_words
lowered_text w ws words = rw (lower-spaced (w ∷ ws) words) (next_word-at_words w ws words.0 words.1)

-- A rule whose words have no blank and no capital letter, whose protocol starts with tcp, udp, all or
-- icmp, whose port is of digits and colons and stands with tcp or udp, and whose mask is of digits,
-- dots and slashes, is read back from its text.
pub rule_roundtrip : (r : FirewallRule) → IsCanonical r → read_rule (print_rule r) ≡ some r
unfolding print_rule
rule_roundtrip r h =
    let last : All IsWord (codes "to" ∷ r.mask ∷ []) = (to-IsWord, (h.mask.0, tt)) in
    let words =
      All-protocol r.protocol (from_port r.port r.ipset r.mask) (λ s e. (h.protocol s e).0)
        (All-optional (codes "port") r.port (from_ipset r.ipset r.mask) port-IsWord
          (λ s e. (h.port s e).0)
          (All-optional (codes "ipset") r.ipset (codes "to" ∷ r.mask ∷ []) ipset-IsWord h.ipset
            last)) in
    rule_steps (print_rule r) (target_word r.target) _ r.target r
      (lowered_text (target_word r.target) _ (target_word-IsWord r.target, words))
      (read_target-printed r.target)
      (read_rest-printed r.target r.protocol r.mask h.protocol h.mask r.port r.ipset h.port h.ipset)
