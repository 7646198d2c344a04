-- ===== src/Conf/Legal.antt =====
-- The rulesets that the parsers of src/conf.c build: the rules and policies that src/fw_iptables.c
-- turns into commands.
use nodogsplash.Prelude.{
  All, Bool-cases, Option, Option-cases, [], ap, arith, false, inl, inr, map, refl, some, subst,
  true, ◌&&◌, ◌==◌, ◌∙◌, ◌∷◌, ◌≡◌,
}
use nodogsplash.CString.{CString, codes, has_prefix, to_lower}
use nodogsplash.Conf.Lines.{Free, Words, is_blank, next_word, take_until}
use nodogsplash.Conf.Rulesets.{
  FirewallRule, Ruleset, Target, has_ports, is_mask, is_port, read_ipset, read_mask, read_port,
  read_protocol, read_rest, read_rule, read_target, starts_protocol,
}

-- Ports only with tcp or udp and of digits and colons, masks of digits, dots and slashes.
pub record IsLegalRule (r : FirewallRule) : Type 0 where
  pub ports :
      (port : CString) → r.port ≡ some port → (is_port port ≡ true) × (has_ports r.protocol ≡ true)
  pub masked : is_mask r.mask ≡ true
  pub protocols : (s : CString) → r.protocol ≡ some s → starts_protocol s ≡ true

-- What an empty ruleset does is one of three iptables targets.
pub data IsPolicy : Option CString → Type 0 where
  returns : {p : Option CString} → p ≡ some (codes "RETURN") → IsPolicy p
  accepts : {p : Option CString} → p ≡ some (codes "ACCEPT") → IsPolicy p
  rejects : {p : Option CString} → p ≡ some (codes "REJECT") → IsPolicy p

pub record IsLegalRuleset (r : Ruleset) : Type 0 where
  pub rules : All IsLegalRule r.rules
  pub policy : IsPolicy r.emptyrulesetpolicy

-- next_word does not change what a prefix test of the first word says: the protocol words have no
-- blank.
read_port-legal :
    (protocol : Option CString) (w : Words) (port : Option CString) (w' : Words)
    → read_port protocol w ≡ some (port, w')
    → (p : CString) → port ≡ some p
    → (is_port p ≡ true) × (has_ports protocol ≡ true)
unfolding read_port
read_port-legal protocol w port w' e p f = ground (arith)

read_mask-legal : (w : Words) (mask : CString) → read_mask w ≡ some mask → is_mask mask ≡ true
unfolding read_mask is_mask
read_mask-legal w mask e = ground arith

pub prefix_of_word :
    (p s : CString) → Free is_blank p → has_prefix (take_until is_blank s) p ≡ has_prefix s p
unfolding has_prefix take_until
prefix_of_word [] s free = refl
prefix_of_word (y ∷ ys) [] free = refl
prefix_of_word (y ∷ ys) (x ∷ xs) free = elim (Bool-cases (is_blank x)) [
  | inl blank ↦ rw blank (elim (Bool-cases (x == y)) [
    | inl same ↦
        let e : x ≡ y = ground (arith, same) in
        absurd (ground (arith, subst (λ c. is_blank c ≡ true) e blank, free.0))
    | inr other ↦ rw other refl
  ])
  | inr letter ↦ rw letter (ap (λ b. (x == y) && b) (prefix_of_word ys xs free.1))
]

pub protocol_of_word : (s : CString) → starts_protocol (take_until is_blank s) ≡ starts_protocol s
unfolding starts_protocol is_blank
protocol_of_word s =
    rw
      (
        prefix_of_word (codes "tcp") s (refl, (refl, (refl, tt))),
        prefix_of_word (codes "udp") s (refl, (refl, (refl, tt))),
        prefix_of_word (codes "all") s (refl, (refl, (refl, tt))),
        prefix_of_word (codes "icmp") s (refl, (refl, (refl, (refl, tt)))),
      )
      refl

read_protocol-legal :
    (w : Words) (s : CString) → (read_protocol w).0 ≡ some s → starts_protocol s ≡ true
unfolding read_protocol next_word
read_protocol-legal w s e = elim (Bool-cases (starts_protocol w.left)) [
  | inl starts ↦
      let e' : some (take_until is_blank w.left) ≡ some s = rw (read_protocol, starts) at e in
      let same : take_until is_blank w.left ≡ s = ground arith in
      rw (← same) (protocol_of_word w.left ∙ starts)
  | inr other ↦ cc (rw (read_protocol, other) at e)
]

read_rest-legal :
    (target : Target) (w : Words) (r : FirewallRule) → read_rest target w ≡ some r → IsLegalRule r
unfolding read_rest
read_rest-legal target w r e =
    let (protocol, w1) = read_protocol w in
    elim (Option-cases (read_port protocol w1)) [
      | inl failed ↦ cc (rw (read_rest, failed) at e)
      | inr ((port, w2), ported) ↦
          let (ipset, w3) = read_ipset w2 in
          elim (Option-cases (read_mask w3)) [
            | inl failed ↦ absurd (ground (arith, ported, failed))
            | inr (mask, masked) ↦
                let same : r ≡ record {
                  target = target;
                  protocol = protocol;
                  port = port;
                  mask = mask;
                  ipset = ipset;
                } =
                  ground (arith, ported, masked) in
                rw same (record {
                  ports = read_port-legal protocol w1 port w2 ported;
                  masked = read_mask-legal w3 mask masked;
                  protocols = read_protocol-legal w;
                })
          ]
    ]

-- A rule that the parser accepts is legal, whatever the text: its port is of digits and colons and
-- stands with tcp or udp, its mask is of digits, dots and slashes, and its protocol starts with one of
-- the four words.
pub read_rule-legal : (s : CString) (r : FirewallRule) → read_rule s ≡ some r → IsLegalRule r
unfolding read_rule
read_rule-legal s r e =
    let (token, w) = next_word (record { left = map to_lower s; finished = false }) in
    elim (Option-cases (read_target token)) [
      | inl failed ↦ cc (rw (read_rule, failed) at e)
      | inr (target, found) ↦ read_rest-legal target w r (rw (read_rule, found) at e)
    ]
