-- ===== src/Conf/Accepted.antt =====
-- Every configuration that config_read of src/conf.c accepts: the loops over the lines.
use nodogsplash.Prelude.{
  All, All-append, Bool-cases, List, Option, Option-cases, [], ap, arith, inl, inr, length, map,
  none, refl, some, ◌++◌, ◌==◌, ◌∙◌, ◌∷◌, ◌≡◌, ◌≤◌, ◌⊎◌,
}
use nodogsplash.CString.{CString, codes, str_case_eq, str_eq}
use nodogsplash.Conf.Apply.{behind_name, parse_empty_ruleset_policy, read_policy}
use nodogsplash.Conf.Legal.{
  IsLegalRule, IsLegalRuleset, IsPolicy, accepts, read_rule-legal, rejects, returns,
}
use nodogsplash.Conf.Lines.{drop_until, is_blank, skip_blanks, strip_whitespace, take_until}
use nodogsplash.Conf.Reading.{
  Buffer, RulesetLine, after_rule, ends, fails, keeps, read_rules, rule_line, ruleset_line,
}
use nodogsplash.Conf.Rulesets.{Ruleset, get_ruleset, parse_firewall_rule, read_rule, update_ruleset}

-- A write to one ruleset that keeps a property of all.
pub update-All :
    {P : Ruleset → Type 0} (name : CString) (f : Ruleset → Ruleset) (rs : List Ruleset)
    → ((r : Ruleset) → P r → P (f r))
    → All P rs
    → All P (update_ruleset name f rs)
unfolding update_ruleset
update-All name f [] keep h = tt
update-All name f (r ∷ rs) keep h = elim (Bool-cases (str_eq r.name name)) [
  | inl hit ↦ rw hit (keep r h.0, h.1)
  | inr miss ↦ rw miss (h.0, update-All name f rs keep h.1)
]

-- The names of the rulesets do not change.
abbrev pub names : List Ruleset → List CString
names rs = map (λ r. r.name) rs

names-update :
    (name : CString) (f : Ruleset → Ruleset) (rs : List Ruleset)
    → ((r : Ruleset) → (f r).name ≡ r.name)
    → names (update_ruleset name f rs) ≡ names rs
unfolding update_ruleset
names-update name f [] same = refl
names-update name f (r ∷ rs) same = elim (Bool-cases (str_eq r.name name)) [
  | inl hit ↦ rw hit (ap (λ n. n ∷ names rs) (same r))
  | inr miss ↦ rw miss (ap (λ l. r.name ∷ l) (names-update name f rs same))
]

-- Legal rulesets under these names.
abbrev pub AreLegal : List CString → List Ruleset → Type 0
AreLegal ns rs = All IsLegalRuleset rs × (names rs ≡ ns)

read_policy-IsPolicy :
    (word policy : CString) → read_policy word ≡ some policy → IsPolicy (some policy)
unfolding read_policy
read_policy-IsPolicy word policy e = elim (Bool-cases (str_case_eq word (codes "passthrough"))) [
  | inl pass ↦ returns (ground (arith, pass))
  | inr not_one ↦ elim (Bool-cases (str_case_eq word (codes "allow"))) [
    | inl allows ↦ accepts (ground (arith, not_one, allows))
    | inr not_two ↦ elim (Bool-cases (str_case_eq word (codes "block"))) [
      | inl blocks ↦ rejects (ground (arith, not_one, not_two, blocks))
      | inr not_three ↦ absurd (ground (arith, not_one, not_two, not_three))
    ]
  ]
]

RulesetLine-cases :
    (r : RulesetLine) → (r ≡ ends) ⊎ (((rs : List Ruleset) × (r ≡ keeps rs)) ⊎ (r ≡ fails))
RulesetLine-cases ends = inl refl
RulesetLine-cases (keeps rs) = inr (inl (rs, refl))
RulesetLine-cases fails = inr (inr refl)

pub read_rules-length :
    (lines rest : List Buffer) (rs rs' : List Ruleset) (name : CString)
    → read_rules rs name lines ≡ some (rs', rest)
    → length rest ≤ length lines
unfolding read_rules
read_rules-length [] rest rs rs' name e =
    let same : rest ≡ [] = ground arith in rw same (omega arith)
read_rules-length (line ∷ lines) rest rs rs' name e =
    elim (RulesetLine-cases (ruleset_line rs name (strip_whitespace line.bytes))) [
      | inl closes ↦ let same : rest ≡ lines = ground (arith, closes) in rw same (omega arith)
      | inr (inl (rs1, goes)) ↦
          omega (arith, read_rules-length lines rest rs1 rs' name (rw (read_rules, goes) at e))
      | inr (inr bad) ↦ cc (rw (read_rules, bad) at e)
    ]

module _ (ns : List CString) where
  add_rule-legal :
      (rs rs' : List Ruleset) (name arg : CString)
      → AreLegal ns rs
      → parse_firewall_rule rs name arg ≡ some rs'
      → AreLegal ns rs'
  unfolding parse_firewall_rule
  add_rule-legal rs rs' name arg h e = elim (Option-cases (read_rule arg)) [
    | inl failed ↦ cc (rw (parse_firewall_rule, failed) at e)
    | inr (rule, found) ↦
        let same : rs' ≡ update_ruleset name (λ r. record r { rules = r.rules ++ rule ∷ [] }) rs =
          ground (arith, found) in
        rw same (
          update-All name _ rs
              (λ r legal. record {
                rules =
                    All-append IsLegalRule r.rules (rule ∷ []) legal.rules
                      (read_rule-legal arg rule found, tt);
                policy = legal.policy;
              })
              h.0,
          names-update name _ rs (λ r. refl) ∙ h.1,
        )
  ]

  pub policy-legal :
      (rs rs' : List Ruleset) (arg behind : CString)
      → AreLegal ns rs
      → parse_empty_ruleset_policy rs arg behind ≡ some rs'
      → AreLegal ns rs'
  unfolding parse_empty_ruleset_policy
  policy-legal rs rs' arg behind h e =
      let start = skip_blanks arg in
      let name = take_until is_blank start in
      let word =
        take_until is_blank (skip_blanks (behind_name (drop_until is_blank start) behind)) in
      elim (Option-cases (get_ruleset rs name)) [
        | inl failed ↦ cc (rw (parse_empty_ruleset_policy, failed) at e)
        | inr (r, found) ↦ elim (Option-cases (read_policy word)) [
          | inl failed ↦ absurd (ground (arith, found, failed))
          | inr (policy, known) ↦
              let same : rs'
                  ≡ update_ruleset name (λ r. record r { emptyrulesetpolicy = some policy }) rs =
                ground (arith, found, known) in
              rw same (
                update-All name _ rs
                    (λ r legal. record {
                      rules = legal.rules;
                      policy = read_policy-IsPolicy word policy known;
                    })
                    h.0,
                names-update name _ rs (λ r. refl) ∙ h.1,
              )
        ]
      ]

  rule_line-legal :
      (rs rs' : List Ruleset) (name word : CString) (arg : Option CString)
      → AreLegal ns rs
      → rule_line rs name word arg ≡ keeps rs'
      → AreLegal ns rs'
  unfolding rule_line after_rule
  rule_line-legal rs rs' name word none h e = cc
  rule_line-legal rs rs' name word (some arg) h e =
      elim (Option-cases (parse_firewall_rule rs name arg)) [
        | inl failed ↦ absurd (ground (arith, failed))
        | inr (rs1, parsed) ↦
            let same : rs' ≡ rs1 = ground (arith, parsed) in
            rw same (add_rule-legal rs rs1 name arg h parsed)
      ]

  ruleset_line-legal :
      (rs rs' : List Ruleset) (name s : CString)
      → AreLegal ns rs
      → ruleset_line rs name s ≡ keeps rs'
      → AreLegal ns rs'
  unfolding ruleset_line
  ruleset_line-legal rs rs' name [] h e = let same : rs' ≡ rs = ground arith in rw same h
  ruleset_line-legal rs rs' name (c ∷ s) h e = elim (Bool-cases (c == b'}')) [
    | inl brace ↦ cc (rw (ruleset_line, brace) at e)
    | inr other ↦ rule_line-legal rs rs' name _ _ h (rw (ruleset_line, other) at e)
  ]

  pub read_rules-legal :
      (lines rest : List Buffer) (rs rs' : List Ruleset) (name : CString)
      → AreLegal ns rs
      → read_rules rs name lines ≡ some (rs', rest)
      → AreLegal ns rs'
  unfolding read_rules
  read_rules-legal [] rest rs rs' name h e = let same : rs' ≡ rs = ground arith in rw same h
  read_rules-legal (line ∷ lines) rest rs rs' name h e =
      let s = strip_whitespace line.bytes in
      elim (RulesetLine-cases (ruleset_line rs name s)) [
        | inl closes ↦ let same : rs' ≡ rs = ground (arith, closes) in rw same h
        | inr (inl (rs1, goes)) ↦
            read_rules-legal lines rest rs1 rs' name (ruleset_line-legal rs rs1 name s h goes)
              (rw (read_rules, goes) at e)
        | inr (inr bad) ↦ cc (rw (read_rules, bad) at e)
      ]
