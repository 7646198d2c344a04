-- ===== src/Conf/Loop.antt =====
-- The loop of config_read in src/conf.c over the lines of the file.
use nodogsplash.Prelude.{
  Bool, List, Option, Option-cases, [], arith, inl, inr, length, none, refl, some, suc, sym, zero,
  ℕ, ◌<◌, ◌∙◌, ◌∷◌, ◌≡◌, ◌≢◌, ◌⊎◌,
}
use nodogsplash.CString.{CString, codes, str_eq}
use nodogsplash.Conf.Accepted.{read_rules-legal, read_rules-length}
use nodogsplash.Conf.Apply.{apply_option}
use nodogsplash.Conf.Legal.{accepts, rejects, returns}
use nodogsplash.Conf.Lines.{is_blank, strip_whitespace, take_until}
use nodogsplash.Conf.Options.{Opcode, Settings}
use nodogsplash.Conf.Reading.{
  Buffer, FileLine, after_option, begins, behind_line, config_line, config_read, done, exits,
  file_line, option_line, out_of_fuel, parse_firewall_ruleset, read_lines, read_rules, sets,
}
use nodogsplash.Conf.Rulesets.{Ruleset, add_ruleset, get_ruleset, update_ruleset}
use nodogsplash.Conf.Sane.{option-HasSaneNumbers}
use nodogsplash.Conf.Startup.{config_init, default_rulesets}
use nodogsplash.Conf.Whole.{IsSane, option-AreLegal}
use nodogsplash.World.{Env}

FileLine-cases :
    (r : FileLine)
    → ((s : Settings) × (r ≡ sets s)) ⊎ (((arg : CString) × (r ≡ begins arg)) ⊎ (r ≡ exits))
FileLine-cases (sets s) = inl (s, refl)
FileLine-cases (begins arg) = inr (inl (arg, refl))
FileLine-cases exits = inr (inr refl)

begins_step :
    (env : Env) (executable : CString → Bool) (fuel : ℕ) (s : Settings) (line : Buffer)
    (lines rest : List Buffer) (rs : List Ruleset) (arg : CString)
    → config_line env executable s line ≡ begins arg
    → parse_firewall_ruleset s.rulesets arg lines ≡ some (rs, rest)
    → read_lines env executable (suc fuel) s (line ∷ lines)
      ≡ read_lines env executable fuel (record s { rulesets = rs }) rest
unfolding read_lines
begins_step env executable fuel s line lines rest rs arg opens parsed =
    rw (read_lines, opens) (rw parsed refl)

-- A ruleset is read from the lines of the file.
ruleset_is_read :
    (rs rs' : List Ruleset) (arg : CString) (lines rest : List Buffer)
    → parse_firewall_ruleset rs arg lines ≡ some (rs', rest)
    → read_rules rs (take_until is_blank arg) lines ≡ some (rs', rest)
unfolding parse_firewall_ruleset
ruleset_is_read rs rs' arg lines rest e =
    elim (Option-cases (get_ruleset rs (take_until is_blank arg))) [
      | inl failed ↦ cc (rw (parse_firewall_ruleset, failed) at e)
      | inr (r, found) ↦ rw (parse_firewall_ruleset, found) at e
    ]

module _ (ns : List CString) (env : Env) (executable : CString → Bool) where
  option_line-IsSane :
      (behind : CString) (s s' : Settings) (op : Opcode) (arg : Option CString)
      → IsSane ns s
      → option_line env executable behind s op arg ≡ sets s'
      → IsSane ns s'
  unfolding option_line after_option
  option_line-IsSane behind s s' op none h e = cc
  option_line-IsSane behind s s' op (some arg) h e =
      elim (Option-cases (apply_option env executable behind s op arg)) [
        | inl failed ↦ absurd (ground (arith, failed))
        | inr (s1, applied) ↦
            let same : s' ≡ s1 = ground (arith, applied) in
            rw same (record {
              numbers = option-HasSaneNumbers env executable behind s op arg s1 h.numbers applied;
              legal = option-AreLegal ns env executable behind s s1 op arg h.legal applied;
            })
      ]

  file_line-IsSane :
      (behind : CString) (s s' : Settings) (text : CString)
      → IsSane ns s
      → file_line env executable behind s text ≡ sets s'
      → IsSane ns s'
  unfolding file_line
  file_line-IsSane behind s s' [] h e = let same : s' ≡ s = ground arith in rw same h
  file_line-IsSane behind s s' (c ∷ t) h e = option_line-IsSane behind s s' _ _ h e

  config_line-IsSane :
      (s s' : Settings) (line : Buffer)
      → IsSane ns s
      → config_line env executable s line ≡ sets s'
      → IsSane ns s'
  unfolding config_line
  config_line-IsSane s s' line h e =
      file_line-IsSane (behind_line line) s s' (strip_whitespace line.bytes) h e

  read_lines-IsSane :
      (fuel : ℕ) (s s' : Settings) (lines : List Buffer)
      → IsSane ns s
      → read_lines env executable fuel s lines ≡ done s'
      → IsSane ns s'
  unfolding read_lines
  read_lines-IsSane zero s s' lines h e = cc
  read_lines-IsSane (suc fuel) s s' [] h e = let same : s' ≡ s = ground arith in rw same h
  read_lines-IsSane (suc fuel) s s' (line ∷ lines) h e =
      elim (FileLine-cases (config_line env executable s line)) [
        | inl (s1, goes) ↦
            read_lines-IsSane fuel s1 s' lines (config_line-IsSane s s1 line h goes)
              (rw (read_lines, goes) at e)
        | inr (inl (arg, opens)) ↦
            elim (Option-cases (parse_firewall_ruleset s.rulesets arg lines)) [
              | inl failed ↦ absurd (ground (arith, opens, failed))
              | inr ((rs, rest), parsed) ↦
                  read_lines-IsSane fuel (record s { rulesets = rs }) s' rest
                    (record {
                      numbers = h.numbers;
                      legal =
                          read_rules-legal ns lines rest s.rulesets rs (take_until is_blank arg)
                            h.legal (ruleset_is_read s.rulesets rs arg lines rest parsed);
                    })
                    (sym (begins_step env executable fuel s line lines rest rs arg opens parsed)
                      ∙ e)
            ]
        | inr (inr bad) ↦ cc (rw (read_lines, bad) at e)
      ]

-- The names of the five rulesets.
abbrev pub five_names : List CString
five_names =
    codes "preauthenticated-users"
    ∷ codes "authenticated-users"
    ∷ codes "users-to-router"
    ∷ codes "trusted-users-to-router"
    ∷ codes "trusted-users"
    ∷ []

config_init-IsSane : IsSane five_names config_init
unfolding default_rulesets update_ruleset add_ruleset get_ruleset str_eq
config_init-IsSane = record {
  numbers = omega arith;
  legal = (
    (
      record { rules = tt; policy = rejects refl },
      (
        record { rules = tt; policy = returns refl },
        (
          record { rules = tt; policy = rejects refl },
          (
            record { rules = tt; policy = accepts refl },
            (record { rules = tt; policy = accepts refl }, tt),
          ),
        ),
      ),
    ),
    refl,
  );
}

module _ (env : Env) (executable : CString → Bool) where
  fuel_suffices :
      (fuel : ℕ) (s : Settings) (lines : List Buffer)
      → length lines < fuel
      → read_lines env executable fuel s lines ≢ out_of_fuel
  unfolding read_lines
  fuel_suffices zero s lines h e = absurd (omega arith)
  fuel_suffices (suc fuel) s [] h e = cc
  fuel_suffices (suc fuel) s (line ∷ lines) h e =
      elim (FileLine-cases (config_line env executable s line)) [
        | inl (s1, goes) ↦ fuel_suffices fuel s1 lines (omega arith) (rw (read_lines, goes) at e)
        | inr (inl (arg, opens)) ↦
            elim (Option-cases (parse_firewall_ruleset s.rulesets arg lines)) [
              | inl failed ↦ absurd (ground (arith, opens, failed))
              | inr ((rs, rest), parsed) ↦
                  fuel_suffices fuel (record s { rulesets = rs }) rest
                    (omega (
                      arith,
                      read_rules-length lines rest s.rulesets rs (take_until is_blank arg)
                          (ruleset_is_read s.rulesets rs arg lines rest parsed),
                    ))
                    (sym (begins_step env executable fuel s line lines rest rs arg opens parsed)
                      ∙ e)
            ]
        | inr (inr bad) ↦ cc (rw (read_lines, bad) at e)
      ]

  -- config_read ends on every file: each round reads a line of it, also where a ruleset is read.
  config_read_terminates :
      (s : Settings) (file : Option (List Buffer)) → config_read env executable s file ≢ out_of_fuel
  unfolding config_read
  config_read_terminates s none e = cc
  config_read_terminates s (some lines) e =
      fuel_suffices (suc (length lines)) s lines (omega arith) e

  -- A configuration file that config_read accepts leaves the marks set and pairwise different, the
  -- check interval and the limit of clients positive, the session timeout, the two idle timeouts, the
  -- rate limits and the number of the upload device not negative, the level of the log at most 3, and
  -- the five rulesets under their names, each with an iptables target as its policy and with legal
  -- rules only: ports of digits and colons that stand with tcp or udp, and masks of digits, dots and
  -- slashes.
  pub config_read-IsSane :
      (lines : List Buffer) (s : Settings)
      → config_read env executable config_init (some lines) ≡ done s
      → IsSane five_names s
  unfolding config_read
  config_read-IsSane lines s e =
      read_lines-IsSane five_names env executable (suc (length lines)) config_init s lines
        config_init-IsSane e
