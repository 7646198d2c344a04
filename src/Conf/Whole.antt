-- ===== src/Conf/Whole.antt =====
-- config_read of src/conf.c on a whole file.
use nodogsplash.Prelude.{Bool, Bool-cases, List, Option, arith, inl, inr, none, refl, some, ℕ, ◌≡◌}
use nodogsplash.CString.{CString}
use nodogsplash.Conf.Accepted.{AreLegal, policy-legal}
use nodogsplash.Conf.Apply.{
  apply_option, number_option, parse_empty_ruleset_policy, with_config, with_rulesets,
}
use nodogsplash.Conf.Options.{Opcode, Settings}
use nodogsplash.Conf.Rulesets.{Ruleset}
use nodogsplash.Conf.Sane.{HasSaneNumbers}
use nodogsplash.Conf.Scan.{parse_boolean, scan_d, scan_i, scan_u, scan_x}
use nodogsplash.Config.{Config}
use nodogsplash.World.{Env}

-- What the file leaves: numbers in range, and the five rulesets with legal rules and policies.
pub record IsSane (ns : List CString) (s : Settings) : Type 0 where
  pub numbers : HasSaneNumbers s.config
  pub legal : AreLegal ns s.rulesets

module _ (ns : List CString) (env : Env) (executable : CString → Bool) where
  with_rulesets-legal :
      (s s' : Settings) (r : Option (List Ruleset))
      → ((rs : List Ruleset) → r ≡ some rs → AreLegal ns rs)
      → with_rulesets s r ≡ some s'
      → AreLegal ns s'.rulesets
  unfolding with_rulesets
  with_rulesets-legal s s' none keep e = cc
  with_rulesets-legal s s' (some rs) keep e =
      let same : s' ≡ record s { rulesets = rs } = ground arith in rw same (keep rs refl)

  with_config-rulesets :
      (s s' : Settings) (r : Option Config) → with_config s r ≡ some s' → s'.rulesets ≡ s.rulesets
  unfolding with_config
  with_config-rulesets s s' none e = cc
  with_config-rulesets s s' (some c) e =
      let same : s' ≡ record s { config = c } = ground arith in rw same refl

  number-rulesets :
      (r : Option ℕ) (refuse : ℕ → Bool) (set : ℕ → Settings) (s s' : Settings)
      → ((n : ℕ) → (set n).rulesets ≡ s.rulesets)
      → number_option r refuse set ≡ some s'
      → s'.rulesets ≡ s.rulesets
  unfolding number_option
  number-rulesets none refuse set s s' keep e = cc
  number-rulesets (some n) refuse set s s' keep e = elim (Bool-cases (refuse n)) [
    | inl bad ↦ absurd (ground (arith, bad))
    | inr good ↦ let same : s' ≡ set n = ground (arith, good) in rw same (keep n)
  ]

  pub option-AreLegal :
      (behind : CString) (s s' : Settings) (op : Opcode) (arg : CString)
      → AreLegal ns s.rulesets
      → apply_option env executable behind s op arg ≡ some s'
      → AreLegal ns s'.rulesets
  unfolding apply_option
  option-AreLegal behind s s' Opcode.empty_ruleset_policy arg h e =
      with_rulesets-legal s s' (parse_empty_ruleset_policy s.rulesets arg behind)
        (λ rs parsed. policy-legal ns s.rulesets rs arg behind h parsed) e
  option-AreLegal behind s s' Opcode.session_timeout arg h e =
      rw (number-rulesets (scan_d arg) _ _ s s' (λ n. refl) e) h
  option-AreLegal behind s s' Opcode.session_timeout_block arg h e =
      rw (number-rulesets (scan_u arg) _ _ s s' (λ n. refl) e) h
  option-AreLegal behind s s' Opcode.debug_level arg h e =
      rw (number-rulesets (scan_d arg) _ _ s s' (λ n. refl) e) h
  option-AreLegal behind s s' Opcode.max_clients arg h e =
      rw (number-rulesets (scan_d arg) _ _ s s' (λ n. refl) e) h
  option-AreLegal behind s s' Opcode.gateway_port arg h e =
      rw (number-rulesets (scan_u arg) _ _ s s' (λ n. refl) e) h
  option-AreLegal behind s s' Opcode.preauth_idle_timeout arg h e =
      rw (number-rulesets (scan_d arg) _ _ s s' (λ n. refl) e) h
  option-AreLegal behind s s' Opcode.auth_idle_timeout arg h e =
      rw (number-rulesets (scan_d arg) _ _ s s' (λ n. refl) e) h
  option-AreLegal behind s s' Opcode.check_interval arg h e =
      rw (number-rulesets (scan_i arg) _ _ s s' (λ n. refl) e) h
  option-AreLegal behind s s' Opcode.set_mss arg h e =
      rw (number-rulesets (parse_boolean arg) _ _ s s' (λ n. refl) e) h
  option-AreLegal behind s s' Opcode.mss_value arg h e =
      rw (number-rulesets (scan_d arg) _ _ s s' (λ n. refl) e) h
  option-AreLegal behind s s' Opcode.traffic_control arg h e =
      rw (number-rulesets (parse_boolean arg) _ _ s s' (λ n. refl) e) h
  option-AreLegal behind s s' Opcode.download_limit arg h e =
      rw (number-rulesets (scan_d arg) _ _ s s' (λ n. refl) e) h
  option-AreLegal behind s s' Opcode.upload_limit arg h e =
      rw (number-rulesets (scan_d arg) _ _ s s' (λ n. refl) e) h
  option-AreLegal behind s s' Opcode.upload_ifb arg h e =
      rw (number-rulesets (scan_d arg) _ _ s s' (λ n. refl) e) h
  option-AreLegal behind s s' Opcode.syslog_facility arg h e =
      rw (number-rulesets (scan_d arg) _ _ s s' (λ n. refl) e) h
  option-AreLegal behind s s' Opcode.fw_mark_authenticated arg h e =
      rw (number-rulesets (scan_x arg) _ _ s s' (λ n. refl) e) h
  option-AreLegal behind s s' Opcode.fw_mark_trusted arg h e =
      rw (number-rulesets (scan_x arg) _ _ s s' (λ n. refl) e) h
  option-AreLegal behind s s' Opcode.fw_mark_blocked arg h e =
      rw (number-rulesets (scan_x arg) _ _ s s' (λ n. refl) e) h
  option-AreLegal behind s s' Opcode.trusted_mac_list arg h e = rw (with_config-rulesets s s' _ e) h
  option-AreLegal behind s s' Opcode.blocked_mac_list arg h e = rw (with_config-rulesets s s' _ e) h
  option-AreLegal behind s s' Opcode.allowed_mac_list arg h e = rw (with_config-rulesets s s' _ e) h
  option-AreLegal behind s s' op arg h e =
      let same : s'.rulesets ≡ s.rulesets = ground arith in rw same h
