-- ===== src/Conf/Sane.antt =====
-- The numbers of a configuration that config_read of src/conf.c lets pass.
use nodogsplash.Prelude.{
  Bool, Bool-cases, List, Option, [], arith, false, inl, inr, none, refl, some, ℕ, ◌<◌, ◌^◌, ◌≡◌,
  ◌≢◌, ◌≤◌,
}
use nodogsplash.CString.{CString}
use nodogsplash.Conf.Apply.{apply_option, number_option, with_config, with_rulesets}
use nodogsplash.Conf.MacList.{
  add_fields, add_to_allowed_mac_list, add_to_blocked_mac_list, add_to_trusted_mac_list,
  parse_allowed_mac_list, parse_blocked_mac_list, parse_trusted_mac_list, split_fields,
}
use nodogsplash.Conf.MacList.Unique.{add_fields-keeps}
use nodogsplash.Conf.Options.{Opcode, Settings}
use nodogsplash.Conf.Rulesets.{Ruleset}
use nodogsplash.Conf.Scan.{parse_boolean, scan_d, scan_i, scan_u, scan_x}
use nodogsplash.Config.{Config}
use nodogsplash.World.{Env}

-- The marks are set and pairwise different, the interval and the limit of clients are positive
-- ints, and the session timeout, the two idle timeouts, the rate limits and the number of the upload
-- device are not negative. The session blocks may be: they are scanned with %u and not checked.
pub record HasSaneNumbers (c : Config) : Type 0 where
  pub auth_set : c.fw_mark_authenticated ≢ 0
  pub blocked_set : c.fw_mark_blocked ≢ 0
  pub trusted_set : c.fw_mark_trusted ≢ 0
  pub auth_blocked : c.fw_mark_authenticated ≢ c.fw_mark_blocked
  pub auth_trusted : c.fw_mark_authenticated ≢ c.fw_mark_trusted
  pub blocked_trusted : c.fw_mark_blocked ≢ c.fw_mark_trusted
  pub interval : (0 < c.checkinterval) × (c.checkinterval < 2 ^ 31)
  pub clients : (0 < c.maxclients) × (c.maxclients < 2 ^ 31)
  pub timeouts :
      (c.session_timeout < 2 ^ 31)
      × (c.preauth_idle_timeout < 2 ^ 31)
      × (c.auth_idle_timeout < 2 ^ 31)
  pub limits : (c.download_limit < 2 ^ 31) × (c.upload_limit < 2 ^ 31) × (c.upload_ifb < 2 ^ 31)
  pub level : c.debuglevel ≤ 3

trusted-HasSaneNumbers :
    (env : Env) (c : Config) (mac : CString)
    → HasSaneNumbers c
    → HasSaneNumbers (add_to_trusted_mac_list env c mac).0
unfolding add_to_trusted_mac_list
trusted-HasSaneNumbers env c mac h = ground arith

blocked-HasSaneNumbers :
    (env : Env) (c : Config) (mac : CString)
    → HasSaneNumbers c
    → HasSaneNumbers (add_to_blocked_mac_list env c mac).0
unfolding add_to_blocked_mac_list
blocked-HasSaneNumbers env c mac h = ground arith

allowed-HasSaneNumbers :
    (env : Env) (c : Config) (mac : CString)
    → HasSaneNumbers c
    → HasSaneNumbers (add_to_allowed_mac_list env c mac).0
unfolding add_to_allowed_mac_list
allowed-HasSaneNumbers env c mac h = ground arith

with_config_sane :
    (s s' : Settings) (r : Option Config)
    → ((c : Config) → r ≡ some c → HasSaneNumbers c)
    → with_config s r ≡ some s'
    → HasSaneNumbers s'.config
unfolding with_config
with_config_sane s s' none keep e = cc
with_config_sane s s' (some c) keep e =
    let same : s' ≡ record s { config = c } = ground arith in rw same (keep c refl)

with_rulesets-config :
    (s s' : Settings) (r : Option (List Ruleset))
    → with_rulesets s r ≡ some s'
    → s'.config ≡ s.config
unfolding with_rulesets
with_rulesets-config s s' none e = cc
with_rulesets-config s s' (some rs) e =
    let same : s' ≡ record s { rulesets = rs } = ground arith in rw same refl

number_sane :
    (r : Option ℕ) (refuse : ℕ → Bool) (set : ℕ → Settings) (s' : Settings)
    → ((n : ℕ) → refuse n ≡ false → HasSaneNumbers (set n).config)
    → number_option r refuse set ≡ some s'
    → HasSaneNumbers s'.config
unfolding number_option
number_sane none refuse set s' keep e = cc
number_sane (some n) refuse set s' keep e = elim (Bool-cases (refuse n)) [
  | inl bad ↦ absurd (ground (arith, bad))
  | inr good ↦ let same : s' ≡ set n = ground (arith, good) in rw same (keep n good)
]

list-HasSaneNumbers :
    (s s' : Settings) (add : Config → CString → Config × ℕ) (fields : List CString)
    → ((c : Config) (mac : CString) → HasSaneNumbers c → HasSaneNumbers (add c mac).0)
    → HasSaneNumbers s.config
    → with_config s (add_fields add s.config fields) ≡ some s'
    → HasSaneNumbers s'.config
list-HasSaneNumbers s s' add fields keep h e =
    with_config_sane s s' _
      (λ c found. add_fields-keeps HasSaneNumbers add keep s.config fields c h found) e

module _ (env : Env) (executable : CString → Bool) (behind : CString) (s : Settings) where
  pub option-HasSaneNumbers :
      (op : Opcode) (arg : CString) (s' : Settings)
      → HasSaneNumbers s.config
      → apply_option env executable behind s op arg ≡ some s'
      → HasSaneNumbers s'.config
  unfolding apply_option parse_trusted_mac_list parse_blocked_mac_list parse_allowed_mac_list
  option-HasSaneNumbers Opcode.trusted_mac_list arg s' h e =
      list-HasSaneNumbers s s' (add_to_trusted_mac_list env) (split_fields [] arg)
        (trusted-HasSaneNumbers env) h e
  option-HasSaneNumbers Opcode.blocked_mac_list arg s' h e =
      list-HasSaneNumbers s s' (add_to_blocked_mac_list env) (split_fields [] arg)
        (blocked-HasSaneNumbers env) h e
  option-HasSaneNumbers Opcode.allowed_mac_list arg s' h e =
      list-HasSaneNumbers s s' (add_to_allowed_mac_list env) (split_fields [] arg)
        (allowed-HasSaneNumbers env) h e
  option-HasSaneNumbers Opcode.session_timeout arg s' h e =
      number_sane (scan_d arg) _ _ s' (λ n ok. ground arith) e
  option-HasSaneNumbers Opcode.session_timeout_block arg s' h e =
      number_sane (scan_u arg) _ _ s' (λ n ok. ground arith) e
  option-HasSaneNumbers Opcode.debug_level arg s' h e =
      number_sane (scan_d arg) _ _ s' (λ n ok. ground arith) e
  option-HasSaneNumbers Opcode.max_clients arg s' h e =
      number_sane (scan_d arg) _ _ s' (λ n ok. ground arith) e
  option-HasSaneNumbers Opcode.gateway_port arg s' h e =
      number_sane (scan_u arg) _ _ s' (λ n ok. ground arith) e
  option-HasSaneNumbers Opcode.preauth_idle_timeout arg s' h e =
      number_sane (scan_d arg) _ _ s' (λ n ok. ground arith) e
  option-HasSaneNumbers Opcode.auth_idle_timeout arg s' h e =
      number_sane (scan_d arg) _ _ s' (λ n ok. ground arith) e
  option-HasSaneNumbers Opcode.check_interval arg s' h e =
      number_sane (scan_i arg) _ _ s' (λ n ok. ground arith) e
  option-HasSaneNumbers Opcode.set_mss arg s' h e =
      number_sane (parse_boolean arg) _ _ s' (λ n ok. ground arith) e
  option-HasSaneNumbers Opcode.mss_value arg s' h e =
      number_sane (scan_d arg) _ _ s' (λ n ok. ground arith) e
  option-HasSaneNumbers Opcode.traffic_control arg s' h e =
      number_sane (parse_boolean arg) _ _ s' (λ n ok. ground arith) e
  option-HasSaneNumbers Opcode.download_limit arg s' h e =
      number_sane (scan_d arg) _ _ s' (λ n ok. ground arith) e
  option-HasSaneNumbers Opcode.upload_limit arg s' h e =
      number_sane (scan_d arg) _ _ s' (λ n ok. ground arith) e
  option-HasSaneNumbers Opcode.upload_ifb arg s' h e =
      number_sane (scan_d arg) _ _ s' (λ n ok. ground arith) e
  option-HasSaneNumbers Opcode.syslog_facility arg s' h e =
      number_sane (scan_d arg) _ _ s' (λ n ok. ground arith) e
  option-HasSaneNumbers Opcode.fw_mark_authenticated arg s' h e =
      number_sane (scan_x arg) _ _ s' (λ n ok. ground arith) e
  option-HasSaneNumbers Opcode.fw_mark_trusted arg s' h e =
      number_sane (scan_x arg) _ _ s' (λ n ok. ground arith) e
  option-HasSaneNumbers Opcode.fw_mark_blocked arg s' h e =
      number_sane (scan_x arg) _ _ s' (λ n ok. ground arith) e
  option-HasSaneNumbers Opcode.empty_ruleset_policy arg s' h e =
      rw (with_rulesets-config s s' _ e) h
  option-HasSaneNumbers op arg s' h e = ground arith
