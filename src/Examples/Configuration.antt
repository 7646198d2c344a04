-- ===== src/Examples/Configuration.antt =====
-- The theorems about config_read of src/conf.c at a small file.
use nodogsplash.Prelude.{Bool, List, [], none, refl, some, true, ◌∷◌, ◌≡◌}
use nodogsplash.CString.{CString, codes, has_prefix, str_case_eq, str_eq}
use nodogsplash.Conf.DebugLevel.{skip_spaces}
use nodogsplash.Conf.Lines.{is_blank}
use nodogsplash.Conf.Loop.{config_read-IsSane, five_names}
use nodogsplash.Conf.Options.{Settings}
use nodogsplash.Conf.Printing.{IsWord}
use nodogsplash.Conf.Reading.{Buffer, Reading, config_read, done, exited, out_of_fuel}
use nodogsplash.Conf.RuleRoundtrip.{IsCanonical, print_rule, rule_roundtrip}
use nodogsplash.Conf.Rulesets.{
  FirewallRule, get_ruleset, has_ports, is_mask, is_port, read_rule, starts_protocol, target_accept,
}
use nodogsplash.Conf.Startup.{config_init, default_rulesets}
use nodogsplash.Conf.Whole.{IsSane}
use nodogsplash.Examples.{calm}

abbrev runs : CString → Bool
runs path = true

-- A line behind which the buffer holds nothing.
abbrev line : CString → Buffer
line s = record { bytes = s; stale = [] }

abbrev sample_file : List Buffer
sample_file =
    line (codes "FirewallRuleSet users-to-router {")
    ∷ line (codes "FirewallRule allow udp port 53 # DNS")
    ∷ line (codes "}")
    ∷ line (codes "MaxClients 10")
    ∷ []

abbrev settings_of : Reading → Settings
settings_of (done s) = s
settings_of exited = config_init
settings_of out_of_fuel = config_init

config_read-IsSane_example :
    IsSane five_names (settings_of (config_read calm runs config_init (some sample_file)))
unfolding config_read str_case_eq get_ruleset default_rulesets str_eq has_prefix skip_spaces
config_read-IsSane_example =
    config_read-IsSane calm runs sample_file
      (settings_of (config_read calm runs config_init (some sample_file))) refl

abbrev dns_rule : FirewallRule
dns_rule = record {
  target = target_accept;
  protocol = some (codes "udp");
  port = some (codes "53");
  mask = codes "10.0.0.0/8";
  ipset = none;
}

udp-IsWord : IsWord (codes "udp")
unfolding is_blank
udp-IsWord = record {
  filled = (b'u', codes "dp", refl);
  unbroken = (refl, (refl, (refl, tt)));
  lower = (refl, (refl, (refl, tt)));
}

port-IsWord : IsWord (codes "53")
unfolding is_blank
port-IsWord = record {
  filled = (b'5', codes "3", refl);
  unbroken = (refl, (refl, tt));
  lower = (refl, (refl, tt));
}

mask-IsWord : IsWord (codes "10.0.0.0/8")
unfolding is_blank
mask-IsWord = record {
  filled = (b'1', codes "0.0.0.0/8", refl);
  unbroken = (refl, (refl, (refl, (refl, (refl, (refl, (refl, (refl, (refl, (refl, tt))))))))));
  lower = (refl, (refl, (refl, (refl, (refl, (refl, (refl, (refl, (refl, (refl, tt))))))))));
}

dns_rule-IsCanonical : IsCanonical dns_rule
unfolding starts_protocol is_port is_mask has_ports has_prefix
dns_rule-IsCanonical = record {
  protocol = λ s e. let same : s ≡ codes "udp" = cc in rw same (udp-IsWord, refl);
  port = λ s e. let same : s ≡ codes "53" = cc in rw same (port-IsWord, refl, refl);
  ipset = λ s e. cc;
  mask = (mask-IsWord, refl);
}

rule_roundtrip_example : read_rule (print_rule dns_rule) ≡ some dns_rule
rule_roundtrip_example = rule_roundtrip dns_rule dns_rule-IsCanonical
