-- ===== src/Examples/Chains.antt =====
-- The theorems about the chains of src/fw_iptables.c at small rulesets and listings.
use nodogsplash.Prelude.{
  List, Option, [], arith, drop, false, none, refl, some, suc, take, true, ℕ, ◌<◌, ◌==◌, ◌∷◌, ◌≡◌,
}
use nodogsplash.CString.{CString, codes, has_prefix}
use nodogsplash.Conf.DebugLevel.{starts_digit}
use nodogsplash.Conf.Options.{Settings}
use nodogsplash.Conf.Rulesets.{FirewallRule, target_accept}
use nodogsplash.Conf.Startup.{config_init}
use nodogsplash.Examples.{calm, sample_config, sample_marks, world_waiting}
use nodogsplash.Firewall.{iptables_do_command, retry_command}
use nodogsplash.Firewall.Decides.{to_internet_decides}
use nodogsplash.Firewall.Filter.{filter_commands}
use nodogsplash.Firewall.Forgotten.{destroy_mention_forgets, failing_delete_recurses}
use nodogsplash.Firewall.Packets.{Packet}
use nodogsplash.Firewall.Promise.{chain_verdict, internet_verdict}
use nodogsplash.Firewall.Rules.{iptables_compile, iptables_compile_lem, rule_text}
use nodogsplash.Firewall.Start.{MarkStyle}
use nodogsplash.Firewall.Teardown.{
  contains, entries, find_mention, iptables_fw_destroy_mention, mentions,
}
use nodogsplash.Netfilter.{Chain, Table, delete_number, mangle_table, prerouting, to_internet}
use nodogsplash.World.{Command, World, run_command, set_up}

abbrev web_rule : FirewallRule
web_rule = record {
  target = target_accept;
  protocol = some (codes "tcp");
  port = some (codes "80");
  mask = codes "0.0.0.0/0";
  ipset = none;
}

-- Authenticated users have the rule, and trusted users a policy.
abbrev two_groups : Settings
two_groups = record config_init {
  rulesets =
      record {
        name = codes "authenticated-users";
        emptyrulesetpolicy = none;
        rules = web_rule ∷ [];
      }
      ∷ record {
        name = codes "trusted-users";
        emptyrulesetpolicy = some (codes "ACCEPT");
        rules = [];
      }
      ∷ [];
}

-- A new connection of an authenticated client to a web server.
abbrev web_packet : Packet
web_packet = record {
  comes = λ interface range. true;
  goes = λ interface range. true;
  carries = λ mark mask. mark == sample_marks.authenticated;
  invalid = false;
  established = false;
  bogus = false;
  syn = true;
  to_port = λ n. n == 80;
  fits = λ r. true;
}

abbrev masked : MarkStyle
masked = record { or_mark = true; mask = some 458752 }

to_internet_decides_example :
    chain_verdict
      (filter_commands sample_marks masked sample_config two_groups)
      web_packet
      to_internet
    ≡ internet_verdict sample_marks masked.mask two_groups.rulesets web_packet
to_internet_decides_example =
    to_internet_decides sample_marks masked sample_config two_groups web_packet

abbrev heading : CString
heading = codes "num pkts bytes target"

abbrev mention_line : CString
mention_line = codes "1 0 0 ndsOUT"

-- A listing with two mentions, of which every command takes one away.
abbrev lines_left : List (Command × ℕ) → List CString
lines_left [] = heading ∷ heading ∷ mention_line ∷ mention_line ∷ []
lines_left (_ ∷ []) = heading ∷ heading ∷ mention_line ∷ []
lines_left (_ ∷ _ ∷ _) = heading ∷ heading ∷ []

abbrev shrinking : World → Table → Chain → Option (List CString)
shrinking w t c = some (lines_left w.commands)

abbrev stuck : World → Table → Chain → Option (List CString)
stuck w t c = some (heading ∷ heading ∷ mention_line ∷ [])

shrinking_shrinks :
    (history : List (Command × ℕ)) (cmd : Command) (rc n : ℕ)
    → find_mention (codes "ndsOUT") (drop 2 (lines_left history)) ≡ some n
    → mentions (codes "ndsOUT") (drop 2 (lines_left ((cmd, rc) ∷ history)))
      < mentions (codes "ndsOUT") (drop 2 (lines_left history))
unfolding find_mention mentions contains starts_digit has_prefix
shrinking_shrinks [] cmd rc n h = ground arith
shrinking_shrinks (a ∷ []) cmd rc n h = ground arith
shrinking_shrinks (a ∷ b ∷ l) cmd rc n h = cc

destroy_mention_forgets_example :
    (w' : World) × (rc : ℕ) × (iptables_fw_destroy_mention calm shrinking
        (suc (
          mentions (codes "ndsOUT") (entries calm shrinking world_waiting mangle_table prerouting)))
        world_waiting
        mangle_table
        prerouting
        (codes "ndsOUT")
      ≡ some (w', rc))
    × (find_mention (codes "ndsOUT") (entries calm shrinking w' mangle_table prerouting) ≡ none)
unfolding entries iptables_do_command retry_command run_command
destroy_mention_forgets_example =
    destroy_mention_forgets calm shrinking mangle_table prerouting (codes "ndsOUT")
      (λ w n h.
        shrinking_shrinks w.commands (set_up (delete_number mangle_table prerouting n)) 0 n h)
      world_waiting

failing_delete_recurses_example :
    iptables_fw_destroy_mention calm stuck 3 world_waiting mangle_table prerouting (codes "ndsOUT")
    ≡ none
unfolding find_mention contains has_prefix entries
failing_delete_recurses_example =
    failing_delete_recurses calm stuck mangle_table prerouting (codes "ndsOUT") 1 (λ w. refl) 3
      world_waiting

iptables_compile_lem_example :
    iptables_compile (codes "filter") (codes "ndsNET") web_rule
    ≡ take 4095 (rule_text (codes "filter") (codes "ndsNET") web_rule)
iptables_compile_lem_example = iptables_compile_lem (codes "filter") (codes "ndsNET") web_rule

compiled_rule_test :
    iptables_compile (codes "filter") (codes "ndsNET") web_rule
    ≡ codes "-t filter -A ndsNET -d 0.0.0.0/0 -p tcp --dport 80 -j ACCEPT"
unfolding iptables_compile
compiled_rule_test = refl
