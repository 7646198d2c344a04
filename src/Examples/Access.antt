-- ===== src/Examples/Access.antt =====
-- The theorems about src/fw_iptables.c, src/tc.c and src/http_microhttpd_utils.c at concrete values.
use nodogsplash.Prelude.{
  List, Option, [], arith, if◌then◌else◌, leb, length, none, refl, some, take, true, ◌↔◌, ◌∷◌, ◌≡◌,
  ◌≢◌,
}
use nodogsplash.CString.{CString, codes, str_eq}
use nodogsplash.Daemon.{no_marks}
use nodogsplash.Examples.{
  calm, calm-IsReliable, ip_a, logged_on-IsWellFormed, sample_config, waiting, world_logged_on,
  world_waiting,
}
use nodogsplash.Firewall.{iptables_fw_authenticate, iptables_fw_deauthenticate}
use nodogsplash.Firewall.Counters.{Line, iptables_fw_counters_update}
use nodogsplash.Firewall.Counters.Grow.{WorldGrown}
use nodogsplash.Firewall.Counters.Update.{counters_update_grows}
use nodogsplash.Firewall.Installed.{deauthenticate-authenticate, installed}
use nodogsplash.Firewall.Marks.{start_marks, start_marks_succeeds}
use nodogsplash.Tc.{attach_commands, detach_commands}
use nodogsplash.Tc.Balance.{any_command, creates, detach_removes, removes, tc_class}
use nodogsplash.Template.{tmpl_parse}
use nodogsplash.Template.Expand.{expand, tmpl_parse_lem}
use nodogsplash.Url.{decoded, uh_urldecode, uh_urlencode}
use nodogsplash.Url.Bounds.{encoded, urlencode_lem}
use nodogsplash.Url.Roundtrip.{urldecode-urlencode}
use nodogsplash.World.{mark_incoming}

deauthenticate-authenticate_example :
    installed
      (mark_incoming ip_a)
      (iptables_fw_deauthenticate calm
        (iptables_fw_authenticate calm world_waiting waiting).0
        waiting).0.commands
    ≡ installed (mark_incoming ip_a) world_waiting.commands
deauthenticate-authenticate_example =
    deauthenticate-authenticate calm world_waiting waiting (mark_incoming ip_a) calm-IsReliable

abbrev busy_line : Line
busy_line = record { bytes = 5000; target = codes "MARK"; ip = ip_a }

counters_update_grows_example :
    WorldGrown world_logged_on
      (iptables_fw_counters_update calm world_logged_on (some (busy_line ∷ [])) (some [])).0
counters_update_grows_example =
    counters_update_grows calm world_logged_on (some (busy_line ∷ [])) (some [])
      logged_on-IsWellFormed

start_marks_succeeds_example : ((start_marks sample_config no_marks 0).1 ≡ 0) ↔ (
    ((sample_config.fw_mark_blocked ≢ sample_config.fw_mark_trusted)
      × (sample_config.fw_mark_trusted ≢ sample_config.fw_mark_authenticated)
      × (sample_config.fw_mark_authenticated ≢ sample_config.fw_mark_blocked))
    × ((sample_config.fw_mark_blocked ≢ 0)
        × (sample_config.fw_mark_trusted ≢ 0)
        × (sample_config.fw_mark_authenticated ≢ 0)))
start_marks_succeeds_example = start_marks_succeeds sample_config no_marks 0

detach_removes_example :
    any_command
      (removes (tc_class (codes "br-lan") 14))
      (detach_commands (codes "br-lan") 800 (codes "ifb0") 400 1)
    ≡ true
unfolding any_command creates attach_commands str_eq
detach_removes_example =
    detach_removes (tc_class (codes "br-lan") 14) sample_config (codes "br-lan") 800 (codes "ifb0")
      400 1 ip_a (omega arith) (omega arith) refl

urlencode_lem_example :
    uh_urlencode 8 (codes "a b&c")
    ≡ (if leb (length (encoded (codes "a b&c"))) 8 then some (encoded (codes "a b&c")) else none)
urlencode_lem_example = urlencode_lem 8 (codes "a b&c")

urldecode-urlencode_example : uh_urldecode 5 (codes "a%20b%26c") ≡ decoded (codes "a b&c")
unfolding uh_urlencode
urldecode-urlencode_example =
    urldecode-urlencode 9 5 (codes "a b&c") (codes "a%20b%26c") (omega arith) refl (omega arith)

abbrev sample_vars : List (CString × Option CString)
sample_vars = (codes "tok", some (codes "0123abcd")) ∷ (codes "redir", none) ∷ []

tmpl_parse_lem_example :
    tmpl_parse sample_vars 9 (codes "<$tok,$redir>")
    ≡ take 9 (expand sample_vars none (codes "<$tok,$redir>"))
tmpl_parse_lem_example = tmpl_parse_lem sample_vars 9 (codes "<$tok,$redir>")
