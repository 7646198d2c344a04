-- ===== src/Examples/Values.antt =====
-- Values of the definitions about src/template.c, src/http_microhttpd_utils.c, src/ndsctl_thread.c,
-- src/http_microhttpd.c, src/conf.c and src/fw_iptables.c.
use nodogsplash.Prelude.{List, Option, [], none, refl, some, true, ◌∷◌, ◌≡◌}
use nodogsplash.CString.{CString, codes, has_prefix, str_eq}
use nodogsplash.Conf.DebugLevel.{set_debuglevel}
use nodogsplash.Control.{argument_at, deauth_request, select_request, unblock_request}
use nodogsplash.Examples.{sample_config, sample_marks}
use nodogsplash.Firewall.Marks.{fw_connection_state_as_string}
use nodogsplash.Template.{tmpl_parse}
use nodogsplash.Url.{decoded, malformed, uh_urldecode}
use nodogsplash.Web.{get_query, is_splashpage}

abbrev page_vars : List (CString × Option CString)
page_vars = (codes "tok", some (codes "0123abcd")) ∷ (codes "redir", none) ∷ []

tmpl_parse_test : tmpl_parse page_vars 40 (codes "<$tok,$redir,$>") ≡ codes "<0123abcd,redir,>"
unfolding tmpl_parse str_eq
tmpl_parse_test = refl

tmpl_parse_cut_test : tmpl_parse page_vars 4 (codes "<$tok>") ≡ codes "<012"
unfolding tmpl_parse str_eq
tmpl_parse_cut_test = refl

urldecode_test : uh_urldecode 4 (codes "a%20b") ≡ decoded (codes "a b")
unfolding uh_urldecode
urldecode_test = refl

urldecode_cut_test : uh_urldecode 4 (codes "a%2") ≡ malformed
unfolding uh_urldecode
urldecode_cut_test = refl

select_request_test : select_request (codes "unblock aa:bb") ≡ unblock_request (codes "aa:bb")
unfolding select_request argument_at has_prefix
select_request_test = refl

-- "deauth" is not taken for "auth".
select_auth_test : select_request (codes "deauth 1.2.3.4") ≡ deauth_request (codes "1.2.3.4")
unfolding select_request argument_at has_prefix
select_auth_test = refl

debuglevel_test : (set_debuglevel sample_config (codes " +2")).0.debuglevel ≡ 2
unfolding set_debuglevel
debuglevel_test = refl

debuglevel_wrap_test : (set_debuglevel sample_config (codes "4294967297")).0.debuglevel ≡ 1
unfolding set_debuglevel
debuglevel_wrap_test = refl

state_name_test : fw_connection_state_as_string sample_marks 0x10000 ≡ codes "Blocked"
unfolding fw_connection_state_as_string
state_name_test = refl

splashpage_test :
    is_splashpage sample_config (some (codes "192.168.1.1:2050")) (codes "/splash.html") ≡ true
unfolding is_splashpage str_eq
splashpage_test = refl

query_test :
    get_query 4096 [] ((codes "a", some (codes "1")) ∷ (codes "b", none) ∷ [])
    ≡ some (codes "?a=1&b")
unfolding get_query
query_test = refl
