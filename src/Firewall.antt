-- ===== src/Firewall.antt =====
-- src/fw_iptables.c: the marks, running iptables with its retries, the rules of one MAC address and
-- of one authenticated client. A rule's table, chain, mark and MARK operation are fixed when the
-- daemon starts, so a Rule names it by its kind and its addresses.
pub mod Installed
pub mod Effects
pub mod Marks
pub mod Counters
pub mod Queues
pub mod Start
pub mod Filter
pub mod Packets
pub mod Chains
pub mod Teardown
pub mod Rules
pub mod Forgotten
pub mod Quiet
pub mod Reset
pub mod Groups
pub mod Parts
pub mod Promise
pub mod Decides
use nodogsplash.Prelude.{
  Bool, [], bit_or, if◌then◌else◌, none, some, suc, zero, ℕ, ◌&&◌, ◌++◌, ◌==◌,
}
use nodogsplash.Prelude.Int32.{is_pos}
use nodogsplash.CString.{CString, codes, format_decimal}
use nodogsplash.Client.{Client}
use nodogsplash.Config.{Config}
use nodogsplash.Tc.{tc_attach_client, tc_detach_client}
use nodogsplash.World.{
  Command, Env, World, append, count_incoming, delete, insert, mark_blocked, mark_incoming,
  mark_outgoing, mark_trusted, pass_allowed, run_command,
}

-- for (i = 0; i < 5; i++), `attempts` being the rounds left: exit status 4 is tried again.
unfoldable pub retry_command : Env → ℕ → World → ℕ → Command → World × ℕ
retry_command env zero w rc cmd = (w, rc)
retry_command env (suc attempts) w rc cmd =
    let (w', rc') = run_command env w cmd in
    let again = retry_command env attempts w' rc' cmd in if rc' == 4 then again else (w', rc')

unfoldable pub iptables_do_command : Env → World → Command → World × ℕ
unfolding retry_command
iptables_do_command env w cmd = retry_command env 5 w 0 cmd

unfoldable pub iptables_block_mac : Env → World → CString → World × ℕ
iptables_block_mac env w mac = iptables_do_command env w (append (mark_blocked mac))

unfoldable pub iptables_unblock_mac : Env → World → CString → World × ℕ
iptables_unblock_mac env w mac = iptables_do_command env w (delete (mark_blocked mac))

unfoldable pub iptables_allow_mac : Env → World → CString → World × ℕ
iptables_allow_mac env w mac = iptables_do_command env w (insert (pass_allowed mac))

unfoldable pub iptables_unallow_mac : Env → World → CString → World × ℕ
iptables_unallow_mac env w mac = iptables_do_command env w (delete (pass_allowed mac))

unfoldable pub iptables_trust_mac : Env → World → CString → World × ℕ
iptables_trust_mac env w mac = iptables_do_command env w (append (mark_trusted mac))

unfoldable pub iptables_untrust_mac : Env → World → CString → World × ℕ
iptables_untrust_mac env w mac = iptables_do_command env w (delete (mark_trusted mac))

-- "ifb%d" of config->upload_ifb, and config->gw_interface, which config_validate requires
unfoldable pub upload_ifbname : Config → CString
upload_ifbname config = codes "ifb" ++ format_decimal config.upload_ifb

pub interface_name : Config → CString
interface_name config = elim config.gw_interface [ none ↦ [] | some name ↦ name ]

-- The client's own limits where both are set, else those of the configuration.
own_limits : Client → Bool
own_limits c = is_pos c.download_limit && is_pos c.upload_limit

pub limits_of : Config → Client → ℕ × ℕ
unfolding own_limits
limits_of config c =
    if own_limits c
    then (c.download_limit, c.upload_limit)
    else (config.download_limit, config.upload_limit)

unfoldable pub authenticate_tc : Env → World → Client → World × ℕ
unfolding limits_of
authenticate_tc env w c =
    let (download_limit, upload_limit) = limits_of w.config c in
    if w.config.traffic_control == 0
    then (w, 0)
    else tc_attach_client env w (interface_name w.config) download_limit (upload_ifbname w.config)
        upload_limit c.id c.ip

unfoldable pub iptables_fw_authenticate : Env → World → Client → World × ℕ
iptables_fw_authenticate env w c =
    let (w1, rc1) = iptables_do_command env w (append (mark_outgoing c.ip c.mac)) in
    let (w2, rc2) = iptables_do_command env w1 (append (mark_incoming c.ip)) in
    let (w3, rc3) = iptables_do_command env w2 (append (count_incoming c.ip)) in
    let (w4, rc4) = authenticate_tc env w3 c in (w4, bit_or (bit_or (bit_or rc1 rc2) rc3) rc4)

unfoldable pub deauthenticate_tc : Env → World → Client → World × ℕ
unfolding limits_of
deauthenticate_tc env w c =
    let (download_limit, upload_limit) = limits_of w.config c in
    if w.config.traffic_control == 0
    then (w, 0)
    else tc_detach_client env w (interface_name w.config) download_limit (upload_ifbname w.config)
        upload_limit c.id

unfoldable pub iptables_fw_deauthenticate : Env → World → Client → World × ℕ
iptables_fw_deauthenticate env w c =
    let (w1, rc1) = iptables_do_command env w (delete (mark_outgoing c.ip c.mac)) in
    let (w2, rc2) = iptables_do_command env w1 (delete (mark_incoming c.ip)) in
    let (w3, rc3) = iptables_do_command env w2 (delete (count_incoming c.ip)) in
    let (w4, rc4) = deauthenticate_tc env w3 c in (w4, bit_or (bit_or (bit_or rc1 rc2) rc3) rc4)
