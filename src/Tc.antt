-- ===== src/Tc.antt =====
-- src/tc.c, tc_attach_client and tc_detach_client: the traffic control classes of one client.
-- The commands are run one after another, whatever their results; `device` names, rates in kbit.
pub mod Balance
use nodogsplash.Prelude.{List, [], bit_or, if◌then◌else◌, map, ℕ, ◌*◌, ◌++◌, ◌+◌, ◌/◌, ◌∷◌}
use nodogsplash.Prelude.Int32.{int_min, is_pos}
use nodogsplash.CString.{CString}
use nodogsplash.Config.{Config}
use nodogsplash.World.{
  Command, Env, Side, TcCommand, World, add_class, add_filter, add_qdisc, any_packet, bulk,
  del_class, del_filter, del_qdisc, dns_port, icmp_protocol, ip_dst, ip_src, low_latency,
  run_command, run_tc, service,
}

-- rc |= execute(...) for each command
unfoldable pub run_all : Env → World → List Command → World × ℕ
run_all env w [] = (w, 0)
run_all env w (cmd ∷ cmds) =
    let (w', rc) = run_command env w cmd in
    let (w'', rc') = run_all env w' cmds in (w'', bit_or rc rc')

-- The eight commands for one direction.
attach_direction : CString → ℕ → ℕ → Side → CString → List TcCommand
attach_direction dev limit id side ip =
    add_class dev 1 id service (limit / 5 ∷ limit ∷ [])
    ∷ add_class dev id (id + 1) low_latency
        (limit / 5 * 4 ∷ limit / 20 ∷ limit / 10 ∷ limit / 10 ∷ limit ∷ [])
    ∷ add_filter dev id side ip icmp_protocol (id + 1)
    ∷ add_filter dev (id + 1) side ip dns_port (id + 1)
    ∷ add_class dev id (id + 2) bulk (limit / 5 ∷ limit ∷ [])
    ∷ add_filter dev (id + 2) side ip any_packet (id + 2)
    ∷ add_qdisc dev (id + 1)
    ∷ add_qdisc dev (id + 2)
    ∷ []

detach_direction : CString → ℕ → List TcCommand
detach_direction dev id =
    del_filter dev (id + 2)
    ∷ del_filter dev (id + 1)
    ∷ del_filter dev id
    ∷ del_qdisc dev (id + 2)
    ∷ del_qdisc dev (id + 1)
    ∷ del_class dev (id + 2)
    ∷ del_class dev (id + 1)
    ∷ del_class dev id
    ∷ []

-- id = 3 * idx + 10
abbrev pub class_of : ℕ → ℕ
class_of idx = 3 * idx + 10

unfoldable pub attach_commands : Config → CString → ℕ → CString → ℕ → ℕ → CString → List TcCommand
unfolding attach_direction
attach_commands config down_dev download_limit up_dev upload_limit idx ip =
    let dlimit = int_min download_limit config.download_limit in
    let ulimit = int_min upload_limit config.upload_limit in
    (if is_pos dlimit then attach_direction down_dev dlimit (class_of idx) ip_dst ip else [])
    ++ (if is_pos ulimit then attach_direction up_dev ulimit (class_of idx) ip_src ip else [])

unfoldable pub detach_commands : CString → ℕ → CString → ℕ → ℕ → List TcCommand
unfolding detach_direction
detach_commands down_dev download_limit up_dev upload_limit idx =
    (if is_pos download_limit then detach_direction down_dev (class_of idx) else [])
    ++ (if is_pos upload_limit then detach_direction up_dev (class_of idx) else [])

unfoldable pub tc_attach_client : Env → World → CString → ℕ → CString → ℕ → ℕ → CString → World × ℕ
unfolding run_all
tc_attach_client env w down_dev download_limit up_dev upload_limit idx ip =
    run_all env w
      (map run_tc (attach_commands w.config down_dev download_limit up_dev upload_limit idx ip))

unfoldable pub tc_detach_client : Env → World → CString → ℕ → CString → ℕ → ℕ → World × ℕ
unfolding run_all
tc_detach_client env w down_dev download_limit up_dev upload_limit idx =
    run_all env w (map run_tc (detach_commands down_dev download_limit up_dev upload_limit idx))
