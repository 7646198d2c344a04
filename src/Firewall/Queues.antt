-- ===== src/Firewall/Queues.antt =====
-- src/tc.c: the queues of the two directions, which tc_init_tc sets up and tc_destroy_tc removes.
use nodogsplash.Prelude.{List, [], bit_or, false, if◌then◌else◌, true, ℕ, ◌/◌, ◌==◌, ◌∷◌}
use nodogsplash.Prelude.Int32.{is_pos, minus_one}
use nodogsplash.CString.{CString}
use nodogsplash.Firewall.{interface_name, upload_ifbname}
use nodogsplash.Tc.{run_all}
use nodogsplash.World.{
  Command, Env, World, add_ingress_qdisc, add_rate_class, add_root_qdisc, del_ingress_qdisc,
  del_root_qdisc, redirect_ingress, run_command, set_link,
}

-- rc |= execute(...) of the download queue; the first command's result is not read.
unfoldable pub download_commands : CString → ℕ → List Command
download_commands dev limit =
    add_root_qdisc dev ∷ add_rate_class dev 0 1 limit ∷ add_rate_class dev 1 2 (limit / 10) ∷ []

unfoldable pub upload_commands : CString → CString → ℕ → List Command
upload_commands dev ifb limit =
    add_root_qdisc ifb
    ∷ add_rate_class ifb 0 1 limit
    ∷ add_rate_class ifb 1 2 (limit / 10)
    ∷ add_ingress_qdisc dev
    ∷ redirect_ingress dev ifb
    ∷ []

unfoldable pub tc_attach_download_qdisc : Env → World → CString → ℕ → World × ℕ
unfolding download_commands
tc_attach_download_qdisc env w dev limit =
    let w1 = (run_command env w (del_root_qdisc dev)).0 in
    run_all env w1 (download_commands dev limit)

unfoldable pub tc_attach_upload_qdisc : Env → World → CString → CString → ℕ → World × ℕ
unfolding upload_commands
tc_attach_upload_qdisc env w dev ifb limit =
    let w1 = (run_command env w (del_root_qdisc ifb)).0 in
    let w2 = (run_command env w1 (del_ingress_qdisc dev)).0 in
    run_all env w2 (upload_commands dev ifb limit)

-- The upload direction, with the result so far.
unfoldable pub init_upload : Env → World → ℕ → World × ℕ
init_upload env w rc =
    let dev = interface_name w.config in
    let ifb = upload_ifbname w.config in
    let (w1, ret) = run_command env w (set_link ifb true) in
    let (w2, rc2) = tc_attach_upload_qdisc env w1 dev ifb w.config.upload_limit in
    if ret == 0 then (w2, bit_or rc rc2) else (w1, minus_one)

unfoldable pub init_download : Env → World → World × ℕ
init_download env w =
    if is_pos w.config.download_limit
    then tc_attach_download_qdisc env w (interface_name w.config) w.config.download_limit
    else (w, 0)

unfoldable pub tc_init_tc : Env → World → World × ℕ
unfolding init_upload init_download
tc_init_tc env w =
    let (w1, rc) = init_download env w in
    if is_pos w1.config.upload_limit then init_upload env w1 rc else (w1, rc)

unfoldable pub tc_destroy_tc : Env → World → World × ℕ
tc_destroy_tc env w =
    let dev = interface_name w.config in
    let ifb = upload_ifbname w.config in
    run_all env w (del_root_qdisc dev ∷ del_root_qdisc ifb ∷ set_link ifb false ∷ [])
