-- ===== src/Firewall/Quiet.antt =====
-- The commands of src/fw_iptables.c and src/tc.c that give no client access: setting the firewall up
-- and tearing it down.
-- No rule marks the packets of a client as authenticated.
use nodogsplash.Prelude.{
  All, Bool, Bool-cases, List, [], ap, arith, false, inl, inr, refl, subst, suc, sym, true, zero, ℕ,
  ◌==◌, ◌||◌, ◌∙◌, ◌∷◌, ◌≡◌,
}
use nodogsplash.CString.{CString}
use nodogsplash.Firewall.{iptables_do_command, retry_command}
use nodogsplash.Firewall.Installed.{
  IsReliable, chain_of, change, do_command-reliable, installed, only_commands,
}
use nodogsplash.Firewall.Packets.{act}
use nodogsplash.Firewall.Start.{for_each_mac, run_set_up}
use nodogsplash.Netfilter.{
  SetUp, append_rule, chain_eq, delete_chain, delete_number, filter_table, flush_chain, insert_rule,
  mangle_table, nat_table, new_chain, outgoing,
}
use nodogsplash.Tc.{run_all}
use nodogsplash.World.{Command, Env, World, mark_outgoing, run_command, set_up}

abbrev pub IsQuiet : List (Command × ℕ) → Type 0
IsQuiet history = (mac ip : CString) → installed (mark_outgoing ip mac) history ≡ 0

-- A command that adds no such rule.
abbrev pub IsHarmless : Command → Type 0
IsHarmless cmd = (mac ip : CString) → change (mark_outgoing ip mac) cmd 0 ≡ 0

-- Only commands were run, and where no client had access, none has it afterwards.
abbrev pub Quietly : World → World → Type 0
Quietly w v =
    (history : List (Command × ℕ)) × (v ≡ only_commands w history)
    × (IsQuiet w.commands → IsQuiet history)

pub Quietly-refl : (w : World) → Quietly w w
Quietly-refl w = (w.commands, refl, λ q. q)

pub Quietly-trans : (u v w : World) → Quietly u v → Quietly v w → Quietly u w
Quietly-trans u v w (h, e, q) (k, d, r) =
    (k, d ∙ ap (λ x. only_commands x k) e, λ p. r (subst (λ x. IsQuiet x.commands) (sym e) (q p)))

pub run_command-Quietly :
    (env : Env) (w : World) (cmd : Command) → IsHarmless cmd → Quietly w (run_command env w cmd).0
unfolding run_command installed
run_command-Quietly env w cmd harmless = (
  (cmd, env.exit_status w.commands cmd) ∷ w.commands,
  refl,
  λ q mac ip. ground (arith, q mac ip, harmless mac ip),
)

retry-Quietly :
    (env : Env) (attempts : ℕ) (w : World) (rc : ℕ) (cmd : Command)
    → IsHarmless cmd
    → Quietly w (retry_command env attempts w rc cmd).0
unfolding retry_command
retry-Quietly env zero w rc cmd harmless = Quietly-refl w
retry-Quietly env (suc attempts) w rc cmd harmless =
    let (w1, status) = run_command env w cmd in
    let once : Quietly w w1 = run_command-Quietly env w cmd harmless in
    elim (Bool-cases (status == 4)) [
      | inl again ↦
          rw again (Quietly-trans w w1 _ once (retry-Quietly env attempts w1 status cmd harmless))
      | inr enough ↦ rw enough once
    ]

pub do_command-Quietly :
    (env : Env) (w : World) (cmd : Command)
    → IsHarmless cmd
    → Quietly w (iptables_do_command env w cmd).0
unfolding iptables_do_command
do_command-Quietly env w cmd harmless = retry-Quietly env 5 w 0 cmd harmless

pub set_up-IsHarmless : (c : SetUp) → IsHarmless (set_up c)
unfolding change
set_up-IsHarmless (new_chain t c) mac ip = refl
set_up-IsHarmless (append_rule t c m j) mac ip = refl
set_up-IsHarmless (insert_rule t c n m j) mac ip = refl
set_up-IsHarmless (delete_number t c n) mac ip = refl
set_up-IsHarmless (flush_chain mangle_table c) mac ip = ground arith
set_up-IsHarmless (flush_chain nat_table c) mac ip = refl
set_up-IsHarmless (flush_chain filter_table c) mac ip = refl
set_up-IsHarmless (delete_chain t c) mac ip = refl

pub run_set_up-Quietly :
    (env : Env) (w : World) (cs : List SetUp) → Quietly w (run_set_up env w cs).0
unfolding run_set_up
run_set_up-Quietly env w [] = Quietly-refl w
run_set_up-Quietly env w (c ∷ cs) =
    Quietly-trans w (iptables_do_command env w (set_up c)).0 _
      (do_command-Quietly env w (set_up c) (set_up-IsHarmless c))
      (run_set_up-Quietly env (iptables_do_command env w (set_up c)).0 cs)

pub run_all-Quietly :
    (env : Env) (w : World) (cmds : List Command)
    → All IsHarmless cmds
    → Quietly w (run_all env w cmds).0
unfolding run_all
run_all-Quietly env w [] h = Quietly-refl w
run_all-Quietly env w (c ∷ cs) h =
    Quietly-trans w (run_command env w c).0 _ (run_command-Quietly env w c h.0)
      (run_all-Quietly env (run_command env w c).0 cs h.1)

pub for_each_mac-Quietly :
    (act : World → CString → World × ℕ)
    → ((w : World) (mac : CString) → Quietly w (act w mac).0)
    → (w : World) (macs : List CString) → Quietly w (for_each_mac act w macs).0
unfolding for_each_mac
for_each_mac-Quietly act quiet w [] = Quietly-refl w
for_each_mac-Quietly act quiet w (mac ∷ macs) =
    Quietly-trans w (act w mac).0 _ (quiet w mac)
      (for_each_mac-Quietly act quiet (act w mac).0 macs)

pub IsQuiet-after : (w v : World) → Quietly w v → IsQuiet w.commands → IsQuiet v.commands
IsQuiet-after w v (h, e, q) p = subst (λ x. IsQuiet x.commands) (sym e) (q p)

-- The command that takes every client's access away.
unfoldable pub takes_away : SetUp → Bool
unfolding chain_eq
takes_away (flush_chain mangle_table c) = chain_eq c outgoing
takes_away c = false

unfoldable pub flushes : List SetUp → Bool
unfolding takes_away
flushes [] = false
flushes (c ∷ cs) = takes_away c || flushes cs

taken_away :
    (c : SetUp) (mac ip : CString) (n : ℕ)
    → takes_away c ≡ true
    → change (mark_outgoing ip mac) (set_up c) n ≡ 0
unfolding takes_away change chain_of
taken_away (new_chain t c) mac ip n h = cc
taken_away (append_rule t c m j) mac ip n h = cc
taken_away (insert_rule t c k m j) mac ip n h = cc
taken_away (delete_number t c k) mac ip n h = cc
taken_away (flush_chain mangle_table c) mac ip n h = rw h refl
taken_away (flush_chain nat_table c) mac ip n h = cc
taken_away (flush_chain filter_table c) mac ip n h = cc
taken_away (delete_chain t c) mac ip n h = cc

-- Where no command fails, flushing takes the access away, whoever had it.
pub run_set_up-IsQuiet :
    (env : Env) (w : World) (cs : List SetUp)
    → IsReliable env
    → flushes cs ≡ true
    → IsQuiet (run_set_up env w cs).0.commands
unfolding run_set_up flushes installed
run_set_up-IsQuiet env w [] rel h = cc
run_set_up-IsQuiet env w (c ∷ cs) rel h =
    let w1 = (iptables_do_command env w (set_up c)).0 in
    elim (Bool-cases (takes_away c)) [
      | inr other ↦ run_set_up-IsQuiet env w1 cs rel (rw other at h)
      | inl gone ↦
          IsQuiet-after w1 (run_set_up env w1 cs).0 (run_set_up-Quietly env w1 cs) (λ mac ip.
            rw (do_command-reliable env w (set_up c) rel)
              (taken_away c mac ip (installed (mark_outgoing ip mac) w.commands) gone))
    ]
