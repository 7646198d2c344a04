-- ===== src/Firewall/Counters/Update.antt =====
-- The lines that iptables_fw_counters_update of src/fw_iptables.c reads, one after another.
use nodogsplash.Prelude.{
  Bool-cases, List, Option, Option-cases, [], arith, inl, inr, ltb, none, refl, some, ℕ, ◌∷◌, ◌≡◌,
}
use nodogsplash.CString.{CString}
use nodogsplash.Client.{Client}
use nodogsplash.ClientList.{client_list_find_by_ip}
use nodogsplash.ClientList.Members.{IsMember, IsMember-find}
use nodogsplash.ClientList.Shape.{IsWellFormed}
use nodogsplash.Firewall.Counters.{
  Line, count_incoming_bytes, count_outgoing, each_line, incoming_line, iptables_fw_counters_update,
  outgoing_line, set_incoming, set_outgoing,
}
use nodogsplash.Firewall.Counters.Grow.{
  WorldGrown, grown-IsWellFormed, list_update, world_refl, world_trans,
}
use nodogsplash.World.{Env, World, read_time}

count_outgoing_grows :
    (env : Env) (w : World) (bytes : ℕ) (o : Option Client)
    → ((c : Client) → o ≡ some c → IsMember c w.clients)
    → WorldGrown w (count_outgoing env w bytes o)
unfolding count_outgoing set_outgoing read_time
count_outgoing_grows env w bytes none m = world_refl w
count_outgoing_grows env w bytes (some c) m = elim (Bool-cases (ltb c.counters.outgoing bytes)) [
  | inl more ↦ rw more (record {
    list =
        list_update _ w.clients c
          (record {
            node = refl;
            id = refl;
            mac = refl;
            ip = refl;
            token = refl;
            state = refl;
            session_end = refl;
            incoming = omega arith;
            outgoing = ground (arith, more);
          })
          (m c refl);
    count = refl;
    next_id = refl;
    next_node = refl;
    config = refl;
    marks = refl;
    commands = refl;
  })
  | inr less ↦ rw less (world_refl w)
]

count_incoming_grows :
    (w : World) (bytes : ℕ) (o : Option Client)
    → ((c : Client) → o ≡ some c → IsMember c w.clients)
    → WorldGrown w (count_incoming_bytes w bytes o)
unfolding count_incoming_bytes set_incoming
count_incoming_grows w bytes none m = world_refl w
count_incoming_grows w bytes (some c) m = elim (Bool-cases (ltb c.counters.incoming bytes)) [
  | inl more ↦ rw more (record {
    list =
        list_update _ w.clients c
          (record {
            node = refl;
            id = refl;
            mac = refl;
            ip = refl;
            token = refl;
            state = refl;
            session_end = refl;
            incoming = ground (arith, more);
            outgoing = omega arith;
          })
          (m c refl);
    count = refl;
    next_id = refl;
    next_node = refl;
    config = refl;
    marks = refl;
    commands = refl;
  })
  | inr less ↦ rw less (world_refl w)
]

found_by_ip :
    (w : World) (ip : CString) (c : Client)
    → IsWellFormed w
    → client_list_find_by_ip w ip ≡ some c
    → IsMember c w.clients
found_by_ip w ip c h e = IsMember-find _ 0 w.next_node w.clients c h.nodes e

outgoing_line_grows :
    (env : Env) (w : World) (line : Line) → IsWellFormed w → WorldGrown w (outgoing_line env w line)
unfolding outgoing_line
outgoing_line_grows env w line h =
    ground (
      arith,
      world_refl w,
      count_outgoing_grows env w line.bytes _ (λ c. found_by_ip w line.ip c h),
    )

incoming_line_grows :
    (env : Env) (w : World) (line : Line) → IsWellFormed w → WorldGrown w (incoming_line env w line)
unfolding incoming_line
incoming_line_grows env w line h =
    ground
      (arith, world_refl w, count_incoming_grows w line.bytes _ (λ c. found_by_ip w line.ip c h))

each_line_grows :
    (step : World → Line → World)
    → ((w : World) (line : Line) → IsWellFormed w → WorldGrown w (step w line))
    → (w : World) (lines : List Line) → IsWellFormed w
    → WorldGrown w (each_line step w lines)
unfolding each_line
each_line_grows step grows w [] h = world_refl w
each_line_grows step grows w (line ∷ lines) h =
    let g = grows w line h in
    world_trans w (step w line) _ g
      (each_line_grows step grows (step w line) lines (grown-IsWellFormed w (step w line) g h))

-- Whatever iptables lists, an update of the counters of a sound list lowers no counter of any client,
-- adds and removes none, and changes neither their order nor their states, addresses, tokens and
-- session ends; it changes nothing else of the shared state that the invariants read.
pub counters_update_grows :
    (env : Env) (w : World) (outgoing incoming : Option (List Line))
    → IsWellFormed w
    → WorldGrown w (iptables_fw_counters_update env w outgoing incoming).0
unfolding iptables_fw_counters_update
counters_update_grows env w none incoming h = world_refl w
counters_update_grows env w (some lines) incoming h =
    let g = each_line_grows (outgoing_line env) (outgoing_line_grows env) w lines h in
    let v = each_line (outgoing_line env) w lines in
    elim (Option-cases incoming) [
      | inl off ↦ rw off g
      | inr (more, on) ↦ rw on (
          world_trans w v _ g (
            each_line_grows (incoming_line env) (incoming_line_grows env) v more
              (grown-IsWellFormed w v g h)))
    ]

pub counters_read :
    (env : Env) (w : World) (outgoing incoming : List Line)
    → (iptables_fw_counters_update env w (some outgoing) (some incoming)).1 ≡ 0
unfolding iptables_fw_counters_update
counters_read env w outgoing incoming = refl
