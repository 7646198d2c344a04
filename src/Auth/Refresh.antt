-- ===== src/Auth/Refresh.antt =====
-- The whole of fw_refresh_client_list of src/auth.c: the counters, then every client.
use nodogsplash.Prelude.{
  Bool-cases, List, Option, ap, arith, inl, inr, refl, some, subst, sym, ℕ, ◌&&◌, ◌<◌, ◌==◌, ◌∙◌,
  ◌≡◌, ◌⊎◌,
}
use nodogsplash.Prelude.Int32.{minus_one}
use nodogsplash.CString.{CString, str_eq}
use nodogsplash.Auth.{after_counters, fw_refresh_client_list}
use nodogsplash.Auth.FirewallLoops.{refresh-IsInSync}
use nodogsplash.Auth.FirewallState.{rule_count}
use nodogsplash.Auth.FirewallSync.{IsInSync}
use nodogsplash.Auth.Timeouts.{refresh-IsWellFormed, refresh_ends_sessions}
use nodogsplash.Auth.Transitions.{AreDistinct}
use nodogsplash.Client.{Client}
use nodogsplash.ClientList.{client_list_find_by_id, find_client}
use nodogsplash.ClientList.Shape.{IsWellFormed}
use nodogsplash.Firewall.Counters.{Line, iptables_fw_counters_update}
use nodogsplash.Firewall.Counters.Grow.{
  ListGrown, WorldGrown, grown-IsWellFormed, none_left, one_more,
}
use nodogsplash.Firewall.Counters.Update.{counters_read, counters_update_grows}
use nodogsplash.Firewall.Installed.{IsReliable}
use nodogsplash.World.{Env, Marks, World, read_time}

grown_count :
    (marks : Marks) (mac ip : CString) (cs ds : List Client)
    → ListGrown cs ds
    → rule_count marks (find_client (λ x. str_eq x.mac mac && str_eq x.ip ip) ds)
      ≡ rule_count marks (find_client (λ x. str_eq x.mac mac && str_eq x.ip ip) cs)
unfolding find_client
grown_count marks mac ip cs ds none_left = refl
grown_count marks mac ip cs ds (one_more c d cs' ds' p ps) =
    ground (arith, p.mac, p.ip, p.state, grown_count marks mac ip cs' ds' ps)

pub grown-IsInSync : (w v : World) → WorldGrown w v → IsInSync w → IsInSync v
grown-IsInSync w v g s = record {
  shape = grown-IsWellFormed w v g s.shape;
  distinct = subst AreDistinct (sym g.marks) s.distinct;
  agrees = record {
    outgoing = λ mac ip. ground (
      arith,
      g.commands,
      g.marks,
      s.agrees.outgoing mac ip,
      grown_count w.marks mac ip w.clients v.clients g.list,
    );
  };
}

-- Reading the clock.
pub timed-IsWellFormed : (env : Env) (w : World) → IsWellFormed w → IsWellFormed (read_time env w).0
unfolding read_time
timed-IsWellFormed env w h = record {
  counted = h.counted;
  bounded = h.bounded;
  small = h.small;
  ids = h.ids;
  nodes = h.nodes;
  pairs = h.pairs;
}

pub timed-IsInSync : (env : Env) (w : World) → IsInSync w → IsInSync (read_time env w).0
unfolding read_time
timed-IsInSync env w s = record {
  shape = timed-IsWellFormed env w s.shape;
  distinct = s.distinct;
  agrees = record { outgoing = s.agrees.outgoing };
}

-- Any round of the periodic check keeps the list sound, whatever iptables prints and however the
-- commands end.
pub fw_refresh-IsWellFormed :
    (env : Env) (w : World) (outgoing incoming : Option (List Line))
    → IsWellFormed w
    → IsWellFormed (fw_refresh_client_list env w outgoing incoming)
unfolding fw_refresh_client_list
fw_refresh-IsWellFormed env w outgoing incoming h =
    let w' = (read_time env w).0 in
    let r = iptables_fw_counters_update env w' outgoing incoming in
    let h' = timed-IsWellFormed env w h in
    let q : IsWellFormed r.0 =
      grown-IsWellFormed w' r.0 (counters_update_grows env w' outgoing incoming h') h' in
    elim (Bool-cases (r.1 == minus_one)) [
      | inl failed ↦ rw failed q
      | inr read ↦ rw read (refresh-IsWellFormed env r.0 _ q)
    ]

-- A round of the periodic check keeps the firewall in agreement with the list as long as no command
-- fails.
pub fw_refresh-IsInSync :
    (env : Env) (w : World) (outgoing incoming : Option (List Line))
    → IsReliable env
    → IsInSync w
    → IsInSync (fw_refresh_client_list env w outgoing incoming)
unfolding fw_refresh_client_list
fw_refresh-IsInSync env w outgoing incoming rel s =
    let w' = (read_time env w).0 in
    let r = iptables_fw_counters_update env w' outgoing incoming in
    let s' = timed-IsInSync env w s in
    let q : IsInSync r.0 =
      grown-IsInSync w' r.0 (counters_update_grows env w' outgoing incoming s'.shape) s' in
    elim (Bool-cases (r.1 == minus_one)) [
      | inl failed ↦ rw failed q
      | inr read ↦ rw read (refresh-IsInSync env r.0 _ rel q)
    ]

after_counters_ends :
    (env : Env) (w : World) (rc now id : ℕ) (c : Client)
    → rc ≡ 0
    → IsWellFormed w
    → AreDistinct w.marks
    → client_list_find_by_id (after_counters env now (w, rc)) id ≡ some c
    → c.fw_connection_state ≡ w.marks.authenticated
    → (c.session_end ≡ 0) ⊎ (now < c.session_end)
unfolding after_counters
after_counters_ends env w rc now id c read h d found state =
    refresh_ends_sessions env w now id c h d (ground (arith, read, found)) state

-- After a round of the periodic check in which both listings could be read, on a sound list with
-- distinct marks, no authenticated client has reached the end of its session: the end is not set, or
-- it lies after the time at which the round began. This holds whatever the results of the commands.
pub fw_refresh_ends_sessions :
    (env : Env) (w : World) (outgoing incoming : List Line) (id : ℕ) (c : Client)
    → IsWellFormed w
    → AreDistinct w.marks
    → client_list_find_by_id (fw_refresh_client_list env w (some outgoing) (some incoming)) id
      ≡ some c
    → c.fw_connection_state ≡ w.marks.authenticated
    → (c.session_end ≡ 0) ⊎ (env.time w.times_read < c.session_end)
unfolding fw_refresh_client_list read_time
fw_refresh_ends_sessions env w outgoing incoming id c h d found state =
    let w' = (read_time env w).0 in
    let r = iptables_fw_counters_update env w' (some outgoing) (some incoming) in
    let h' = timed-IsWellFormed env w h in
    let g = counters_update_grows env w' (some outgoing) (some incoming) h' in
    after_counters_ends env r.0 r.1 (env.time w.times_read) id c
      (counters_read env w' outgoing incoming) (grown-IsWellFormed w' r.0 g h')
      (subst AreDistinct (sym g.marks) d) found (state ∙ ap (λ m. m.authenticated) (sym g.marks))
