-- ===== src/World.antt =====
-- The global state of the daemon, and what its code calls outside the repository.
-- A `World` holds the static variables of src/client_list.c (the list, `client_count`,
-- `client_id`), src/auth.c (`authenticated_since_start`), src/fw_iptables.c (the FW_MARK_ values),
-- the configuration of src/conf.c, and a log of the external commands that were run, newest first,
-- each with its exit status.
use nodogsplash.Prelude.{Bool, List, Option, suc, ℕ, ◌∷◌}
use nodogsplash.CString.{CString}
use nodogsplash.Client.{Client}
use nodogsplash.Config.{Config}
use nodogsplash.Netfilter.{SetUp}

-- The mangle rules that concern one client or one MAC address, and the mark they set.
pub data Rule : Type 0 where
  mark_outgoing : CString → CString → Rule
  mark_incoming : CString → Rule
  count_incoming : CString → Rule
  mark_blocked : CString → Rule
  pass_allowed : CString → Rule
  mark_trusted : CString → Rule

-- The parts of the tc commands: the kind of a class ("sc rate", "rt m1 ... ls m1 ...", "ls m1 0kbit
-- d 100ms m2 ..."), the side of the address in a filter, and what else the filter matches.
pub data Curve : Type 0 where
  service low_latency bulk : Curve

pub data Side : Type 0 where
  ip_dst ip_src : Side

pub data Match : Type 0 where
  icmp_protocol dns_port any_packet : Match

-- The commands of src/tc.c on a device: a class under its parent with its rates, a filter with its
-- priority, its match on an address and its class, a queue under its parent, and what removes each.
pub data TcCommand : Type 0 where
  add_class : CString → ℕ → ℕ → Curve → List ℕ → TcCommand
  add_filter : CString → ℕ → Side → CString → Match → ℕ → TcCommand
  add_qdisc : CString → ℕ → TcCommand
  del_filter : CString → ℕ → TcCommand
  del_qdisc : CString → ℕ → TcCommand
  del_class : CString → ℕ → TcCommand

-- iptables -A, -I at the head, and -D of a rule given by its text; the commands that set the firewall
-- up; `ip link set` of a device up or down, and the tc commands that set up its queues: a class with
-- its parent, its number and its rate, and the redirection of what comes in to another device.
pub data Command : Type 0 where
  append : Rule → Command
  insert : Rule → Command
  delete : Rule → Command
  run_binauth : CString → Option CString → Client → Command
  run_tc : TcCommand → Command
  set_up : SetUp → Command
  set_link : CString → Bool → Command
  del_root_qdisc : CString → Command
  del_ingress_qdisc : CString → Command
  add_root_qdisc : CString → Command
  add_ingress_qdisc : CString → Command
  add_rate_class : CString → ℕ → ℕ → ℕ → Command
  redirect_ingress : CString → CString → Command

pub record Marks : Type 0 where
  pub preauthenticated : ℕ
  pub authenticated : ℕ
  pub blocked : ℕ
  pub trusted : ℕ

pub record World : Type 0 where
  pub clients : List Client
  pub client_count : ℕ
  pub client_id : ℕ
  pub next_node : ℕ
  pub config : Config
  pub marks : Marks
  pub authenticated_since_start : ℕ
  pub commands : List (Command × ℕ)
  pub times_read : ℕ
  pub rands_drawn : ℕ

-- The environment: the clock and the random source by the number of earlier readings, the exit
-- status of a command after a given history of commands, ether_aton, and
-- inet_pton for AF_INET and AF_INET6.
pub record Env : Type 0 where
  pub time : ℕ → ℕ
  pub rand : ℕ → ℕ
  pub exit_status : List (Command × ℕ) → Command → ℕ
  pub valid_mac : CString → Bool
  pub valid_ip : CString → Bool
  pub valid_ip6 : CString → Bool

-- time(NULL)
unfoldable pub read_time : Env → World → World × ℕ
read_time env w = (record w { times_read = suc w.times_read }, env.time w.times_read)

-- Run a command and log it with its exit status.
unfoldable pub run_command : Env → World → Command → World × ℕ
run_command env w cmd =
    let rc = env.exit_status w.commands cmd in (record w { commands = (cmd, rc) ∷ w.commands }, rc)
