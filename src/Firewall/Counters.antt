-- ===== src/Firewall/Counters.antt =====
-- iptables_fw_counters_update of src/fw_iptables.c. A Line is one line of the listing of a chain on
-- which fscanf reads all three fields; `popen` gives the lines of the chain, or NULL. Lines on which
-- fscanf reads fewer fields are skipped by the code and do not appear.
pub mod Grow
pub mod Update
use nodogsplash.Prelude.{Bool, List, Option, [], if◌then◌else◌, ltb, none, some, ℕ, ◌==◌, ◌∷◌}
use nodogsplash.Prelude.Int32.{minus_one}
use nodogsplash.CString.{CString, codes, str_eq}
use nodogsplash.Client.{Client}
use nodogsplash.ClientList.{client_list_find_by_ip, update_node}
use nodogsplash.World.{Env, World, read_time}

pub record Line : Type 0 where
  pub bytes : ℕ
  pub target : CString
  pub ip : CString

-- inet_pton(af, ip, &tempaddr) for the configured family
pub valid_address : Env → World → CString → Bool
valid_address env w ip = if w.config.ip6 == 0 then env.valid_ip ip else env.valid_ip6 ip

pub set_outgoing : ℕ → ℕ → Client → Client
set_outgoing bytes now c = record c {
  counters = record { incoming = c.counters.incoming; outgoing = bytes; last_updated = now };
}

pub set_incoming : ℕ → Client → Client
set_incoming bytes c = record c {
  counters = record {
    incoming = bytes;
    outgoing = c.counters.outgoing;
    last_updated = c.counters.last_updated;
  };
}

pub count_outgoing : Env → World → ℕ → Option Client → World
unfolding set_outgoing
count_outgoing env w bytes none = w
count_outgoing env w bytes (some c) =
    if ltb c.counters.outgoing bytes
    then (let (w', now) = read_time env w in
        record w' { clients = update_node c.node (set_outgoing bytes now) w'.clients })
    else w

pub count_incoming_bytes : World → ℕ → Option Client → World
unfolding set_incoming
count_incoming_bytes w bytes none = w
count_incoming_bytes w bytes (some c) =
    if ltb c.counters.incoming bytes
    then record w { clients = update_node c.node (set_incoming bytes) w.clients }
    else w

pub outgoing_line : Env → World → Line → World
unfolding valid_address
outgoing_line env w line =
    if str_eq line.target (codes "MARK")
    then (if valid_address env w line.ip
        then count_outgoing env w line.bytes (client_list_find_by_ip w line.ip)
        else w)
    else w

pub incoming_line : Env → World → Line → World
unfolding valid_address
incoming_line env w line =
    if str_eq line.target (codes "ACCEPT")
    then (if valid_address env w line.ip
        then count_incoming_bytes w line.bytes (client_list_find_by_ip w line.ip)
        else w)
    else w

-- while (!feof(output)) { ... }
unfoldable pub each_line : (World → Line → World) → World → List Line → World
each_line step w [] = w
each_line step w (line ∷ lines) = each_line step (step w line) lines

read_incoming : Env → World → Option (List Line) → World × ℕ
read_incoming env w none = (w, minus_one)
read_incoming env w (some lines) = (each_line (incoming_line env) w lines, 0)

-- The two arguments are the output of iptables for ndsOUT and for ndsINC.
unfoldable pub iptables_fw_counters_update :
    Env → World → Option (List Line) → Option (List Line) → World × ℕ
unfolding read_incoming
iptables_fw_counters_update env w none incoming = (w, minus_one)
iptables_fw_counters_update env w (some outgoing) incoming =
    read_incoming env (each_line (outgoing_line env) w outgoing) incoming
