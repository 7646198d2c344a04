-- ===== src/Conf/MacList/Unique.antt =====
-- Duplicates in the MAC lists of src/conf.c.
use nodogsplash.Prelude.{Bool, List, Option, [], arith, some, ℕ, ◌∷◌, ◌≡◌}
use nodogsplash.CString.{CString}
use nodogsplash.Conf.MacList.{
  add_fields, add_to_allowed_mac_list, add_to_blocked_mac_list, add_to_trusted_mac_list, drop_entry,
  is_allowed_mac, is_blocked_mac, is_trusted_mac, parse_allowed_mac_list, parse_blocked_mac_list,
  parse_trusted_mac_list, push_entry, remove_from_allowed_mac_list, remove_from_blocked_mac_list,
  remove_from_trusted_mac_list, scan_mac,
}
use nodogsplash.Conf.MacList.Entries.{NoCaseDup, unlink_entry-NoCaseDup}
use nodogsplash.Config.{Config}
use nodogsplash.World.{Env}

pub record IsUnique (config : Config) : Type 0 where
  pub on_trusted : NoCaseDup config.trustedmaclist
  pub on_blocked : NoCaseDup config.blockedmaclist
  pub on_allowed : NoCaseDup config.allowedmaclist

pub push_entry-NoCaseDup :
    (mac : CString) (list : List CString) → NoCaseDup list → NoCaseDup (push_entry mac list).0
unfolding push_entry
push_entry-NoCaseDup mac list h = ground arith

pub drop_entry-NoCaseDup :
    (mac : CString) (list : List CString) → NoCaseDup list → NoCaseDup (drop_entry mac list).0
unfolding drop_entry
drop_entry-NoCaseDup mac list h = ground (arith, unlink_entry-NoCaseDup mac list h)

-- The six operations on the lists, as the daemon calls them.
pub data ListKind : Type 0 where
  trusted blocked allowed : ListKind

pub data MacOp : Type 0 where
  adding : ListKind → MacOp
  removing : ListKind → MacOp

unfoldable pub apply_op : Env → MacOp → Config → CString → Config × ℕ
apply_op env (adding trusted) = add_to_trusted_mac_list env
apply_op env (removing trusted) = remove_from_trusted_mac_list env
apply_op env (adding blocked) = add_to_blocked_mac_list env
apply_op env (removing blocked) = remove_from_blocked_mac_list env
apply_op env (adding allowed) = add_to_allowed_mac_list env
apply_op env (removing allowed) = remove_from_allowed_mac_list env

-- The test of the same list, and its parser.
unfoldable pub is_listed : ListKind → Config → CString → Bool
is_listed trusted = is_trusted_mac
is_listed blocked = is_blocked_mac
is_listed allowed = is_allowed_mac

unfoldable pub parse_list : Env → ListKind → Config → CString → Option Config
parse_list env trusted = parse_trusted_mac_list env
parse_list env blocked = parse_blocked_mac_list env
parse_list env allowed = parse_allowed_mac_list env

pub apply_op-IsUnique :
    (env : Env) (op : MacOp) (config : Config) (mac : CString)
    → IsUnique config
    → IsUnique (apply_op env op config mac).0
unfolding apply_op add_to_trusted_mac_list remove_from_trusted_mac_list add_to_blocked_mac_list
    remove_from_blocked_mac_list add_to_allowed_mac_list remove_from_allowed_mac_list
apply_op-IsUnique env (adding trusted) config mac u =
    ground (arith, push_entry-NoCaseDup (scan_mac 17 mac) config.trustedmaclist u.on_trusted)
apply_op-IsUnique env (removing trusted) config mac u =
    ground (arith, drop_entry-NoCaseDup (scan_mac 17 mac) config.trustedmaclist u.on_trusted)
apply_op-IsUnique env (adding blocked) config mac u =
    ground (arith, push_entry-NoCaseDup (scan_mac 17 mac) config.blockedmaclist u.on_blocked)
apply_op-IsUnique env (removing blocked) config mac u =
    ground (arith, drop_entry-NoCaseDup (scan_mac 17 mac) config.blockedmaclist u.on_blocked)
apply_op-IsUnique env (adding allowed) config mac u =
    ground (arith, push_entry-NoCaseDup (scan_mac 17 mac) config.allowedmaclist u.on_allowed)
apply_op-IsUnique env (removing allowed) config mac u =
    ground (arith, drop_entry-NoCaseDup (scan_mac 17 mac) config.allowedmaclist u.on_allowed)

-- A sequence of operations, each result code ignored.
pub run_ops : Env → Config → List (MacOp × CString) → Config
run_ops env config [] = config
run_ops env config ((op, mac) ∷ ops) = run_ops env (apply_op env op config mac).0 ops

-- From lists without duplicates, any sequence of additions to and removals from the trusted, the
-- blocked and the allowed list, whatever their arguments, leaves each of the three lists with no
-- MAC address twice, upper and lower case being the same.
pub run_ops-IsUnique :
    (env : Env) (config : Config) (ops : List (MacOp × CString))
    → IsUnique config
    → IsUnique (run_ops env config ops)
unfolding run_ops
run_ops-IsUnique env config [] u = u
run_ops-IsUnique env config ((op, mac) ∷ ops) u =
    run_ops-IsUnique env (apply_op env op config mac).0 ops (apply_op-IsUnique env op config mac u)

-- What a step of a parser keeps, the parser keeps.
pub add_fields-keeps :
    (P : Config → Type 0) (add : Config → CString → Config × ℕ)
    → ((config : Config) (mac : CString) → P config → P (add config mac).0)
    → (config : Config) (fields : List CString) (config' : Config) → P config
    → add_fields add config fields ≡ some config'
    → P config'
unfolding add_fields
add_fields-keeps P add keep config [] config' p e = ground arith
add_fields-keeps P add keep config ([] ∷ fields) config' p e =
    add_fields-keeps P add keep config fields config' p e
add_fields-keeps P add keep config ((c ∷ s) ∷ fields) config' p e =
    let rest =
      add_fields-keeps P add keep (add config (c ∷ s)).0 fields config' (keep config (c ∷ s) p) in
    ground (arith, rest)

-- The list operations leave the limit of the client list alone.
pub apply_op-maxclients :
    (env : Env) (op : MacOp) (config : Config) (mac : CString)
    → (apply_op env op config mac).0.maxclients ≡ config.maxclients
unfolding apply_op add_to_trusted_mac_list remove_from_trusted_mac_list add_to_blocked_mac_list
    remove_from_blocked_mac_list add_to_allowed_mac_list remove_from_allowed_mac_list
apply_op-maxclients env (adding trusted) config mac = ground arith
apply_op-maxclients env (adding blocked) config mac = ground arith
apply_op-maxclients env (adding allowed) config mac = ground arith
apply_op-maxclients env (removing trusted) config mac = ground arith
apply_op-maxclients env (removing blocked) config mac = ground arith
apply_op-maxclients env (removing allowed) config mac = ground arith
