-- ===== src/Conf/MacList/Roundtrip.antt =====
-- What adding to and removing from a MAC list of src/conf.c does to the tests of that list.
use nodogsplash.Prelude.{List, [], arith, false, true, ◌∷◌, ◌≡◌, ◌≢◌}
use nodogsplash.CString.{CString, eq_of_str_eq, str_case_eq, str_case_eq_refl, str_eq_refl}
use nodogsplash.Conf.MacList.{
  add_to_allowed_mac_list, add_to_blocked_mac_list, add_to_trusted_mac_list, drop_entry,
  has_case_entry, has_entry, is_allowed_mac, is_blocked_mac, is_trusted_mac, push_entry,
  remove_from_allowed_mac_list, remove_from_blocked_mac_list, remove_from_trusted_mac_list,
  scan_mac, unlink_entry,
}
use nodogsplash.Conf.MacList.Entries.{
  NoCaseDup, has_case_entry-unlink_self, has_case_entry_of_has_entry, has_entry-unlink_ne,
}
use nodogsplash.Conf.MacList.Unique.{
  IsUnique, ListKind, adding, allowed, apply_op, blocked, is_listed, removing, trusted,
}
use nodogsplash.Config.{Config}
use nodogsplash.World.{Env}

drop-push :
    (mac : CString) (list : List CString)
    → (push_entry mac list).1 ≡ 0
    → drop_entry mac (push_entry mac list).0 ≡ (list, 0)
unfolding push_entry drop_entry has_case_entry unlink_entry
drop-push mac list h = ground (arith, str_case_eq_refl mac)

-- An addition to a list that succeeds is undone by the removal of the same argument, which succeeds
-- too: for each of the three lists the configuration is the one before.
pub remove-add :
    (env : Env) (kind : ListKind) (config : Config) (mac : CString)
    → (apply_op env (adding kind) config mac).1 ≡ 0
    → apply_op env (removing kind) (apply_op env (adding kind) config mac).0 mac ≡ (config, 0)
unfolding apply_op add_to_trusted_mac_list remove_from_trusted_mac_list add_to_blocked_mac_list
    remove_from_blocked_mac_list add_to_allowed_mac_list remove_from_allowed_mac_list
remove-add env trusted config mac h =
    ground (arith, drop-push (scan_mac 17 mac) config.trustedmaclist)
remove-add env blocked config mac h =
    ground (arith, drop-push (scan_mac 17 mac) config.blockedmaclist)
remove-add env allowed config mac h =
    ground (arith, drop-push (scan_mac 17 mac) config.allowedmaclist)

has_entry-push_self :
    (mac : CString) (list : List CString)
    → (push_entry mac list).1 ≡ 0
    → has_entry mac (push_entry mac list).0 ≡ true
unfolding push_entry has_entry
has_entry-push_self mac list h = ground (arith, str_eq_refl mac)

-- An addition to one of the three lists that succeeds makes the test of that list succeed for the
-- address.
pub add_is_effective :
    (env : Env) (kind : ListKind) (config : Config) (mac : CString)
    → (apply_op env (adding kind) config mac).1 ≡ 0
    → is_listed kind (apply_op env (adding kind) config mac).0 (scan_mac 17 mac) ≡ true
unfolding apply_op is_listed add_to_trusted_mac_list add_to_blocked_mac_list add_to_allowed_mac_list
    is_trusted_mac is_blocked_mac is_allowed_mac
add_is_effective env trusted config mac h =
    ground (arith, has_entry-push_self (scan_mac 17 mac) config.trustedmaclist)
add_is_effective env blocked config mac h =
    ground (arith, has_entry-push_self (scan_mac 17 mac) config.blockedmaclist)
add_is_effective env allowed config mac h =
    ground (arith, has_entry-push_self (scan_mac 17 mac) config.allowedmaclist)

has_entry-drop_self :
    (mac : CString) (list : List CString)
    → NoCaseDup list
    → (drop_entry mac list).1 ≡ 0
    → has_entry mac (drop_entry mac list).0 ≡ false
unfolding drop_entry
has_entry-drop_self mac list u h = ground (
  arith,
  has_case_entry-unlink_self mac list u,
  has_case_entry_of_has_entry mac (unlink_entry mac list),
)

has_entry-drop_ne :
    (mac other : CString) (list : List CString)
    → str_case_eq other mac ≡ false
    → has_entry other (drop_entry mac list).0 ≡ has_entry other list
unfolding drop_entry
has_entry-drop_ne mac other list h = ground (arith, has_entry-unlink_ne mac other list h)

-- With lists that hold no address twice, a removal from one of them that succeeds makes its test
-- fail for the address.
pub remove_is_effective :
    (env : Env) (kind : ListKind) (config : Config) (mac : CString)
    → IsUnique config
    → (apply_op env (removing kind) config mac).1 ≡ 0
    → is_listed kind (apply_op env (removing kind) config mac).0 (scan_mac 17 mac) ≡ false
unfolding apply_op is_listed remove_from_trusted_mac_list remove_from_blocked_mac_list
    remove_from_allowed_mac_list is_trusted_mac is_blocked_mac is_allowed_mac
remove_is_effective env trusted config mac u h =
    ground (arith, has_entry-drop_self (scan_mac 17 mac) config.trustedmaclist u.on_trusted)
remove_is_effective env blocked config mac u h =
    ground (arith, has_entry-drop_self (scan_mac 17 mac) config.blockedmaclist u.on_blocked)
remove_is_effective env allowed config mac u h =
    ground (arith, has_entry-drop_self (scan_mac 17 mac) config.allowedmaclist u.on_allowed)

-- No removal, successful or not, changes the answer of a test for an address that differs from the
-- removed one in more than case.
pub remove_is_local :
    (env : Env) (kind test : ListKind) (config : Config) (mac other : CString)
    → str_case_eq other (scan_mac 17 mac) ≡ false
    → is_listed test (apply_op env (removing kind) config mac).0 other ≡ is_listed test config other
unfolding apply_op is_listed remove_from_trusted_mac_list remove_from_blocked_mac_list
    remove_from_allowed_mac_list is_trusted_mac is_blocked_mac is_allowed_mac
remove_is_local env trusted test config mac other ne =
    ground (arith, has_entry-drop_ne (scan_mac 17 mac) other config.trustedmaclist ne)
remove_is_local env blocked test config mac other ne =
    ground (arith, has_entry-drop_ne (scan_mac 17 mac) other config.blockedmaclist ne)
remove_is_local env allowed test config mac other ne =
    ground (arith, has_entry-drop_ne (scan_mac 17 mac) other config.allowedmaclist ne)

-- If the trusted list has one entry, and an address differs from it in case only, the address is not
-- recognised as trusted and cannot be added either: the addition reports a duplicate.
pub other_case_is_stuck :
    (env : Env) (config : Config) (entry mac : CString)
    → config.trustedmaclist ≡ entry ∷ []
    → str_case_eq entry (scan_mac 17 mac) ≡ true
    → entry ≢ scan_mac 17 mac
    → (is_trusted_mac config (scan_mac 17 mac) ≡ false)
      × (add_to_trusted_mac_list env config mac ≡ (config, 1))
unfolding is_trusted_mac add_to_trusted_mac_list push_entry has_case_entry has_entry
other_case_is_stuck env config entry mac e same ne =
    (ground (arith, eq_of_str_eq entry (scan_mac 17 mac)), ground arith)
