-- ===== src/Conf/MacList/Parsing.antt =====
-- The parsers of the MAC lists in src/conf.c: when they end the program.
use nodogsplash.Prelude.{
  Bool, List, [], arith, false, none, not, refl, some, true, ◌||◌, ◌↔◌, ◌∷◌, ◌≡◌,
}
use nodogsplash.Prelude.Int32.{is_neg}
use nodogsplash.CString.{CString}
use nodogsplash.Conf.MacList.{
  add_fields, add_to_allowed_mac_list, add_to_blocked_mac_list, add_to_trusted_mac_list,
  parse_allowed_mac_list, parse_blocked_mac_list, parse_trusted_mac_list, push_entry, split_fields,
}
use nodogsplash.Conf.MacList.Unique.{
  IsUnique, ListKind, add_fields-keeps, adding, allowed, apply_op, apply_op-IsUnique, blocked,
  parse_list, trusted,
}
use nodogsplash.Config.{Config, mac_block}
use nodogsplash.World.{Env}

-- Some field that is not empty is no MAC address.
pub has_bad_field : Env → List CString → Bool
has_bad_field env [] = false
has_bad_field env ([] ∷ fields) = has_bad_field env fields
has_bad_field env ((c ∷ s) ∷ fields) = not (env.valid_mac (c ∷ s)) || has_bad_field env fields

trusted_rc :
    (env : Env) (config : Config) (mac : CString)
    → is_neg (add_to_trusted_mac_list env config mac).1 ≡ false
unfolding add_to_trusted_mac_list push_entry
trusted_rc env config mac = ground arith

blocked_rc :
    (env : Env) (config : Config) (mac : CString)
    → config.macmechanism ≡ mac_block
    → (is_neg (add_to_blocked_mac_list env config mac).1 ≡ not (env.valid_mac mac))
      × ((add_to_blocked_mac_list env config mac).0.macmechanism ≡ mac_block)
unfolding add_to_blocked_mac_list push_entry
blocked_rc env config mac h = ground arith

trusted_total :
    (env : Env) (config : Config) (fields : List CString)
    → (config' : Config) × (add_fields (add_to_trusted_mac_list env) config fields ≡ some config')
unfolding add_fields
trusted_total env config [] = (config, refl)
trusted_total env config ([] ∷ fields) = trusted_total env config fields
trusted_total env config ((c ∷ s) ∷ fields) =
    let (config', e) = trusted_total env (add_to_trusted_mac_list env config (c ∷ s)).0 fields in
    (config', ground (arith, e, trusted_rc env config (c ∷ s)))

-- The parser of the trusted list never ends the program, whatever the text.
pub parse_trusted_total :
    (env : Env) (config : Config) (ptr : CString)
    → (config' : Config) × (parse_trusted_mac_list env config ptr ≡ some config')
unfolding parse_trusted_mac_list
parse_trusted_total env config ptr = trusted_total env config (split_fields [] ptr)

blocked_exits :
    (env : Env) (config : Config) (fields : List CString)
    → config.macmechanism ≡ mac_block
    → (add_fields (add_to_blocked_mac_list env) config fields ≡ none)
      ↔ (has_bad_field env fields ≡ true)
unfolding add_fields has_bad_field
blocked_exits env config [] h = (λ e. cc, λ e. cc)
blocked_exits env config ([] ∷ fields) h = blocked_exits env config fields h
blocked_exits env config ((c ∷ s) ∷ fields) h =
    let (rc, mech) = blocked_rc env config (c ∷ s) h in
    let ih = blocked_exits env (add_to_blocked_mac_list env config (c ∷ s)).0 fields mech in
    (λ e. ground (arith, ih.0, rc), λ e. ground (arith, ih.1, rc))

-- Under the block mechanism the parser of the blocked list ends the program exactly when the text
-- has a field, between commas, blanks and tabs, that is not empty and no MAC address.
pub parse_blocked_exits :
    (env : Env) (config : Config) (ptr : CString)
    → config.macmechanism ≡ mac_block
    → (parse_blocked_mac_list env config ptr ≡ none)
      ↔ (has_bad_field env (split_fields [] ptr) ≡ true)
unfolding parse_blocked_mac_list
parse_blocked_exits env config ptr h = blocked_exits env config (split_fields [] ptr) h

-- Reading one of the three lists from a configuration file keeps all three without duplicates,
-- whenever the program goes on.
pub parse-IsUnique :
    (env : Env) (kind : ListKind) (config config' : Config) (ptr : CString)
    → IsUnique config
    → parse_list env kind config ptr ≡ some config'
    → IsUnique config'
unfolding parse_list parse_trusted_mac_list parse_blocked_mac_list parse_allowed_mac_list apply_op
parse-IsUnique env trusted config config' ptr u =
    add_fields-keeps IsUnique (add_to_trusted_mac_list env) (apply_op-IsUnique env (adding trusted))
      config (split_fields [] ptr) config' u
parse-IsUnique env blocked config config' ptr u =
    add_fields-keeps IsUnique (add_to_blocked_mac_list env) (apply_op-IsUnique env (adding blocked))
      config (split_fields [] ptr) config' u
parse-IsUnique env allowed config config' ptr u =
    add_fields-keeps IsUnique (add_to_allowed_mac_list env) (apply_op-IsUnique env (adding allowed))
      config (split_fields [] ptr) config' u
