-- ===== src/Conf/MacList.antt =====
-- src/conf.c, lines 996 to 1366: the trusted, blocked and allowed MAC lists. The functions read and
-- write the configuration; a C list that grows at its head is a List, and `int` results are 32-bit
-- patterns. `none` is the exit(1) of a parser.
pub mod Entries
pub mod Unique
pub mod Roundtrip
pub mod Parsing
use nodogsplash.Prelude.{
  ℕ, zero, suc, ◌+◌, ◌≡◌, Bool, true, false, not, ◌&&◌, ◌||◌, List, [], ◌∷◌, ◌++◌, Option, none,
  some, leb, ◌==◌, if◌then◌else◌,
}
use nodogsplash.Prelude.Int32.{minus_one, is_neg}
use nodogsplash.CString.{CString, codes, str_eq, str_case_eq}
use nodogsplash.Config.{Config, mac_allow, mac_block}
use nodogsplash.World.{Env}

-- [A-Fa-f0-9:]
unfoldable pub is_mac_char : ℕ → Bool
is_mac_char c =
    (leb b'A' c && leb c b'F')
    || (leb b'a' c && leb c b'f')
    || (leb b'0' c && leb c b'9')
    || c == b':'

-- sscanf(s, "%17[A-Fa-f0-9:]", mac), at most `n` bytes
unfoldable pub scan_mac : ℕ → CString → CString
scan_mac zero s = []
scan_mac (suc n) [] = []
scan_mac (suc n) (c ∷ s) = let rest = scan_mac n s in if is_mac_char c then c ∷ rest else []

-- The loops that look for an entry: without regard to case when a list is changed, byte by byte
-- when a client is classified.
unfoldable pub has_case_entry : CString → List CString → Bool
has_case_entry mac [] = false
has_case_entry mac (p ∷ ps) = str_case_eq p mac || has_case_entry mac ps

unfoldable pub has_entry : CString → List CString → Bool
has_entry mac [] = false
has_entry mac (p ∷ ps) = str_eq p mac || has_entry mac ps

-- Unlink the first entry that is the MAC without regard to case.
unfoldable pub unlink_entry : CString → List CString → List CString
unlink_entry mac [] = []
unlink_entry mac (p ∷ ps) = if str_case_eq p mac then ps else p ∷ unlink_entry mac ps

-- The part that the three add functions share: refuse a duplicate, else push at the head.
unfoldable pub push_entry : CString → List CString → List CString × ℕ
push_entry mac list = if has_case_entry mac list then (list, 1) else (mac ∷ list, 0)

-- The part that the three remove functions share.
unfoldable pub drop_entry : CString → List CString → List CString × ℕ
drop_entry mac list =
    if has_case_entry mac list then (unlink_entry mac list, 0) else (list, minus_one)

unfoldable pub add_to_trusted_mac_list : Env → Config → CString → Config × ℕ
unfolding push_entry
add_to_trusted_mac_list env config possiblemac =
    if not (env.valid_mac possiblemac)
    then (config, 1)
    else (let (list, rc) = push_entry (scan_mac 17 possiblemac) config.trustedmaclist in
        (record config { trustedmaclist = list }, rc))

unfoldable pub remove_from_trusted_mac_list : Env → Config → CString → Config × ℕ
unfolding drop_entry
remove_from_trusted_mac_list env config possiblemac =
    if not (env.valid_mac possiblemac)
    then (config, minus_one)
    else (let (list, rc) = drop_entry (scan_mac 17 possiblemac) config.trustedmaclist in
        (record config { trustedmaclist = list }, rc))

unfoldable pub add_to_blocked_mac_list : Env → Config → CString → Config × ℕ
unfolding push_entry
add_to_blocked_mac_list env config possiblemac =
    if not (env.valid_mac possiblemac)
    then (config, minus_one)
    else if not (mac_block == config.macmechanism)
    then (config, minus_one)
    else (let (list, rc) = push_entry (scan_mac 17 possiblemac) config.blockedmaclist in
        (record config { blockedmaclist = list }, rc))

unfoldable pub remove_from_blocked_mac_list : Env → Config → CString → Config × ℕ
unfolding drop_entry
remove_from_blocked_mac_list env config possiblemac =
    if not (env.valid_mac possiblemac)
    then (config, minus_one)
    else if not (mac_block == config.macmechanism)
    then (config, minus_one)
    else (let (list, rc) = drop_entry (scan_mac 17 possiblemac) config.blockedmaclist in
        (record config { blockedmaclist = list }, rc))

unfoldable pub add_to_allowed_mac_list : Env → Config → CString → Config × ℕ
unfolding push_entry
add_to_allowed_mac_list env config possiblemac =
    if not (env.valid_mac possiblemac)
    then (config, minus_one)
    else if not (mac_allow == config.macmechanism)
    then (config, minus_one)
    else (let (list, rc) = push_entry (scan_mac 17 possiblemac) config.allowedmaclist in
        (record config { allowedmaclist = list }, rc))

unfoldable pub remove_from_allowed_mac_list : Env → Config → CString → Config × ℕ
unfolding drop_entry
remove_from_allowed_mac_list env config possiblemac =
    if not (env.valid_mac possiblemac)
    then (config, minus_one)
    else if not (mac_allow == config.macmechanism)
    then (config, minus_one)
    else (let (list, rc) = drop_entry (scan_mac 17 possiblemac) config.allowedmaclist in
        (record config { allowedmaclist = list }, rc))

unfoldable pub is_blocked_mac : Config → CString → Bool
is_blocked_mac config mac =
    if not (mac_allow == config.macmechanism) then has_entry mac config.blockedmaclist else false

unfoldable pub is_allowed_mac : Config → CString → Bool
is_allowed_mac config mac =
    if not (mac_block == config.macmechanism) then has_entry mac config.allowedmaclist else false

unfoldable pub is_trusted_mac : Config → CString → Bool
is_trusted_mac config mac = has_entry mac config.trustedmaclist

-- strsep(&s, ", \t") until it returns NULL: the fields between separators, empty ones included.
unfoldable pub is_separator : ℕ → Bool
is_separator c = c == b',' || c == b' ' || c == 9

unfoldable pub split_fields : CString → CString → List CString
split_fields field [] = field ∷ []
split_fields field (c ∷ s) =
    let next = split_fields [] s in
    let more = split_fields (field ++ c ∷ []) s in if is_separator c then field ∷ next else more

-- The loops of the three parsers, over the add function that each calls.
unfoldable pub add_fields : (Config → CString → Config × ℕ) → Config → List CString → Option Config
add_fields add config [] = some config
add_fields add config ([] ∷ fields) = add_fields add config fields
add_fields add config ((c ∷ s) ∷ fields) =
    let (config', rc) = add config (c ∷ s) in
    let rest = add_fields add config' fields in if is_neg rc then none else rest

unfoldable pub parse_trusted_mac_list : Env → Config → CString → Option Config
parse_trusted_mac_list env config ptr =
    add_fields (add_to_trusted_mac_list env) config (split_fields [] ptr)

unfoldable pub parse_blocked_mac_list : Env → Config → CString → Option Config
parse_blocked_mac_list env config ptr =
    add_fields (add_to_blocked_mac_list env) config (split_fields [] ptr)

unfoldable pub parse_allowed_mac_list : Env → Config → CString → Option Config
parse_allowed_mac_list env config ptr =
    add_fields (add_to_allowed_mac_list env) config (split_fields [] ptr)
