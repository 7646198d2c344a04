-- ===== src/Config.antt =====
-- src/conf.h: the configuration that the modelled parts read, and the constants of MAC filtering.
-- An `int` option is its 32-bit pattern; a `char *` that may be NULL is an Option.
use nodogsplash.Prelude.{List, Option, ℕ}
use nodogsplash.CString.{CString}

abbrev pub mac_allow : ℕ
mac_allow = 0

abbrev pub mac_block : ℕ
mac_block = 1

pub record Config : Type 0 where
  pub maxclients : ℕ
  pub gw_name : CString
  pub gw_interface : Option CString
  pub gw_address : CString
  pub gw_http_name : CString
  pub gw_http_name_port : CString
  pub splashpage : CString
  pub statuspage : CString
  pub redirect_url : Option CString
  pub authdir : CString
  pub denydir : CString
  pub session_timeout : ℕ
  pub session_timeout_block : ℕ
  pub session_limit_block : ℕ
  pub preauth_idle_timeout : ℕ
  pub auth_idle_timeout : ℕ
  pub checkinterval : ℕ
  pub traffic_control : ℕ
  pub download_limit : ℕ
  pub upload_limit : ℕ
  pub upload_ifb : ℕ
  pub macmechanism : ℕ
  pub trustedmaclist : List CString
  pub blockedmaclist : List CString
  pub allowedmaclist : List CString
  pub fw_mark_authenticated : ℕ
  pub fw_mark_blocked : ℕ
  pub fw_mark_trusted : ℕ
  pub debuglevel : ℕ
  pub ip6 : ℕ
  pub binauth : Option CString
