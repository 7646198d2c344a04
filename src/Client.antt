-- ===== src/Client.antt =====
-- src/client_list.h: the client record. `node` is the address of the list node, which is what a
-- `t_client *` is; the `next` pointer is the order of the list.
use nodogsplash.Prelude.{ℕ}
use nodogsplash.CString.{CString}

pub record Counters : Type 0 where
  pub incoming : ℕ
  pub outgoing : ℕ
  pub last_updated : ℕ

pub record Client : Type 0 where
  pub node : ℕ
  pub ip : CString
  pub mac : CString
  pub token : CString
  pub fw_connection_state : ℕ
  pub session_start : ℕ
  pub session_end : ℕ
  pub counters : Counters
  pub download_limit : ℕ
  pub upload_limit : ℕ
  pub id : ℕ
