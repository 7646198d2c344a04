-- ===== src/Ndsctl.antt =====
-- src/ndsctl.c: what the command line client asks the daemon, and how it reads the answer. The socket
-- is a parameter: whether it could be connected, and what was read from it.
pub mod Requests
use nodogsplash.Prelude.{
  Bool, List, Option, [], false, if◌then◌else◌, none, not, some, take, true, ℕ, ◌++◌, ◌∷◌,
}
use nodogsplash.CString.{CString, codes, str_eq}

pub record Argument : Type 0 where
  pub cmd : CString
  pub ifyes : Option CString
  pub ifno : Option CString

abbrev plain : CString → Argument
plain cmd = record { cmd = cmd; ifyes = none; ifno = none }

abbrev asking : CString → CString → CString → Argument
asking cmd ifyes ifno = record { cmd = cmd; ifyes = some ifyes; ifno = some ifno }

unfoldable pub known_arguments : List Argument
known_arguments =
    plain (codes "clients")
    ∷ plain (codes "json")
    ∷ plain (codes "status")
    ∷ plain (codes "stop")
    ∷ asking (codes "debuglevel") (codes "Debug level set to %s.\n")
        (codes "Failed to set debug level to %s.\n")
    ∷ asking (codes "deauth") (codes "Client %s deauthenticated.\n")
        (codes "Client %s not found.\n")
    ∷ asking (codes "auth") (codes "Client %s authenticated.\n")
        (codes "Failed to authenticate client %s.\n")
    ∷ asking (codes "block") (codes "MAC %s blocked.\n") (codes "Failed to block MAC %s.\n")
    ∷ asking (codes "unblock") (codes "MAC %s unblocked.\n") (codes "Failed to unblock MAC %s.\n")
    ∷ asking (codes "allow") (codes "MAC %s allowed.\n") (codes "Failed to allow MAC %s.\n")
    ∷ asking (codes "unallow") (codes "MAC %s unallowed.\n") (codes "Failed to unallow MAC %s.\n")
    ∷ asking (codes "trust") (codes "MAC %s trusted.\n") (codes "Failed to trust MAC %s.\n")
    ∷ asking (codes "untrust") (codes "MAC %s untrusted.\n") (codes "Failed to untrust MAC %s.\n")
    ∷ []

-- strcmp, row for row.
unfoldable pub find_argument : CString → List Argument → Option Argument
find_argument cmd [] = none
find_argument cmd (arg ∷ args) = if str_eq arg.cmd cmd then some arg else find_argument cmd args

-- The buffer of 128 bytes that snprintf fills, without the NUL.
unfoldable pub request_text : CString → Option CString → CString
request_text cmd none = take 127 (cmd ++ b'\r' ∷ b'\n' ∷ b'\r' ∷ b'\n' ∷ [])
request_text cmd (some param) = take 127 (cmd ++ b' ' ∷ param ++ b'\r' ∷ b'\n' ∷ b'\r' ∷ b'\n' ∷ [])

-- How the answer was read: an error, or the bytes up to the end or 4096 of them.
unfoldable pub answer_code : Option CString → ℕ
answer_code none = 3
answer_code (some buffer) =
    if str_eq buffer (codes "Yes") then 0 else if str_eq buffer (codes "No") then 1 else 2

asks : Argument → Bool
asks arg = elim arg.ifyes [
  | none ↦ false
  | some yes_text ↦ elim arg.ifno [ none ↦ false | some no_text ↦ true ]
]

-- ndsctl_do: the bytes written, if the socket could be connected, and the exit code. `reads` is what
-- the daemon answers to them.
unfoldable pub ndsctl_do :
    Bool → (CString → Option CString) → Argument → Option CString → Option CString × ℕ
unfolding request_text answer_code asks
ndsctl_do connected reads arg param =
    let request = request_text arg.cmd param in
    if not connected
    then (none, 3)
    else (some request, if asks arg then answer_code (reads request) else 0)

-- What main does with its arguments, argv[0] among them: usage with an exit code, a message about a
-- command that is not in the table, a request, or a read through NULL.
pub data Invocation : Type 0 where
  usage : ℕ → Invocation
  unknown_command : CString → Invocation
  requests : CString → Argument → Option CString → Invocation
  crashes : Invocation

named : CString → CString → Option CString → Option Argument → Invocation
named socket cmd param none = unknown_command cmd
named socket cmd param (some arg) = requests socket arg param

-- argv from index i on.
command_words : CString → List CString → Invocation
unfolding named find_argument known_arguments
command_words socket [] = crashes
command_words socket (cmd ∷ []) = named socket cmd none (find_argument cmd known_arguments)
command_words socket (cmd ∷ param ∷ []) =
    named socket cmd (some param) (find_argument cmd known_arguments)
command_words socket (_ ∷ _ ∷ _ ∷ _) = usage 1

with_socket : List CString → Invocation
unfolding command_words
with_socket [] = crashes
with_socket (path ∷ words) = command_words path words

unfoldable pub ndsctl_main : List CString → Invocation
unfolding command_words with_socket
ndsctl_main [] = usage 0
ndsctl_main (program ∷ []) = usage 0
ndsctl_main (program ∷ a ∷ words) =
    if str_eq a (codes "-h")
    then usage 1
    else if str_eq a (codes "-s")
    then with_socket words
    else command_words (codes "/tmp/ndsctl.sock") (a ∷ words)
