-- ===== src/Ndsctl/Requests.antt =====
-- The requests of src/ndsctl.c as src/ndsctl_thread.c reads them.
-- What the words of the client mean, as a specification.
use nodogsplash.Prelude.{
  All, Bool, List, Option, [], ap, arith, false, if◌then◌else◌, length, none, refl, some, suc, take,
  zero, ℕ, ◌++◌, ◌==◌, ◌||◌, ◌∷◌, ◌≡◌, ◌≤◌,
}
use nodogsplash.CString.{CString, codes, has_prefix, str_eq}
use nodogsplash.Conf.Lines.{Free}
use nodogsplash.Control.{
  Request, allow_request, argument_at, auth_request, block_request, c_string, clients_request,
  deauth_request, end_line, json_request, level_request, ndsctl_handler, perform_request,
  select_request, status_request, stop_request, trust_request, unallow_request, unblock_request,
  unknown_request, untrust_request,
}
use nodogsplash.Firewall.Counters.{Line}
use nodogsplash.Ndsctl.{Argument, known_arguments, request_text}
use nodogsplash.World.{Env, World}

unfoldable pub request_named : CString → CString → Request
request_named cmd param =
    if str_eq cmd (codes "clients")
    then clients_request
    else if str_eq cmd (codes "json")
    then json_request param
    else if str_eq cmd (codes "status")
    then status_request
    else if str_eq cmd (codes "stop")
    then stop_request
    else if str_eq cmd (codes "debuglevel")
    then level_request param
    else if str_eq cmd (codes "deauth")
    then deauth_request param
    else if str_eq cmd (codes "auth")
    then auth_request param
    else if str_eq cmd (codes "block")
    then block_request param
    else if str_eq cmd (codes "unblock")
    then unblock_request param
    else if str_eq cmd (codes "allow")
    then allow_request param
    else if str_eq cmd (codes "unallow")
    then unallow_request param
    else if str_eq cmd (codes "trust")
    then trust_request param
    else if str_eq cmd (codes "untrust")
    then untrust_request param
    else unknown_request

-- Bytes that no reader takes for the end of a request.
unfoldable pub ends_request : ℕ → Bool
ends_request c = c == 0 || (c == b'\r' || c == b'\n')

kept_byte : (c : ℕ) → ends_request c ≡ false → (if c == b'\r' || c == b'\n' then 0 else c) ≡ c
unfolding ends_request
kept_byte c h = ground arith

nonzero_byte : (c : ℕ) → ends_request c ≡ false → (c == 0) ≡ false
unfolding ends_request
nonzero_byte c h = ground arith

-- The parameter is read back from behind the command.
read_back :
    (n : ℕ) (p rest : CString)
    → Free ends_request p
    → length p ≤ n
    → c_string (end_line (take n (p ++ b'\r' ∷ rest))) ≡ p
unfolding c_string end_line ends_request
read_back zero [] rest free fits = refl
read_back zero (c ∷ p) rest free fits = absurd (omega arith)
read_back (suc n) [] rest free fits = refl
read_back (suc n) (c ∷ p) rest free fits =
    let rest_back = read_back n p rest free.1 (omega arith) in
    rw (kept_byte c free.0) (rw (nonzero_byte c free.0) (ap (λ l. c ∷ l) rest_back))

module _ (env : Env) (w : World) (out_lines in_lines : Option (List Line)) where
  -- The request of an argument is understood as what it means.
  abbrev pub IsUnderstood : Option CString → CString → Argument → Type 0
  IsUnderstood sent param arg =
      ndsctl_handler env w out_lines in_lines (request_text arg.cmd sent)
      ≡ perform_request env w out_lines in_lines (request_named arg.cmd param)

  understood :
      (r : CString → Request) (param : CString) (n : ℕ)
      → Free ends_request param
      → length param ≤ 115
      → 115 ≤ n
      → perform_request env w out_lines in_lines
          (r (c_string (end_line (take n (param ++ b'\r' ∷ b'\n' ∷ b'\r' ∷ b'\n' ∷ [])))))
        ≡ perform_request env w out_lines in_lines (r param)
  understood r param n free fits room =
      ap (λ l. perform_request env w out_lines in_lines (r l))
        (read_back n param (b'\n' ∷ b'\r' ∷ b'\n' ∷ []) free (omega arith))

  -- Every command of the client, with a parameter of at most 115 bytes without line ends, or with no
  -- parameter, makes the handler of the daemon do what the command is named after, with that parameter.
  pub request-IsUnderstood :
      (param : CString)
      → Free ends_request param
      → length param ≤ 115
      → All (IsUnderstood (some param) param) known_arguments
        × All (IsUnderstood none []) known_arguments
  unfolding ndsctl_handler request_text known_arguments request_named select_request argument_at
      end_line c_string has_prefix str_eq
  request-IsUnderstood param free fits =
      let said : (r : CString → Request) (n : ℕ)
          → 115 ≤ n
          → perform_request env w out_lines in_lines
              (r (c_string (end_line (take n (param ++ b'\r' ∷ b'\n' ∷ b'\r' ∷ b'\n' ∷ [])))))
            ≡ perform_request env w out_lines in_lines (r param) =
        λ r n room. understood r param n free fits room in
      (
        (
          refl,
          (
            said json_request 122 (omega arith),
            (
              refl,
              (
                refl,
                (
                  said level_request 116 (omega arith),
                  (
                    said deauth_request 120 (omega arith),
                    (
                      said auth_request 122 (omega arith),
                      (
                        said block_request 121 (omega arith),
                        (
                          said unblock_request 119 (omega arith),
                          (
                            said allow_request 121 (omega arith),
                            (
                              said unallow_request 119 (omega arith),
                              (
                                said trust_request 121 (omega arith),
                                (said untrust_request 119 (omega arith), tt),
                              ),
                            ),
                          ),
                        ),
                      ),
                    ),
                  ),
                ),
              ),
            ),
          ),
        ),
        (
          refl,
          (
            refl,
            (
              refl,
              (refl, (refl, (refl, (refl, (refl, (refl, (refl, (refl, (refl, (refl, tt)))))))))),
            ),
          ),
        ),
      )
