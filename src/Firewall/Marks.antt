-- ===== src/Firewall/Marks.antt =====
-- The packet marks of src/fw_iptables.c, which are the states of a client: their initialisation and
-- their names.
use nodogsplash.Prelude.{arith, bit_or, if◌then◌else◌, ℕ, ◌==◌, ◌||◌, ◌↔◌, ◌≡◌, ◌≢◌}
use nodogsplash.Prelude.Int32.{minus_one}
use nodogsplash.CString.{CString, codes}
use nodogsplash.Auth.Transitions.{AreDistinct}
use nodogsplash.Config.{Config}
use nodogsplash.World.{Marks}

-- The values that iptables_fw_init copies from the configuration before the check; `mask` is
-- FW_MARK_MASK. The result is the new marks, the new mask and what the function returns.
unfoldable pub load_marks : Config → Marks → Marks
load_marks config marks = record marks {
  blocked = config.fw_mark_blocked;
  trusted = config.fw_mark_trusted;
  authenticated = config.fw_mark_authenticated;
}

unfoldable pub iptables_init_marks : Marks → ℕ → (Marks × ℕ) × ℕ
iptables_init_marks marks mask =
    if marks.blocked == marks.trusted
      || marks.trusted == marks.authenticated
      || marks.authenticated == marks.blocked
    then ((marks, mask), minus_one)
    else if marks.blocked == 0 || marks.trusted == 0 || marks.authenticated == 0
    then ((marks, mask), minus_one)
    else (
      (
        record marks { preauthenticated = 0 },
        bit_or (bit_or marks.blocked marks.trusted) marks.authenticated,
      ),
      0,
    )

unfoldable pub start_marks : Config → Marks → ℕ → (Marks × ℕ) × ℕ
unfolding load_marks iptables_init_marks
start_marks config marks mask = iptables_init_marks (load_marks config marks) mask

unfoldable pub fw_connection_state_as_string : Marks → ℕ → CString
fw_connection_state_as_string marks mark =
    if mark == marks.preauthenticated
    then codes "Preauthenticated"
    else if mark == marks.authenticated
    then codes "Authenticated"
    else if mark == marks.trusted
    then codes "Trusted"
    else if mark == marks.blocked
    then codes "Blocked"
    else codes "ERROR: unrecognized mark"

-- The initialisation returns 0 exactly if the three configured marks are distinct and none is 0.
pub start_marks_succeeds :
    (config : Config) (marks : Marks) (mask : ℕ)
    → ((start_marks config marks mask).1 ≡ 0) ↔ (
        ((config.fw_mark_blocked ≢ config.fw_mark_trusted)
          × (config.fw_mark_trusted ≢ config.fw_mark_authenticated)
          × (config.fw_mark_authenticated ≢ config.fw_mark_blocked))
        × ((config.fw_mark_blocked ≢ 0)
            × (config.fw_mark_trusted ≢ 0)
            × (config.fw_mark_authenticated ≢ 0)))
unfolding start_marks
start_marks_succeeds config marks mask = (
  λ e. (
    (λ p. ground (arith, e, p), λ p. ground (arith, e, p), λ p. ground (arith, e, p)),
    (λ p. ground (arith, e, p), λ p. ground (arith, e, p), λ p. ground (arith, e, p)),
  ),
  λ p. ground (arith, p.0.0, p.0.1, p.0.2, p.1.0, p.1.1, p.1.2),
)

-- After an initialisation that returns 0 the four states of a client are pairwise distinct.
pub start_marks-AreDistinct :
    (config : Config) (marks : Marks) (mask : ℕ)
    → (start_marks config marks mask).1 ≡ 0
    → AreDistinct (start_marks config marks mask).0.0
unfolding start_marks
start_marks-AreDistinct config marks mask e = record {
  pre_auth = λ p. ground (arith, e, p);
  pre_blocked = λ p. ground (arith, e, p);
  pre_trusted = λ p. ground (arith, e, p);
  auth_blocked = λ p. ground (arith, e, p);
  auth_trusted = λ p. ground (arith, e, p);
  blocked_trusted = λ p. ground (arith, e, p);
}

-- With distinct marks, the name of a state tells whether it is the authenticated one.
pub state_name_authenticated :
    (marks : Marks) (mark : ℕ)
    → AreDistinct marks
    → (fw_connection_state_as_string marks mark ≡ codes "Authenticated")
      ↔ (mark ≡ marks.authenticated)
unfolding fw_connection_state_as_string
state_name_authenticated marks mark d = (λ e. ground (arith, e), λ e. ground (arith, e, d.pre_auth))
