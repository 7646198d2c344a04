-- ===== src/Examples/Requests.antt =====
-- The theorem about the requests of src/ndsctl.c at a MAC address, and what src/ndsctl.c does with its
-- arguments.
use nodogsplash.Prelude.{All, [], arith, none, refl, some, ◌∷◌, ◌≡◌}
use nodogsplash.CString.{CString, codes, str_eq}
use nodogsplash.Control.Reading.{closed_socket_spins, read_request, read_request_ends}
use nodogsplash.Examples.{calm, mac_a, world_waiting}
use nodogsplash.Ndsctl.{crashes, known_arguments, ndsctl_main, unknown_command}
use nodogsplash.Ndsctl.Requests.{IsUnderstood, ends_request, request-IsUnderstood}

request-IsUnderstood_example :
    All (IsUnderstood calm world_waiting none none (some mac_a) mac_a) known_arguments
    × All (IsUnderstood calm world_waiting none none none []) known_arguments
unfolding ends_request
request-IsUnderstood_example =
    request-IsUnderstood calm world_waiting none none mac_a
      (
        refl,
        (
          refl,
          (
            refl,
            (
              refl,
              (
                refl,
                (
                  refl,
                  (
                    refl,
                    (
                      refl,
                      (refl, (refl, (refl, (refl, (refl, (refl, (refl, (refl, (refl, tt))))))))),
                    ),
                  ),
                ),
              ),
            ),
          ),
        ),
      )
      (omega arith)

-- "ndsctl -s" reads an argument that is not there.
option_without_path_test : ndsctl_main (codes "ndsctl" ∷ codes "-s" ∷ []) ≡ crashes
unfolding ndsctl_main str_eq
option_without_path_test = refl

unknown_command_test :
    ndsctl_main (codes "ndsctl" ∷ codes "restart" ∷ []) ≡ unknown_command (codes "restart")
unfolding ndsctl_main str_eq
unknown_command_test = refl

-- A client that sends a line end with every read.
read_request_ends_example :
    (request : CString) × (read_request 4097 (λ k. codes "stop\n") 0 [] ≡ some request)
read_request_ends_example = read_request_ends (λ k. codes "stop\n") (λ k. omega arith)

closed_socket_spins_example : read_request 9 (λ k. []) 0 [] ≡ none
closed_socket_spins_example = closed_socket_spins (λ k. []) (λ k. refl) 9
