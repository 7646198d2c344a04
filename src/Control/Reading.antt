-- ===== src/Control/Reading.antt =====
-- The reading loop of ndsctl_handler in src/ndsctl_thread.c. `reads` is what each call of read gives:
-- no byte where the client has closed the socket. Reads that fail are not modelled.
use nodogsplash.Prelude.{
  Bool, Bool-cases, Option, [], ap, append-nil, arith, false, if◌then◌else◌, inl, inr, length,
  length-append, length-take, ltb, min, none, refl, some, suc, take, true, zero, ℕ, ◌++◌, ◌+◌, ◌-◌,
  ◌<◌, ◌==◌, ◌||◌, ◌∙◌, ◌∷◌, ◌≡◌, ◌≤◌,
}
use nodogsplash.CString.{CString}

unfoldable pub has_line_end : CString → Bool
has_line_end [] = false
has_line_end (b ∷ bs) = (b == b'\r' || b == b'\n') || has_line_end bs

-- `k` reads were done, and `got` is what the buffer of 4096 bytes holds of them.
unfoldable pub read_request : ℕ → (ℕ → CString) → ℕ → CString → Option CString
unfolding has_line_end
read_request zero reads k got = none
read_request (suc fuel) reads k got =
    let chunk = take (4096 - length got) (reads k) in
    let rest = read_request fuel reads (suc k) (got ++ chunk) in
    if ltb (length got) 4095
    then (if has_line_end chunk then some (got ++ chunk) else rest)
    else some got

take-nil : (n : ℕ) → take {A = ℕ} n [] ≡ []
take-nil zero = refl
take-nil (suc n) = refl

module _ (reads : ℕ → CString) where
  read_request-fuel :
      ((k : ℕ) → 0 < length (reads k))
      → (fuel k : ℕ) (got : CString) → length got ≤ 4096
      → 4096 < fuel + length got
      → (request : CString) × (read_request fuel reads k got ≡ some request)
  unfolding read_request
  read_request-fuel sends zero k got fits enough = absurd (omega arith)
  read_request-fuel sends (suc fuel) k got fits enough =
      let chunk = take (4096 - length got) (reads k) in
      let size : length (got ++ chunk) ≡ length got + min (4096 - length got) (length (reads k)) =
        length-append got chunk ∙ ap (λ n. length got + n) (length-take _ (reads k)) in
      elim (Bool-cases (ltb (length got) 4095)) [
        | inl room ↦ elim (Bool-cases (has_line_end chunk)) [
          | inl ended ↦ (got ++ chunk, rw (read_request, room) (rw ended refl))
          | inr open_line ↦
              let (request, found) =
                read_request-fuel sends fuel (suc k) (got ++ chunk) (ground (arith, size))
                  (ground (arith, size, sends k, room)) in
              (request, rw (read_request, room) (rw open_line found))
        ]
        | inr full ↦ (got, rw (read_request, full) refl)
      ]

  read_request-closed :
      ((k : ℕ) → reads k ≡ [])
      → (fuel k : ℕ) (got : CString) → length got < 4095
      → read_request fuel reads k got ≡ none
  unfolding read_request has_line_end
  read_request-closed closed zero k got short = refl
  read_request-closed closed (suc fuel) k got short =
      let nothing : take (4096 - length got) (reads k) ≡ [] = rw (closed k) (take-nil _) in
      let room : ltb (length got) 4095 ≡ true = ground arith in
      let same : got ++ [] ≡ got = append-nil got in
      rw (read_request, nothing, room, same) (read_request-closed closed fuel (suc k) got short)

  -- If every read gives a byte, the loop that reads a request ends within 4097 rounds.
  pub read_request_ends :
      ((k : ℕ) → 0 < length (reads k))
      → (request : CString) × (read_request 4097 reads 0 [] ≡ some request)
  read_request_ends sends = read_request-fuel sends 4097 0 [] (omega arith) (omega arith)

  -- If the client has closed the socket and no read gives a byte, the loop that reads a request does
  -- not end, however many rounds are allowed.
  pub closed_socket_spins :
      ((k : ℕ) → reads k ≡ []) → (fuel : ℕ) → read_request fuel reads 0 [] ≡ none
  closed_socket_spins closed fuel = read_request-closed closed fuel 0 [] (omega arith)
