-- ===== src/Client/Timeouts.antt =====
-- The client's timeout and the server's wait (internal/client/client.go).
use tuplespace.Base.{
  ℕ, ◌+◌, ◌*◌, ◌≤◌, ◌≡◌, inl, inr, refl, ltb, ◌==◌, if◌then◌else◌, ℤ, pos, negsuc, not_positive,
  arith, Bool-cases,
}
use tuplespace.Http.Durations.{
  duration_of_ms, add_duration, duration_of_ms_exact, add_duration_exact,
}
use tuplespace.Client.{timeout_for_wait_ms, is_below, default_http_timeout, blocking_request_buffer}

AtLeast : ℕ → ℤ → Type 0
AtLeast n d = (t : ℕ) × (d ≡ pos t) × (n ≤ t)

lower_bound :
    (d : ℤ)
    → AtLeast default_http_timeout
        (if is_below d default_http_timeout then pos default_http_timeout else d)
unfolding is_below AtLeast
lower_bound (pos m) = elim (Bool-cases (ltb m default_http_timeout)) [
  | inl e ↦ (default_http_timeout, rw e refl, omega arith)
  | inr e ↦ (m, rw e refl, ground arith)
]
lower_bound (negsuc m) = (default_http_timeout, refl, omega arith)

-- The client never waits less than its default of 15 seconds, whatever the wait of the request, also
-- where the duration overflows.
pub timeout_for_wait_ms_least :
    (wait_ms : ℤ) → (t : ℕ) × (timeout_for_wait_ms wait_ms ≡ pos t) × (default_http_timeout ≤ t)
unfolding timeout_for_wait_ms AtLeast
timeout_for_wait_ms_least wait_ms = elim (Bool-cases (not_positive wait_ms)) [
  | inl e ↦ (default_http_timeout, rw e refl, omega arith)
  | inr e ↦ rw e (lower_bound (add_duration (duration_of_ms wait_ms) blocking_request_buffer))
]

-- Up to 9223372031854 milliseconds, the client's timeout is at least five seconds longer than the wait
-- that the server makes of the same request.
pub timeout_for_wait_ms-duration_of_ms :
    (n : ℕ)
    → n ≤ 9223372031854
    → (wait t : ℕ) × (duration_of_ms (pos n) ≡ pos wait)
      × (timeout_for_wait_ms (pos n) ≡ pos t)
      × (wait + blocking_request_buffer ≤ t)
unfolding timeout_for_wait_ms is_below not_positive
timeout_for_wait_ms-duration_of_ms n h =
    let exact = duration_of_ms_exact n (omega arith) in
    let wait = n * 1000000 in
    let sum : add_duration (pos wait) blocking_request_buffer
        ≡ pos (wait + blocking_request_buffer) =
      add_duration_exact wait blocking_request_buffer (omega arith) in
    elim (Bool-cases (n == 0)) [
      | inl e ↦ (wait, default_http_timeout, exact, rw e refl, ground arith)
      | inr e ↦ elim (Bool-cases (ltb (wait + blocking_request_buffer) default_http_timeout)) [
        | inl f ↦
            (wait, default_http_timeout, exact, rw e (rw exact (rw sum (rw f refl))), ground arith)
        | inr f ↦ (
          wait,
          wait + blocking_request_buffer,
          exact,
          rw e (rw exact (rw sum (rw f refl))),
          omega arith,
        )
      ]
    ]
