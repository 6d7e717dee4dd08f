-- ===== src/Http/Durations.antt =====
-- Milliseconds of a request as a time.Duration, a number of nanoseconds in an int64
-- (internal/api/httpapi/handlers.go, internal/client/client.go).
use tuplespace.Base.{
  ℕ, suc, ◌+◌, ◌-◌, ◌*◌, ◌%◌, ◌≤◌, ◌<◌, ◌≡◌, refl, true, ltb, if◌then◌else◌, ℤ, pos, negsuc, arith,
}

-- The int64 with the lowest 64 bits of n, and of -n.
pub wrap_pos : ℕ → ℤ
wrap_pos n =
    let r = n % 18446744073709551616 in
    if ltb r 9223372036854775808 then pos r else negsuc (18446744073709551615 - r)

wrap_neg : ℕ → ℤ
unfolding wrap_pos
wrap_neg n = wrap_pos (18446744073709551616 - n % 18446744073709551616)

-- time.Duration(ms) * time.Millisecond
unfoldable pub duration_of_ms : ℤ → ℤ
unfolding wrap_pos wrap_neg
duration_of_ms (pos n) = wrap_pos (n * 1000000)
duration_of_ms (negsuc n) = wrap_neg (suc n * 1000000)

-- d + n
unfoldable pub add_duration : ℤ → ℕ → ℤ
unfolding wrap_pos wrap_neg
add_duration (pos m) n = wrap_pos (m + n)
add_duration (negsuc m) n = if ltb m n then wrap_pos (n - suc m) else wrap_neg (suc m - n)

pub wrap_pos_small : (n : ℕ) → n < 9223372036854775808 → wrap_pos n ≡ pos n
unfolding wrap_pos
wrap_pos_small n h =
    let e : n % 18446744073709551616 ≡ n = omega arith in
    let small : ltb n 9223372036854775808 ≡ true = ground arith in rw e (rw small refl)

-- A wait of up to 9223372036854 milliseconds is the duration that the client asked for.
pub duration_of_ms_exact : (n : ℕ) → n ≤ 9223372036854 → duration_of_ms (pos n) ≡ pos (n * 1000000)
unfolding duration_of_ms
duration_of_ms_exact n h = wrap_pos_small (n * 1000000) (omega arith)

pub add_duration_exact :
    (m n : ℕ) → m + n < 9223372036854775808 → add_duration (pos m) n ≡ pos (m + n)
unfolding add_duration
add_duration_exact m n h = wrap_pos_small (m + n) h
