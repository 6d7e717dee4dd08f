-- ===== src/Client.antt =====
-- internal/client/client.go: how long the client waits for an answer.
pub mod Timeouts
pub mod Requests
use tuplespace.Base.{
  ℕ, Bool, true, false, [], ◌∷◌, Text, ◌==◌, ltb, if◌then◌else◌, ℤ, pos, negsuc, not_positive,
}
use tuplespace.Http.Durations.{duration_of_ms, add_duration}

-- defaultHTTPTimeout and blockingRequestBuffer, in nanoseconds
abbrev pub default_http_timeout : ℕ
default_http_timeout = 15000000000

abbrev pub blocking_request_buffer : ℕ
blocking_request_buffer = 5000000000

-- d < n
unfoldable pub is_below : ℤ → ℕ → Bool
is_below (pos m) n = ltb m n
is_below (negsuc m) n = true

unfoldable pub timeout_for_wait_ms : ℤ → ℤ
unfolding is_below
timeout_for_wait_ms wait_ms =
    let timeout = add_duration (duration_of_ms wait_ms) blocking_request_buffer in
    if not_positive wait_ms
    then pos default_http_timeout
    else if is_below timeout default_http_timeout
    then pos default_http_timeout
    else timeout

-- strings.TrimRight(s, "/")
abbrev push_unless_slash : ℕ → Text → Text
push_unless_slash c [] = if c == b'/' then [] else c ∷ []
push_unless_slash c (d ∷ s) = c ∷ d ∷ s

unfoldable pub trim_right_slash : Text → Text
trim_right_slash [] = []
trim_right_slash (c ∷ s) = push_unless_slash c (trim_right_slash s)

-- The timeout of `NewWithTimeout`.
unfoldable pub client_timeout : ℤ → ℤ
client_timeout timeout = if not_positive timeout then pos default_http_timeout else timeout
