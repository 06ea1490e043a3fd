-- ===== src/Proxy/RequestId.antt =====
-- src/proxy.rs: `new_request_id` with its counter. The clock is a parameter.
pub mod Claims
use kse_static_rewrite_proxy.Base.{
  ℕ, zero, suc, ◌+◌, ◌-◌, ◌/◌, ◌%◌, ◌^◌, [], ◌∷◌, ◌++◌, ltb, if◌then◌else◌,
}
use kse_static_rewrite_proxy.Slice.{Bytes, bytes}

abbrev pub hex_digit : ℕ → ℕ
hex_digit d = if ltb d 10 then d + b'0' else d - 10 + b'a'

-- `{:x}` of a number with as many digits at most.
unfoldable pub hex_digits : ℕ → ℕ → Bytes
hex_digits zero n = []
hex_digits (suc fuel) n =
    if ltb n 16 then hex_digit n ∷ [] else hex_digits fuel (n / 16) ++ (hex_digit (n % 16) ∷ [])

-- A `u128` has 32 digits at most, and a `u64` has 16.
unfoldable pub new_request_id : ℕ → ℕ → Bytes
unfolding hex_digits
new_request_id nanos sequence =
    bytes "kserw-" ++ (hex_digits 32 nanos ++ (bytes "-" ++ hex_digits 16 sequence))

-- `REQUEST_SEQUENCE.fetch_add(1, …)`: an `AtomicU64` wraps round.
abbrev pub fetch_add_one : ℕ → ℕ
fetch_add_one sequence = (sequence + 1) % 2 ^ 64

-- `REQUEST_SEQUENCE` after so many calls. It starts at 1.
unfoldable pub request_sequence : ℕ → ℕ
request_sequence zero = 1
request_sequence (suc calls) = fetch_add_one (request_sequence calls)
