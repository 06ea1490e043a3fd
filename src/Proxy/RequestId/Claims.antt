-- ===== src/Proxy/RequestId/Claims.antt =====
-- The identifiers of requests.
use kse_static_rewrite_proxy.Base.{
  ℕ, zero, suc, ◌+◌, ◌-◌, ◌*◌, ◌/◌, ◌%◌, ◌^◌, ◌<◌, false, [], ◌∷◌, ◌++◌, ◌≡◌, ◌≢◌, refl, sym, ap,
  ◌∙◌, ltb, ◌==◌, if◌then◌else◌, arith, Bool-cases, inl, inr,
}
use native.Mathlib.Nat.{pow-suc, pow-zero}
use mathlib.Core.List.{append_cancel_left}
use kse_static_rewrite_proxy.Slice.{Bytes, bytes}
use kse_static_rewrite_proxy.Slice.Text.{contains_byte}
use kse_static_rewrite_proxy.Slice.Split.{byte_split, contains_byte-append}
use kse_static_rewrite_proxy.Proxy.RequestId.{
  hex_digit, hex_digits, new_request_id, fetch_add_one, request_sequence,
}

-- The number that hexadecimal digits stand for.
abbrev digit_value : ℕ → ℕ
digit_value c = if ltb c b'a' then c - b'0' else c - b'a' + 10

value_from : ℕ → Bytes → ℕ
value_from acc [] = acc
value_from acc (c ∷ cs) = value_from (acc * 16 + digit_value c) cs

value_from-append :
    (acc : ℕ) (xs : Bytes) (c : ℕ)
    → value_from acc (xs ++ (c ∷ [])) ≡ value_from acc xs * 16 + digit_value c
unfolding value_from
value_from-append acc [] c = refl
value_from-append acc (x ∷ xs) c = value_from-append (acc * 16 + digit_value x) xs c

digit_value-hex : (d : ℕ) → d < 16 → digit_value (hex_digit d) ≡ d
digit_value-hex d h = ground arith

value-one : (n : ℕ) → n < 16 → value_from 0 (hex_digit n ∷ []) ≡ n
unfolding value_from
value-one n h = ground (arith, digit_value-hex n h)

value-hex_digits : (fuel n : ℕ) → n < 16 ^ fuel → value_from 0 (hex_digits fuel n) ≡ n
unfolding hex_digits
value-hex_digits zero n h =
    let one : n ≡ 0 = omega (arith, pow-zero 16) in unfold value_from in sym one
value-hex_digits (suc fuel) n h =
    let smaller : n / 16 < 16 ^ fuel = omega (arith, pow-suc 16 fuel) in
    let front = value-hex_digits fuel (n / 16) smaller in
    elim (Bool-cases (ltb n 16)) [
      | inl small ↦ rw small (value-one n (ground arith))
      | inr large ↦ rw large (
          value_from-append 0 (hex_digits fuel (n / 16)) (hex_digit (n % 16))
          ∙ (let last = digit_value-hex (n % 16) (omega arith) in omega arith))
    ]

hex_digits-eq :
    (fuel n m : ℕ) → n < 16 ^ fuel → m < 16 ^ fuel → hex_digits fuel n ≡ hex_digits fuel m → n ≡ m
hex_digits-eq fuel n m h k e =
    sym (value-hex_digits fuel n h) ∙ (ap (value_from 0) e ∙ value-hex_digits fuel m k)

hex_digit-free : (d : ℕ) → d < 16 → (hex_digit d == b'-') ≡ false
hex_digit-free d h = ground arith

hex_digits-free : (fuel n : ℕ) → contains_byte b'-' (hex_digits fuel n) ≡ false
unfolding hex_digits contains_byte
hex_digits-free zero n = refl
hex_digits-free (suc fuel) n =
    let front = hex_digits-free fuel (n / 16) in
    let last = hex_digit-free (n % 16) (omega arith) in
    elim (Bool-cases (ltb n 16)) [
      | inl small ↦ rw (small, hex_digit-free n (ground arith)) refl
      | inr large ↦ rw large (
          contains_byte-append b'-' (hex_digits fuel (n / 16)) (hex_digit (n % 16) ∷ [])
          ∙ rw (front, last) refl)
    ]

-- The clock in nanoseconds is a `u128`, and the number of a request a `u64`: an identifier shows both.
pub new_request_id-eq :
    (nanos nanos' sequence sequence' : ℕ)
    → nanos < 2 ^ 128
    → nanos' < 2 ^ 128
    → sequence < 2 ^ 64
    → sequence' < 2 ^ 64
    → new_request_id nanos sequence ≡ new_request_id nanos' sequence'
    → (nanos ≡ nanos') × (sequence ≡ sequence')
unfolding new_request_id
new_request_id-eq nanos nanos' sequence sequence' h h' k k' e =
    let tail = append_cancel_left (bytes "kserw-") _ _ e in
    let (clocks, numbers) =
      byte_split b'-' (hex_digits 32 nanos) (hex_digits 32 nanos') (hex_digits 16 sequence)
        (hex_digits 16 sequence') (hex_digits-free 32 nanos) (hex_digits-free 32 nanos') tail in
    (hex_digits-eq 32 nanos nanos' h h' clocks, hex_digits-eq 16 sequence sequence' k k' numbers)

request_sequence_lem : (calls : ℕ) → request_sequence calls ≡ (calls + 1) % 2 ^ 64
unfolding request_sequence
request_sequence_lem zero = refl
request_sequence_lem (suc calls) = ap fetch_add_one (request_sequence_lem calls) ∙ omega arith

-- Of any two requests of the process with fewer than 2^64 requests from the one to the other, the
-- identifiers differ, whatever the clock says.
pub new_request_id-ne :
    (nanos nanos' first behind : ℕ)
    → nanos < 2 ^ 128
    → nanos' < 2 ^ 128
    → 0 < behind
    → behind < 2 ^ 64
    → new_request_id nanos (request_sequence first)
      ≢ new_request_id nanos' (request_sequence (first + behind))
new_request_id-ne nanos nanos' first behind h h' k l e =
    let one = request_sequence_lem first in
    let two = request_sequence_lem (first + behind) in
    let (clocks, numbers) =
      new_request_id-eq nanos nanos' (request_sequence first) (request_sequence (first + behind)) h
        h' (omega arith) (omega arith) e in
    absurd (omega arith)
