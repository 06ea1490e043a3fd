-- ===== src/Utf8.antt =====
-- `std::str::from_utf8` of Rust's standard library, as a machine that reads one byte at a time.
pub mod Laws
use kse_static_rewrite_proxy.Base.{
  ℕ, zero, suc, ◌+◌, Bool, List, [], ◌∷◌, Option, none, some, leb, within, if◌then◌else◌,
}
use kse_static_rewrite_proxy.Slice.{Bytes}

-- `Ok(_)`, or an error with its `valid_up_to` and `error_len`.
pub data Utf8Check : Type 0 where
  valid : Utf8Check
  error : ℕ → Option ℕ → Utf8Check

-- Between two characters, or inside of one: the range of the next byte, and how many continuation
-- bytes follow it.
pub data Place : Type 0 where
  boundary : Place
  inside : ℕ → ℕ → ℕ → Place

-- The place behind the first byte of a character, `none` for a byte that begins no character.
unfoldable pub first_byte : ℕ → Option Place
first_byte b =
    if leb b 0x7F
    then some boundary
    else if within 0xC2 0xDF b
    then some (inside 0x80 0xBF 0)
    else if within 0xE0 0xE0 b
    then some (inside 0xA0 0xBF 1)
    else if within 0xE1 0xEC b
    then some (inside 0x80 0xBF 1)
    else if within 0xED 0xED b
    then some (inside 0x80 0x9F 1)
    else if within 0xEE 0xEF b
    then some (inside 0x80 0xBF 1)
    else if within 0xF0 0xF0 b
    then some (inside 0x90 0xBF 2)
    else if within 0xF1 0xF3 b
    then some (inside 0x80 0xBF 2)
    else if within 0xF4 0xF4 b
    then some (inside 0x80 0x8F 2)
    else none

-- The place behind an accepted continuation byte, with `more` still to come.
abbrev pub behind : ℕ → Place
behind zero = boundary
behind (suc more) = inside 0x80 0xBF more

unfoldable pub next_byte : Place → ℕ → Option Place
unfolding first_byte
next_byte boundary b = first_byte b
next_byte (inside lo hi more) b = if within lo hi b then some (behind more) else none

-- How far the input is valid: `start` counts the bytes of whole characters, `taken` those of the
-- character that is being read.
abbrev pub start_after : ℕ → ℕ → Place → ℕ
start_after start taken boundary = start + taken + 1
start_after start taken (inside _ _ _) = start

abbrev pub taken_after : ℕ → Place → ℕ
taken_after taken boundary = 0
taken_after taken (inside _ _ _) = taken + 1

-- The length of the faulty part: the bytes read of its character, one at least.
abbrev fault_length : Place → ℕ → ℕ
fault_length boundary taken = 1
fault_length (inside _ _ _) taken = taken

-- The answer at the end of the input.
at_end : Place → ℕ → Utf8Check
at_end boundary start = valid
at_end (inside _ _ _) start = error start none

unfoldable pub check_from : Place → ℕ → ℕ → Bytes → Utf8Check
unfolding at_end
check_from place start taken [] = at_end place start
check_from place start taken (b ∷ bs) = elim (next_byte place b) [
  | none ↦ error start (some (fault_length place taken))
  | some place' ↦ check_from place' (start_after start taken place') (taken_after taken place') bs
]

unfoldable pub from_utf8 : Bytes → Utf8Check
unfolding check_from next_byte
from_utf8 = check_from boundary 0 0
