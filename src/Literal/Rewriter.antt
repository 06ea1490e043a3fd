-- ===== src/Literal/Rewriter.antt =====
-- src/literal.rs: `StreamingLiteralRewriter`, with `memmem` for its search. The cursor `consumed`
-- into `pending` is the slice that begins there, so `drain(..consumed)` leaves that slice.
use kse_static_rewrite_proxy.Base.{
  ℕ, zero, suc, ◌+◌, ◌-◌, min, Bool, true, false, not, ◌&&◌, [], ◌∷◌, ◌++◌, Option, none, some, ltb,
  leb, within, if◌then◌else◌, length, take, drop,
}
use kse_static_rewrite_proxy.Slice.{Bytes, equal, starts_with, ends_with}
use kse_static_rewrite_proxy.Memmem.{Memmem}
use kse_static_rewrite_proxy.Utf8.{valid, error, from_utf8}
use kse_static_rewrite_proxy.Literal.Result.{
  empty_source, invalid_replacement, too_large, invalid_utf8, already_finished, Result, ok, err,
  panic, if_ok,
}

-- `usize::MAX` of a 64-bit target.
abbrev pub usize_max : ℕ
usize_max = 18446744073709551615

pub data LiteralRewriteMode : Type 0 where
  prepend : Bytes → Bytes → LiteralRewriteMode
  exact : Bytes → LiteralRewriteMode
  append : Bytes → Bytes → LiteralRewriteMode

-- `source` is the needle of `finder`.
pub record LiteralRewriter : Type 0 where
  pub source : Bytes
  pub mode : LiteralRewriteMode
  pub max_bytes : ℕ
  pub total_bytes : ℕ
  pub pending : Bytes
  pub input_history : Bytes
  pub utf8_tail : Bytes
  pub finished : Bool

unfoldable pub from_mode : Bytes → LiteralRewriteMode → ℕ → Result LiteralRewriter
from_mode [] mode max_bytes = err empty_source
from_mode (b ∷ bs) mode max_bytes = ok (record {
  source = b ∷ bs;
  mode = mode;
  max_bytes = max_bytes;
  total_bytes = 0;
  pending = [];
  input_history = [];
  utf8_tail = [];
  finished = false;
})

-- `slice.strip_suffix(suffix)`.
unfoldable pub strip_suffix : Bytes → Bytes → Option Bytes
unfolding ends_with
strip_suffix suffix xs =
    if ends_with suffix xs then some (take (length xs - length suffix) xs) else none

-- `StreamingLiteralRewriter::new`.
unfoldable pub new : Bytes → Bytes → ℕ → Result LiteralRewriter
new source replacement max_bytes = elim (strip_suffix source replacement) [
  | none ↦ err invalid_replacement
  | some inserted_prefix ↦ from_mode source (prepend replacement inserted_prefix) max_bytes
]

unfoldable pub new_exact : Bytes → Bytes → ℕ → Result LiteralRewriter
new_exact source replacement max_bytes = from_mode source (exact replacement) max_bytes

unfoldable pub new_with_appended_suffix : Bytes → Bytes → ℕ → Result LiteralRewriter
new_with_appended_suffix source inserted_suffix max_bytes =
    from_mode source (append (source ++ inserted_suffix) inserted_suffix) max_bytes

-- `none` stands for the `unreachable!`.
unfoldable pub utf8_sequence_len : ℕ → Option ℕ
utf8_sequence_len b =
    if within 0xC2 0xDF b
    then some 2
    else if within 0xE0 0xEF b
    then some 3
    else if within 0xF0 0xF4 b
    then some 4
    else none

-- Both validations take the tail and give back the new one.
unfoldable pub validate_utf8_slice : Bytes → Bytes → Result (Unit {0}) × Bytes
validate_utf8_slice input tail = elim (from_utf8 input) [
  | valid ↦ (ok tt, tail)
  | error upto none ↦ (ok tt, tail ++ drop upto input)
  | error upto (some _) ↦ (err invalid_utf8, tail)
]

-- The `match` for a tail that is not empty, with `boundary_input_len` bytes of the input joined to it.
unfoldable pub validate_boundary : ℕ → Bytes → Bytes → Result (Unit {0}) × Bytes
unfolding validate_utf8_slice
validate_boundary boundary_input_len input tail =
    elim (from_utf8 (tail ++ take boundary_input_len input)) [
      | valid ↦ validate_utf8_slice (drop boundary_input_len input) []
      | error upto none ↦ (ok tt, tail ++ take boundary_input_len input)
      | error upto (some _) ↦ (err invalid_utf8, [])
    ]

unfoldable pub validate_utf8 : Bytes → Bytes → Result (Unit {0}) × Bytes
unfolding validate_utf8_slice validate_boundary utf8_sequence_len
validate_utf8 input [] = validate_utf8_slice input []
validate_utf8 input (b ∷ bs) = elim (utf8_sequence_len b) [
  | none ↦ (panic, b ∷ bs)
  | some expected_len ↦
      validate_boundary (min (length input) (expected_len - length (b ∷ bs))) input (b ∷ bs)
]

unfoldable pub original_input_ends_with_prefix : Option Bytes → Bytes → Bytes → Bool
original_input_ends_with_prefix none input_history before_match = false
original_input_ends_with_prefix (some []) input_history before_match = true
original_input_ends_with_prefix (some (p ∷ ps)) input_history before_match =
    let inserted_prefix = p ∷ ps in
    let missing = length inserted_prefix - length before_match in
    if leb (length inserted_prefix) (length before_match)
    then ends_with inserted_prefix before_match
    else leb missing (length input_history)
      && (equal (drop (length input_history - missing) input_history) (take missing inserted_prefix)
          && equal before_match (drop missing inserted_prefix))

unfoldable pub remember_input : Option Bytes → Bytes → Bytes → Bytes
remember_input none input_history input = input_history
remember_input (some []) input_history input = input_history
remember_input (some (p ∷ ps)) input_history input =
    let history_len = length (p ∷ ps) in
    let remove = length input_history + length input - history_len in
    if leb history_len (length input)
    then drop (length input - history_len) input
    else drop remove input_history ++ input

-- The three parts that `process_available` reads off its mode.
abbrev pub replacement_of : LiteralRewriteMode → Bytes
replacement_of (prepend replacement inserted_prefix) = replacement
replacement_of (exact replacement) = replacement
replacement_of (append replacement inserted_suffix) = replacement

abbrev pub inserted_prefix_of : LiteralRewriteMode → Option Bytes
inserted_prefix_of (prepend replacement inserted_prefix) = some inserted_prefix
inserted_prefix_of (exact replacement) = none
inserted_prefix_of (append replacement inserted_suffix) = none

abbrev pub inserted_suffix_of : LiteralRewriteMode → Option Bytes
inserted_suffix_of (prepend replacement inserted_prefix) = none
inserted_suffix_of (exact replacement) = none
inserted_suffix_of (append replacement inserted_suffix) = some inserted_suffix

-- The local variables of `process_available`: `rest` is `pending[consumed..]`.
pub record Cursor : Type 0 where
  pub output : Bytes
  pub history : Bytes
  pub rest : Bytes

-- The inserted suffix may still arrive, so the match has to wait for more input.
unfoldable pub must_wait : Option Bytes → Bool → Bytes → Bool
must_wait none end_of_stream after = false
must_wait (some inserted_suffix) end_of_stream after =
    not end_of_stream
    && (ltb (length after) (length inserted_suffix) && starts_with after inserted_suffix)

-- What is written for a match.
unfoldable pub written : LiteralRewriteMode → Bytes → Bool → Bytes → Bytes
written mode source already_prefixed after = elim (inserted_suffix_of mode) [
  | some inserted_suffix ↦ if starts_with inserted_suffix after then source else replacement_of mode
  | none ↦ if already_prefixed then source else replacement_of mode
]

-- The text before the match is written and remembered.
unfoldable pub write_before : LiteralRewriteMode → ℕ → Cursor → Cursor
unfolding remember_input
write_before mode position c = record {
  output = c.output ++ take position c.rest;
  history = remember_input (inserted_prefix_of mode) c.history (take position c.rest);
  rest = drop position c.rest;
}

-- Then the match at the head of `rest` is written; the flag is `already_prefixed`.
unfoldable pub write_match : LiteralRewriteMode → Bytes → Bool → Cursor → Cursor
unfolding remember_input written
write_match mode source already_prefixed c = record {
  output = c.output ++ written mode source already_prefixed (drop (length source) c.rest);
  history = remember_input (inserted_prefix_of mode) c.history source;
  rest = drop (length source) c.rest;
}

unfoldable pub emit : LiteralRewriteMode → ℕ → Cursor → Cursor
unfolding write_before
emit mode emit_len c = if ltb 0 emit_len then write_before mode emit_len c else c

-- Behind the loop: what can no longer be a part of a match is written.
unfoldable pub emit_rest : Bool → LiteralRewriteMode → Bytes → Cursor → Cursor
unfolding emit
emit_rest end_of_stream mode source c =
    emit mode (if end_of_stream then length c.rest else length c.rest - (length source - 1)) c

-- `total_bytes.checked_add(input.len())`, and the limit. The new total is kept on `too_large` too,
-- unless the addition overflows.
unfoldable pub add_input : ℕ → ℕ → ℕ → Result (Unit {0}) × ℕ
add_input max_bytes total_bytes added =
    if ltb usize_max (total_bytes + added)
    then (err (too_large max_bytes), total_bytes)
    else if ltb max_bytes (total_bytes + added)
    then (err (too_large max_bytes), total_bytes + added)
    else (ok tt, total_bytes + added)

module _ (memmem : Memmem) where
  -- The `while let` loop. The flag says that it returned to wait for more input.
  unfoldable pub rewrite_matches : ℕ → Bool → LiteralRewriteMode → Bytes → Cursor → Bool × Cursor
  unfolding write_before write_match must_wait original_input_ends_with_prefix ends_with
  rewrite_matches zero end_of_stream mode source c = (false, c)
  rewrite_matches (suc fuel) end_of_stream mode source c = elim (memmem.find source c.rest) [
    | none ↦ (false, c)
    | some position ↦
        let already_prefixed =
          original_input_ends_with_prefix (inserted_prefix_of mode) c.history
            (take position c.rest) in
        let c' = write_before mode position c in
        let next =
          rewrite_matches fuel end_of_stream mode source
            (write_match mode source already_prefixed c') in
        if must_wait (inserted_suffix_of mode) end_of_stream (drop (length source) c'.rest)
        then (true, c')
        else next
  ]

  unfoldable pub process_available : Bool → LiteralRewriter → Bytes × LiteralRewriter
  unfolding rewrite_matches emit_rest
  process_available end_of_stream r =
      let start : Cursor = record { output = []; history = r.input_history; rest = r.pending } in
      let (waits, c) =
        rewrite_matches (suc (length r.pending)) end_of_stream r.mode r.source start in
      let last = if waits then c else emit_rest end_of_stream r.mode r.source c in
      (last.output, record r { input_history = last.history; pending = last.rest })

  -- `push` behind its limit: the chunk is validated, and what can be written is written.
  unfoldable pub push_validated : LiteralRewriter → Bytes → Result Bytes × LiteralRewriter
  push_validated r input =
      let (validated, tail) = validate_utf8 input r.utf8_tail in
      let r' = record r { utf8_tail = tail } in
      let (output, r'') = process_available false (record r' { pending = r.pending ++ input }) in
      if_ok validated r' (ok output, r'')

  -- `push` behind its first test.
  unfoldable pub push_open : LiteralRewriter → Bytes → Result Bytes × LiteralRewriter
  push_open r input =
      let (counted, total) = add_input r.max_bytes r.total_bytes (length input) in
      let r' = record r { total_bytes = total } in if_ok counted r' (push_validated r' input)

  unfoldable pub push : LiteralRewriter → Bytes → Result Bytes × LiteralRewriter
  push r input = if r.finished then (err already_finished, r) else push_open r input

  unfoldable pub finish : LiteralRewriter → Result Bytes × LiteralRewriter
  finish r =
      let r₁ = record r { finished = true } in
      let (output, r₂) = process_available true r₁ in
      if r.finished
      then (err already_finished, r)
      else if ltb 0 (length r.utf8_tail)
      then (err invalid_utf8, r₁)
      else (ok output, r₂)
