-- ===== src/Expression/Process.antt =====
-- src/literal.rs: `process_available`, `push` and `finish` of `StreamingExpressionPatternRewriter`.
use kse_static_rewrite_proxy.Base.{
  ℕ, zero, suc, ◌+◌, ◌-◌, Bool, true, false, List, [], ◌∷◌, ◌++◌, Option, none, some, ltb,
  if◌then◌else◌, length, take, drop, get_last?,
}
use kse_static_rewrite_proxy.Slice.{Bytes, bytes}
use kse_static_rewrite_proxy.Memmem.{Memmem}
use kse_static_rewrite_proxy.Literal.Result.{Result, ok, err, already_finished}
use kse_static_rewrite_proxy.Expression.Scanner.{
  ExpressionRewriter, prefix, template, ExpressionPatternMatch, matched, need_more, no_match,
  is_ascii_identifier_continue, match_candidate,
}

-- The local variables of `process_available`: `rest` is `pending[consumed..]`.
pub record Cursor : Type 0 where
  pub output : Bytes
  pub previous : Option ℕ
  pub rest : Bytes

abbrev marker_len : ℕ
marker_len = 12

-- The loop over the places of the marker `{identifier}` in the template, from `consumed` on.
render_from : ℕ → List ℕ → Bytes → Bytes → Bytes
render_from consumed [] text expression = drop consumed text
render_from consumed (position ∷ positions) text expression =
    take (position - consumed) (drop consumed text)
    ++ (expression ++ render_from (position + marker_len) positions text expression)

-- Input that is written as it stands: the `n` bytes at the cursor.
unfoldable pub copy : ℕ → Cursor → Cursor
copy n c = record {
  output = c.output ++ take n c.rest;
  previous = get_last? (take n c.rest);
  rest = drop n c.rest;
}

unfoldable pub preceded_by_identifier : Option ℕ → Bool
preceded_by_identifier none = false
preceded_by_identifier (some b) = is_ascii_identifier_continue b

module _ (memmem : Memmem) where
  unfoldable pub render_identifier_template : Bytes → Bytes → Bytes
  unfolding render_from
  render_identifier_template text expression =
      render_from 0 (memmem.find_iter (bytes "{identifier}") text) text expression

  -- What is written for a match of `matched_len` bytes at the head of `input`.
  unfoldable pub rendered : ExpressionRewriter → ℕ → Bytes → Bytes
  rendered r matched_len input =
      let behind = drop (length r.needle) input in
      let expression = take (matched_len - length r.suffix - length r.needle) behind in
      elim r.replacement [
        | prefix text ↦ text ++ take (matched_len - length r.needle) behind
        | template text ↦ render_identifier_template text expression
      ]

  unfoldable pub write_match : ExpressionRewriter → ℕ → Cursor → Cursor
  write_match r matched_len c =
      let output = c.output ++ rendered r matched_len c.rest in
      record { output = output; previous = get_last? output; rest = drop matched_len c.rest }

  -- The candidate at the cursor.
  unfoldable pub candidate : ExpressionRewriter → Bool → Cursor → ExpressionPatternMatch
  candidate r end_of_stream c =
      if preceded_by_identifier c.previous then no_match else match_candidate r c.rest end_of_stream

  -- Where no needle is left: all at the end, or all but the last bytes, which may begin a needle.
  unfoldable pub emit_rest : ExpressionRewriter → Bool → Cursor → Cursor
  emit_rest r end_of_stream c =
      let emit_len =
        if end_of_stream then length c.rest else length c.rest - (length r.needle - 1) in
      if ltb 0 emit_len then copy emit_len c else c

  -- The loop. Each round takes a byte at least, or it is the last one.
  unfoldable pub rewrite_candidates : ℕ → ExpressionRewriter → Bool → Cursor → Cursor
  rewrite_candidates zero r end_of_stream c = c
  rewrite_candidates (suc fuel) r end_of_stream c = elim (memmem.find r.needle c.rest) [
    | none ↦ emit_rest r end_of_stream c
    | some (suc position) ↦ rewrite_candidates fuel r end_of_stream (copy (suc position) c)
    | some zero ↦ elim (candidate r end_of_stream c) [
      | matched matched_len ↦ rewrite_candidates fuel r end_of_stream (write_match r matched_len c)
      | need_more ↦ c
      | no_match ↦ rewrite_candidates fuel r end_of_stream (copy 1 c)
    ]
  ]

  unfoldable pub process_available : Bool → ExpressionRewriter → Bytes × ExpressionRewriter
  process_available end_of_stream r =
      let start : Cursor = record { output = []; previous = r.previous_byte; rest = r.pending } in
      let c = rewrite_candidates (suc (length r.pending)) r end_of_stream start in
      (c.output, record r { previous_byte = c.previous; pending = c.rest })

  unfoldable pub push : ExpressionRewriter → Bytes → Result Bytes × ExpressionRewriter
  push r input =
      let (output, r') = process_available false (record r { pending = r.pending ++ input }) in
      if r.finished then (err already_finished, r) else (ok output, r')

  unfoldable pub finish : ExpressionRewriter → Result Bytes × ExpressionRewriter
  finish r =
      let (output, r') = process_available true (record r { finished = true }) in
      if r.finished then (err already_finished, r) else (ok output, r')
