-- ===== src/Expression/Scanner.antt =====
-- src/literal.rs: the matcher of `StreamingExpressionPatternRewriter`, and its configuration.
use kse_static_rewrite_proxy.Base.{
  ℕ, zero, suc, ◌+◌, ◌-◌, min, Bool, false, ◌||◌, [], ◌∷◌, Option, none, ltb, within, ◌==◌,
  if◌then◌else◌, length, take, drop,
}
use kse_static_rewrite_proxy.Slice.{Bytes, equal}
use kse_static_rewrite_proxy.Literal.Result.{Result, ok, err, empty_source}

pub data PatternSyntax : Type 0 where
  identifier member_expression : PatternSyntax

pub data ExpressionReplacement : Type 0 where
  prefix template : Bytes → ExpressionReplacement

pub data ExpressionPatternMatch : Type 0 where
  matched : ℕ → ExpressionPatternMatch
  need_more no_match : ExpressionPatternMatch

-- `needle` is that of `prefix_finder`.
pub record ExpressionRewriter : Type 0 where
  pub needle : Bytes
  pub suffix : Bytes
  pub replacement : ExpressionReplacement
  pub syntax : PatternSyntax
  pub pending : Bytes
  pub previous_byte : Option ℕ
  pub finished : Bool

-- What the three constructors share: neither part may be empty.
make : Bytes → Bytes → ExpressionReplacement → Result ExpressionRewriter
make [] suffix replacement = err empty_source
make (b ∷ bs) [] replacement = err empty_source
make (b ∷ bs) (c ∷ cs) replacement = ok (record {
  needle = b ∷ bs;
  suffix = c ∷ cs;
  replacement = replacement;
  syntax = identifier;
  pending = [];
  previous_byte = none;
  finished = false;
})

-- `StreamingExpressionPatternRewriter::new`.
unfoldable pub new : Bytes → Bytes → Bytes → Result ExpressionRewriter
unfolding make
new needle suffix replacement_prefix = make needle suffix (prefix replacement_prefix)

abbrev with_members : Result ExpressionRewriter → Result ExpressionRewriter
with_members (ok r) = ok (record r { syntax = member_expression })
with_members other = other

unfoldable pub new_member_expression : Bytes → Bytes → Bytes → Result ExpressionRewriter
unfolding new
new_member_expression needle suffix replacement_prefix =
    with_members (new needle suffix replacement_prefix)

unfoldable pub new_template : Bytes → Bytes → Bytes → Result ExpressionRewriter
unfolding make
new_template needle suffix text = make needle suffix (template text)

-- `is_ascii_alphabetic`, `_` or `$`.
unfoldable pub is_ascii_identifier_start : ℕ → Bool
is_ascii_identifier_start b = within b'A' b'Z' b || (within b'a' b'z' b || (b == b'_' || b == b'$'))

unfoldable pub is_ascii_identifier_continue : ℕ → Bool
unfolding is_ascii_identifier_start
is_ascii_identifier_continue b = is_ascii_identifier_start b || within b'0' b'9' b

-- `end` holds the input behind the segment.
pub data IdentifierSegmentScan : Type 0 where
  end : Bytes → IdentifierSegmentScan
  segment_need_more segment_no_match : IdentifierSegmentScan

-- The `while` loop of `scan_identifier_segment`.
unfoldable pub skip_continue : Bytes → Bytes
skip_continue [] = []
skip_continue (b ∷ bs) = if is_ascii_identifier_continue b then skip_continue bs else b ∷ bs

unfoldable pub scan_identifier_segment : Bytes → Bool → IdentifierSegmentScan
scan_identifier_segment [] end_of_stream =
    if end_of_stream then segment_no_match else segment_need_more
scan_identifier_segment (b ∷ bs) end_of_stream =
    if is_ascii_identifier_start b then end (skip_continue bs) else segment_no_match

-- The `while` loop of `match_candidate` over `.name` members; each round takes a byte at least.
unfoldable pub scan_members : ℕ → Bytes → Bool → IdentifierSegmentScan
scan_members zero input end_of_stream = end input
scan_members (suc fuel) [] end_of_stream = end []
scan_members (suc fuel) (b ∷ bs) end_of_stream =
    let round = elim (scan_identifier_segment bs end_of_stream) as (λ _. IdentifierSegmentScan) [
      | end rest ↦ scan_members fuel rest end_of_stream
      | segment_need_more ↦ segment_need_more
      | segment_no_match ↦ segment_no_match
    ] in
    if b == b'.' then round else end (b ∷ bs)

-- The expression behind the needle, by the syntax.
unfoldable pub scan_expression : PatternSyntax → Bytes → Bool → IdentifierSegmentScan
scan_expression identifier input end_of_stream = scan_identifier_segment input end_of_stream
scan_expression member_expression input end_of_stream =
    elim (scan_identifier_segment input end_of_stream) [
      | end rest ↦ scan_members (length rest) rest end_of_stream
      | segment_need_more ↦ segment_need_more
      | segment_no_match ↦ segment_no_match
    ]

-- The suffix against what follows the expression; `start_len` is the length of the input at `start`.
unfoldable pub match_suffix : Bytes → ℕ → Bytes → Bool → ExpressionPatternMatch
match_suffix suffix start_len [] end_of_stream = if end_of_stream then no_match else need_more
match_suffix suffix start_len (b ∷ bs) end_of_stream =
    let available = b ∷ bs in
    let compared_len = min (length available) (length suffix) in
    if equal (take compared_len available) (take compared_len suffix)
    then (if ltb (length available) (length suffix)
        then (if end_of_stream then no_match else need_more)
        else matched (start_len - length available + length suffix))
    else no_match

-- The input begins at `start`.
unfoldable pub match_candidate : ExpressionRewriter → Bytes → Bool → ExpressionPatternMatch
match_candidate r input end_of_stream =
    elim (scan_expression r.syntax (drop (length r.needle) input) end_of_stream) [
      | end rest ↦ match_suffix r.suffix (length input) rest end_of_stream
      | segment_need_more ↦ need_more
      | segment_no_match ↦ no_match
    ]
