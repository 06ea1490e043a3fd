-- ===== src/Pipeline.antt =====
-- src/literal.rs: `StreamingRewritePipeline`, with its constructors.
pub mod Built
pub mod Claims
pub mod Contract
use kse_static_rewrite_proxy.Base.{ℕ, Bool, true, false, List, [], ◌∷◌, ◌++◌, if◌then◌else◌, length}
use kse_static_rewrite_proxy.Slice.{Bytes}
use kse_static_rewrite_proxy.Memmem.{Memmem}
use kse_static_rewrite_proxy.Streaming.{Streaming}
use kse_static_rewrite_proxy.Chain.{push_all, finish_all}
use kse_static_rewrite_proxy.Literal.Result.{
  Result, ok, err, empty_rules, already_finished, ◌>>=◌, if_ok,
}
use kse_static_rewrite_proxy.Literal.Rewriter as Literal
use kse_static_rewrite_proxy.Literal.Rewriter.{LiteralRewriter, add_input, usize_max}
use kse_static_rewrite_proxy.Expression.Scanner as Expression
use kse_static_rewrite_proxy.Expression.Scanner.{ExpressionRewriter}
use kse_static_rewrite_proxy.Stage.{
  StreamingRewriter, buffered, literal, expression_pattern, stage_streaming,
}

pub record Pipeline : Type 0 where
  pub rewriters : List StreamingRewriter
  pub max_bytes : ℕ
  pub total_bytes : ℕ
  pub finished : Bool

unfoldable pub from_rewriters : List StreamingRewriter → ℕ → Result Pipeline
from_rewriters [] max_bytes = err empty_rules
from_rewriters (s ∷ ss) max_bytes =
    ok (record { rewriters = s ∷ ss; max_bytes = max_bytes; total_bytes = 0; finished = false })

unfoldable pub prefix_literal_rewriters : List (Bytes × Bytes) → Result (List StreamingRewriter)
prefix_literal_rewriters [] = ok []
prefix_literal_rewriters ((source, replacement) ∷ rules) =
    Literal.new source replacement usize_max >>= λ r.
    prefix_literal_rewriters rules >>= λ rs. ok (literal r ∷ rs)

unfoldable pub exact_literal_rewriters : List (Bytes × Bytes) → Result (List StreamingRewriter)
exact_literal_rewriters [] = ok []
exact_literal_rewriters ((source, replacement) ∷ rules) =
    Literal.new_exact source replacement usize_max >>= λ r.
    exact_literal_rewriters rules >>= λ rs. ok (literal r ∷ rs)

-- `StreamingRewritePipeline::new`.
unfoldable pub new : List (Bytes × Bytes) → ℕ → Result Pipeline
unfolding from_rewriters prefix_literal_rewriters
new rules max_bytes = prefix_literal_rewriters rules >>= λ rs. from_rewriters rs max_bytes

unfoldable pub new_with_exact : List (Bytes × Bytes) → List (Bytes × Bytes) → ℕ → Result Pipeline
unfolding from_rewriters prefix_literal_rewriters exact_literal_rewriters
new_with_exact prefix_rules exact_rules max_bytes = prefix_literal_rewriters prefix_rules >>= λ rs.
    exact_literal_rewriters exact_rules >>= λ es. from_rewriters (rs ++ es) max_bytes

-- The stages of `new_with_exact_and_member_expression_patterns` and of
-- `with_identifier_template_patterns`, each rule a prefix, a suffix and a replacement.
unfoldable pub member_rewriters : List (Bytes × Bytes × Bytes) → Result (List StreamingRewriter)
member_rewriters [] = ok []
member_rewriters ((needle, suffix, replacement) ∷ rules) =
    Expression.new_member_expression needle suffix replacement >>= λ r.
    member_rewriters rules >>= λ rs. ok (expression_pattern r ∷ rs)

unfoldable pub template_rewriters : List (Bytes × Bytes × Bytes) → Result (List StreamingRewriter)
template_rewriters [] = ok []
template_rewriters ((needle, suffix, template) ∷ rules) =
    Expression.new_template needle suffix template >>= λ r.
    template_rewriters rules >>= λ rs. ok (expression_pattern r ∷ rs)

abbrev pub extended : Pipeline → List StreamingRewriter → Pipeline
extended p rs = record p { rewriters = p.rewriters ++ rs }

unfoldable pub new_with_exact_and_member_expression_patterns :
    List (Bytes × Bytes) → List (Bytes × Bytes) → List (Bytes × Bytes × Bytes) → ℕ → Result Pipeline
unfolding new_with_exact member_rewriters
new_with_exact_and_member_expression_patterns prefix_rules exact_rules member_rules max_bytes =
    new_with_exact prefix_rules exact_rules max_bytes >>= λ p.
    member_rewriters member_rules >>= λ rs. ok (extended p rs)

unfoldable pub new_with_appended_suffix : Bytes → Bytes → ℕ → Result Pipeline
unfolding from_rewriters
new_with_appended_suffix source inserted_suffix max_bytes =
    Literal.new_with_appended_suffix source inserted_suffix usize_max >>= λ r.
    from_rewriters (literal r ∷ []) max_bytes

unfoldable pub with_exact_rules : Pipeline → List (Bytes × Bytes) → Result Pipeline
unfolding exact_literal_rewriters
with_exact_rules p rules = exact_literal_rewriters rules >>= λ rs. ok (extended p rs)

unfoldable pub with_identifier_template_patterns :
    Pipeline → List (Bytes × Bytes × Bytes) → Result Pipeline
unfolding template_rewriters
with_identifier_template_patterns p rules = template_rewriters rules >>= λ rs. ok (extended p rs)

unfoldable pub with_buffered_transform : Pipeline → (Bytes → Bytes) → Pipeline
with_buffered_transform p transform =
    extended p (buffered (record { transform = transform; pending = []; finished = false }) ∷ [])

module _ (memmem : Memmem) where
  -- The part of `push` behind its first test.
  unfoldable pub push_open : Pipeline → Bytes → Result Bytes × Pipeline
  push_open p input =
      let (counted, total) = add_input p.max_bytes p.total_bytes (length input) in
      let p' = record p { total_bytes = total } in
      let (output, rewriters) = push_all (stage_streaming memmem) p.rewriters input in
      if_ok counted p' (output, record p' { rewriters = rewriters })

  unfoldable pub push : Pipeline → Bytes → Result Bytes × Pipeline
  push p input = if p.finished then (err already_finished, p) else push_open p input

  unfoldable pub finish : Pipeline → Result Bytes × Pipeline
  finish p =
      let (output, rewriters) = finish_all (stage_streaming memmem) p.rewriters in
      if p.finished
      then (err already_finished, p)
      else (output, record p { rewriters = rewriters; finished = true })
