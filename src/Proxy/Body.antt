-- ===== src/Proxy/Body.antt =====
-- src/proxy.rs: `response_body_filter`, and the calls of it for one response.
pub mod Claims
use kse_static_rewrite_proxy.Base.{
  ℕ, ◌%◌, ◌^◌, ◌+◌, Bool, true, false, List, [], ◌∷◌, ◌++◌, Option, none, some, length,
  if◌then◌else◌,
}
use kse_static_rewrite_proxy.Slice.{Bytes}
use kse_static_rewrite_proxy.Memmem.{Memmem}
use kse_static_rewrite_proxy.Pipeline as Pipeline
use kse_static_rewrite_proxy.Pipeline.{Pipeline}
use kse_static_rewrite_proxy.Literal.Result.{Result, ok, err, panic, then_ok}
use kse_static_rewrite_proxy.Proxy.{RequestContext}

-- `body.take().unwrap_or_default()`.
abbrev pub unwrap_or_default : Option Bytes → Bytes
unwrap_or_default none = []
unwrap_or_default (some input) = input

-- `(!output.is_empty()).then(…)`.
abbrev pub not_empty : Bytes → Option Bytes
not_empty [] = none
not_empty (b ∷ bs) = some (b ∷ bs)

-- `+=` on a `usize`, in a release build.
abbrev pub wrapping_add : ℕ → ℕ → ℕ
wrapping_add a b = (a + b) % 2 ^ 64

module _ (memmem : Memmem) where
  -- `rewriter.finish()` at the end of the stream, behind the output so far.
  unfoldable pub finish_at_end : Bool → Bytes → Pipeline → Result Bytes × Pipeline
  finish_at_end false output p = (ok output, p)
  finish_at_end true output p =
      let (finished, p') = Pipeline.finish memmem p in
      then_ok finished p' λ more. (ok (output ++ more), p')

  -- The rewriter's part of a call: `push`, and `finish` at the end of the stream.
  unfoldable pub rewrite_body : Pipeline → Bytes → Bool → Result Bytes × Pipeline
  rewrite_body p input end_of_stream =
      let (pushed, p') = Pipeline.push memmem p input in
      then_ok pushed p' λ output. finish_at_end end_of_stream output p'

  -- What a call leaves in the context, and the body.
  abbrev pub with_output :
      RequestContext → Result Bytes × Pipeline → Result (Option Bytes) × RequestContext
  with_output ctx (ok output, p) = (
    ok (not_empty output),
    record ctx { rewriter = some p; output_bytes = wrapping_add ctx.output_bytes (length output) },
  )
  with_output ctx (err e, p) = (err e, record ctx { rewriter = some p })
  with_output ctx (panic, p) = (panic, record ctx { rewriter = some p })

  -- The rewriter, where there is one. An error is status 502 with the cause.
  unfoldable pub filter_by :
      Option Pipeline
      → RequestContext
      → Option Bytes
      → Bool
      → Result (Option Bytes) × RequestContext
  filter_by none ctx body end_of_stream = (ok body, ctx)
  filter_by (some p) ctx body end_of_stream =
      let input = unwrap_or_default body in
      with_output (record ctx { input_bytes = wrapping_add ctx.input_bytes (length input) })
        (rewrite_body p input end_of_stream)

  unfoldable pub response_body_filter :
      RequestContext → Option Bytes → Bool → Result (Option Bytes) × RequestContext
  response_body_filter ctx body end_of_stream =
      if ctx.suppress_body then (ok none, ctx) else filter_by ctx.rewriter ctx body end_of_stream

  -- The calls for one response: the last one is at the end of the stream. What is sent downstream
  -- is put together; an error ends the response.
  abbrev pub sent_before :
      Option Bytes → Result Bytes × RequestContext → Result Bytes × RequestContext
  sent_before body (ok rest, ctx) = (ok (unwrap_or_default body ++ rest), ctx)
  sent_before body (err e, ctx) = (err e, ctx)
  sent_before body (panic, ctx) = (panic, ctx)

  unfoldable pub filter_all :
      RequestContext → List (Option Bytes) → Option Bytes → Result Bytes × RequestContext
  filter_all ctx [] last =
      let (body, ctx') = response_body_filter ctx last true in
      then_ok body ctx' λ sent. (ok (unwrap_or_default sent), ctx')
  filter_all ctx (b ∷ bs) last =
      let (body, ctx') = response_body_filter ctx b false in
      then_ok body ctx' λ sent. sent_before sent (filter_all ctx' bs last)
