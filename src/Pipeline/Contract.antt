-- ===== src/Pipeline/Contract.antt =====
-- `push` and `finish` of the pipeline keep the contract of a stage, within its limit.
use kse_static_rewrite_proxy.Base.{
  ℕ, ◌≤◌, ◌<◌, true, false, ◌++◌, ◌≡◌, refl, ◌∙◌, Option, none, some, leb, if◌then◌else◌, if-elim,
  arith, length, length-append, List,
}
use kse_static_rewrite_proxy.Slice.{Bytes}
use kse_static_rewrite_proxy.Memmem.{Memmem}
use kse_static_rewrite_proxy.Streaming.{Streaming, IsStreaming, Advances, Concludes}
use kse_static_rewrite_proxy.Chain.Laws.{one_shot_all, FollowsAll, chain, chain-IsStreaming}
use kse_static_rewrite_proxy.Literal.Result.{Result, ok, err, panic, if_ok-elim}
use kse_static_rewrite_proxy.Literal.Rewriter.{add_input, usize_max}
use kse_static_rewrite_proxy.Literal.Advance.{add_input-err, add_input-ok, add_input-panic}
use kse_static_rewrite_proxy.Stage.{StreamingRewriter, stage_streaming, stage-IsStreaming}
use kse_static_rewrite_proxy.Pipeline.{Pipeline, push_open, push, finish}

module _ (memmem : Memmem) where
  -- The stages one after the other on the whole text, if it is within the limit.
  unfoldable pub transform_all : Pipeline → Bytes → Option Bytes
  transform_all p text =
      if leb (length text) p.max_bytes
      then one_shot_all (stage_streaming memmem) p.rewriters text
      else none

  pub record PipelineFollows (p : Pipeline) (seen out : Bytes) : Type 0 where
    pub in_range : p.max_bytes ≤ usize_max
    pub open_stream : p.finished ≡ false
    pub counted : p.total_bytes ≡ length seen
    pub in_limit : length seen ≤ p.max_bytes
    pub stages : FollowsAll (stage_streaming memmem) p.rewriters seen out

  abbrev pub pipeline_streaming : Streaming Pipeline
  pipeline_streaming = record {
    push = push memmem;
    finish = finish memmem;
    one_shot = transform_all;
    Follows = PipelineFollows;
  }

  abbrev stages : Streaming (List StreamingRewriter)
  stages = chain (stage_streaming memmem)

  stages-IsStreaming : IsStreaming stages
  stages-IsStreaming = chain-IsStreaming (stage_streaming memmem) (stage-IsStreaming memmem)

  transform_all-long :
      (p : Pipeline) (text : Bytes) → p.max_bytes < length text → transform_all p text ≡ none
  unfolding transform_all
  transform_all-long p text l =
      let long : leb (length text) p.max_bytes ≡ false = ground arith in rw long refl

  transform_all-short :
      (p : Pipeline) (text : Bytes)
      → length text ≤ p.max_bytes
      → transform_all p text ≡ one_shot_all (stage_streaming memmem) p.rewriters text
  unfolding transform_all
  transform_all-short p text l =
      let short : leb (length text) p.max_bytes ≡ true = ground arith in rw short refl

  -- A text that the stages refuse is refused.
  transform_all-refused :
      (p : Pipeline) (text : Bytes)
      → one_shot_all (stage_streaming memmem) p.rewriters text ≡ none
      → transform_all p text ≡ none
  unfolding transform_all
  transform_all-refused p text e =
      if-elim (λ o. o ≡ none) (leb (length text) p.max_bytes) _ _ (λ _. e) (λ _. refl)

  push-same :
      (p : Pipeline) (input text : Bytes)
      → transform_all (push memmem p input).1 text ≡ transform_all p text
  unfolding push push_open transform_all
  push-same p input text =
      let Same : Result Bytes × Pipeline → Type 0 =
        λ q. transform_all q.1 text ≡ transform_all p text in
      if-elim Same p.finished _ _ (λ _. refl)
        λ _.
          if_ok-elim Same (add_input p.max_bytes p.total_bytes (length input)).0 _ _ (λ _ _. refl)
            (λ _. refl) λ _ _. rw (stages-IsStreaming.push_same p.rewriters input text) refl

  -- What the stages say of a push or of the end, said of the pipeline.
  stages-Advances :
      (p : Pipeline) (seen out : Bytes) (total : ℕ) (q : Result Bytes × List StreamingRewriter)
      → p.max_bytes ≤ usize_max
      → p.finished ≡ false
      → total ≡ length seen
      → length seen ≤ p.max_bytes
      → Advances stages p.rewriters seen out q
      → Advances pipeline_streaming p seen out
          (q.0, record p { total_bytes = total; rewriters = q.1 })
  stages-Advances p seen out total (ok o, ss) l still_open c m a = record {
    in_range = l;
    open_stream = still_open;
    counted = c;
    in_limit = m;
    stages = a;
  }
  stages-Advances p seen out total (err e, ss) l still_open c m a =
      λ future. transform_all-refused p (seen ++ future) (a future)
  stages-Advances p seen out total (panic, ss) l still_open c m a = a

  stages-Concludes :
      (p p' : Pipeline) (seen out : Bytes) (q : Result Bytes × List StreamingRewriter)
      → length seen ≤ p.max_bytes
      → Concludes stages p.rewriters seen out q
      → Concludes pipeline_streaming p seen out (q.0, p')
  stages-Concludes p p' seen out (ok o, ss) m c = transform_all-short p seen m ∙ c
  stages-Concludes p p' seen out (err e, ss) m c = transform_all-short p seen m ∙ c
  stages-Concludes p p' seen out (panic, ss) m c = c

  push_open-Advances :
      (p : Pipeline) (seen out input : Bytes)
      → PipelineFollows p seen out
      → Advances pipeline_streaming p (seen ++ input) out (push_open memmem p input)
  unfolding push_open
  push_open-Advances p seen out input f =
      let l = length-append seen input in
      let c = f.counted in
      if_ok-elim (Advances pipeline_streaming p (seen ++ input) out)
        (add_input p.max_bytes p.total_bytes (length input)).0 _ _
        (λ e h future.
          let long = add_input-err p.max_bytes p.total_bytes (length input) f.in_range e h in
          let l' = length-append (seen ++ input) future in
          transform_all-long p ((seen ++ input) ++ future) (omega arith))
        (λ h. add_input-panic p.max_bytes p.total_bytes (length input) f.in_range h)
        (λ u h.
          let (total, m) = add_input-ok p.max_bytes p.total_bytes (length input) f.in_range u h in
          stages-Advances p (seen ++ input) out _ _ f.in_range f.open_stream (omega arith)
            (omega arith) (stages-IsStreaming.advance p.rewriters seen out input f.stages))

  push-Advances :
      (p : Pipeline) (seen out input : Bytes)
      → PipelineFollows p seen out
      → Advances pipeline_streaming p (seen ++ input) out (push memmem p input)
  unfolding push
  push-Advances p seen out input f =
      if-elim (Advances pipeline_streaming p (seen ++ input) out) p.finished _ _
        (λ done. absurd (cc (done, f.open_stream))) (λ _. push_open-Advances p seen out input f)

  finish-Concludes :
      (p : Pipeline) (seen out : Bytes)
      → PipelineFollows p seen out
      → Concludes pipeline_streaming p seen out (finish memmem p)
  unfolding finish
  finish-Concludes p seen out f =
      if-elim (Concludes pipeline_streaming p seen out) p.finished _ _
        (λ done. absurd (cc (done, f.open_stream)))
        (λ _.
          stages-Concludes p _ seen out _ f.in_limit
            (stages-IsStreaming.conclude p.rewriters seen out f.stages))

  push-extends :
      (p : Pipeline) (seen out future all : Bytes)
      → PipelineFollows p seen out
      → transform_all p (seen ++ future) ≡ some all
      → (more : Bytes) × (all ≡ out ++ more)
  unfolding transform_all
  push-extends p seen out future all f e =
      stages-IsStreaming.extends p.rewriters seen out future all f.stages (ground arith)

  pub pipeline-IsStreaming : IsStreaming pipeline_streaming
  pipeline-IsStreaming = record {
    push_same = push-same;
    advance = push-Advances;
    conclude = finish-Concludes;
    extends = push-extends;
  }
