-- ===== src/Stage.antt =====
-- src/literal.rs: `StreamingRewriter`, a stage of a pipeline, and `StreamingBufferedRewriter`, with
-- the contract of the buffered and the literal ones.
use kse_static_rewrite_proxy.Base.{
  Bool, true, false, [], ◌++◌, ◌≡◌, refl, ap, Option, none, some, if◌then◌else◌, if-elim,
}
use kse_static_rewrite_proxy.Slice.{Bytes}
use kse_static_rewrite_proxy.Memmem.{Memmem}
use kse_static_rewrite_proxy.Streaming.{Streaming, IsStreaming, Advances, Concludes}
use kse_static_rewrite_proxy.Literal.Result.{Result, ok, err, panic, already_finished}
use kse_static_rewrite_proxy.Literal.Rewriter as Literal
use kse_static_rewrite_proxy.Literal.Rewriter.{LiteralRewriter}
use kse_static_rewrite_proxy.Literal.Contract.{rewrite_all, LiteralFollows, literal_streaming}
use kse_static_rewrite_proxy.Literal.Advance.{literal-IsStreaming}
use kse_static_rewrite_proxy.Expression.Scanner.{ExpressionRewriter}
use kse_static_rewrite_proxy.Expression.Process as Process

pub record BufferedRewriter : Type 0 where
  pub transform : Bytes → Bytes
  pub pending : Bytes
  pub finished : Bool

unfoldable pub push_buffered : BufferedRewriter → Bytes → Result Bytes × BufferedRewriter
push_buffered b input =
    if b.finished
    then (err already_finished, b)
    else (ok [], record b { pending = b.pending ++ input })

unfoldable pub finish_buffered : BufferedRewriter → Result Bytes × BufferedRewriter
finish_buffered b =
    if b.finished
    then (err already_finished, b)
    else (ok (b.transform b.pending), record b { finished = true })

pub data StreamingRewriter : Type 0 where
  buffered : BufferedRewriter → StreamingRewriter
  literal : LiteralRewriter → StreamingRewriter
  expression_pattern : ExpressionRewriter → StreamingRewriter

-- A result of one kind of stage.
abbrev pub as_stage :
    {A : Type 0} → (A → StreamingRewriter) → Result Bytes × A → Result Bytes × StreamingRewriter
as_stage stage (r, a) = (r, stage a)

module _ (memmem : Memmem) where
  -- `StreamingRewriter::push` and `StreamingRewriter::finish`.
  unfoldable pub push_stage : StreamingRewriter → Bytes → Result Bytes × StreamingRewriter
  push_stage (buffered b) input = as_stage buffered (push_buffered b input)
  push_stage (literal r) input = as_stage literal (Literal.push memmem r input)
  push_stage (expression_pattern r) input =
      as_stage expression_pattern (Process.push memmem r input)

  unfoldable pub finish_stage : StreamingRewriter → Result Bytes × StreamingRewriter
  finish_stage (buffered b) = as_stage buffered (finish_buffered b)
  finish_stage (literal r) = as_stage literal (Literal.finish memmem r)
  finish_stage (expression_pattern r) = as_stage expression_pattern (Process.finish memmem r)

-- What a stage gives for a whole text. No contract is stated for an expression stage, which follows
-- no text.
unfoldable pub one_shot_stage : StreamingRewriter → Bytes → Option Bytes
one_shot_stage (buffered b) text = some (b.transform text)
one_shot_stage (literal r) text = rewrite_all r text
one_shot_stage (expression_pattern r) text = none

pub record BufferedFollows (b : BufferedRewriter) (seen out : Bytes) : Type 0 where
  pub open_stream : b.finished ≡ false
  pub all_kept : b.pending ≡ seen
  pub none_written : out ≡ []

abbrev pub StageFollows : StreamingRewriter → Bytes → Bytes → Type 0
StageFollows (buffered b) seen out = BufferedFollows b seen out
StageFollows (literal r) seen out = LiteralFollows r seen out
StageFollows (expression_pattern r) seen out = ⊥

module _ (memmem : Memmem) where
  abbrev pub stage_streaming : Streaming StreamingRewriter
  stage_streaming = record {
    push = push_stage memmem;
    finish = finish_stage memmem;
    one_shot = one_shot_stage;
    Follows = StageFollows;
  }

  -- The contract of a literal stage is that of its rewriter.
  literal_stage-Advances :
      (r : LiteralRewriter) (seen out : Bytes) (q : Result Bytes × LiteralRewriter)
      → Advances (literal_streaming memmem) r seen out q
      → Advances stage_streaming (literal r) seen out (as_stage literal q)
  unfolding one_shot_stage
  literal_stage-Advances r seen out (ok o, r') a = a
  literal_stage-Advances r seen out (err e, r') a = a
  literal_stage-Advances r seen out (panic, r') a = a

  literal_stage-Concludes :
      (r : LiteralRewriter) (seen out : Bytes) (q : Result Bytes × LiteralRewriter)
      → Concludes (literal_streaming memmem) r seen out q
      → Concludes stage_streaming (literal r) seen out (as_stage literal q)
  unfolding one_shot_stage
  literal_stage-Concludes r seen out (ok o, r') c = c
  literal_stage-Concludes r seen out (err e, r') c = c
  literal_stage-Concludes r seen out (panic, r') c = c

  push_stage-same :
      (s : StreamingRewriter) (input text : Bytes)
      → one_shot_stage (push_stage memmem s input).1 text ≡ one_shot_stage s text
  unfolding push_stage push_buffered one_shot_stage
  push_stage-same (buffered b) input text =
      if-elim
        (λ (q : Result Bytes × BufferedRewriter).
          some (q.1.transform text) ≡ some (b.transform text))
        b.finished (err already_finished, b) _ (λ _. refl) (λ _. refl)
  push_stage-same (literal r) input text = (literal-IsStreaming memmem).push_same r input text
  push_stage-same (expression_pattern r) input text = refl

  push_stage-Advances :
      (s : StreamingRewriter) (seen out input : Bytes)
      → StageFollows s seen out
      → Advances stage_streaming s (seen ++ input) out (push_stage memmem s input)
  unfolding push_stage push_buffered
  push_stage-Advances (buffered b) seen out input f = rw f.open_stream (record {
    open_stream = refl;
    all_kept = ap (λ (xs : Bytes). xs ++ input) f.all_kept;
    none_written = ap (λ (xs : Bytes). xs ++ []) f.none_written;
  })
  push_stage-Advances (literal r) seen out input f =
      literal_stage-Advances r (seen ++ input) out _
        ((literal-IsStreaming memmem).advance r seen out input f)
  push_stage-Advances (expression_pattern r) seen out input f = absurd f

  finish_stage-Concludes :
      (s : StreamingRewriter) (seen out : Bytes)
      → StageFollows s seen out
      → Concludes stage_streaming s seen out (finish_stage memmem s)
  unfolding finish_stage finish_buffered one_shot_stage
  finish_stage-Concludes (buffered b) seen out f =
      rw f.open_stream (rw (f.all_kept, f.none_written) refl)
  finish_stage-Concludes (literal r) seen out f =
      literal_stage-Concludes r seen out _ ((literal-IsStreaming memmem).conclude r seen out f)
  finish_stage-Concludes (expression_pattern r) seen out f = absurd f

  stage-extends :
      (s : StreamingRewriter) (seen out future all : Bytes)
      → StageFollows s seen out
      → one_shot_stage s (seen ++ future) ≡ some all
      → (more : Bytes) × (all ≡ out ++ more)
  unfolding one_shot_stage
  stage-extends (buffered b) seen out future all f e = (all, rw f.none_written refl)
  stage-extends (literal r) seen out future all f e =
      (literal-IsStreaming memmem).extends r seen out future all f e
  stage-extends (expression_pattern r) seen out future all f e = absurd f

  pub stage-IsStreaming : IsStreaming stage_streaming
  stage-IsStreaming = record {
    push_same = push_stage-same;
    advance = push_stage-Advances;
    conclude = finish_stage-Concludes;
    extends = stage-extends;
  }
