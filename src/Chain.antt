-- ===== src/Chain.antt =====
-- src/literal.rs: how `StreamingRewritePipeline` hands the output of each stage to the next, over
-- any stages that keep the contract.
pub mod Laws
use kse_static_rewrite_proxy.Base.{List, [], ◌∷◌, ◌++◌, Option, none, some}
use kse_static_rewrite_proxy.Slice.{Bytes}
use kse_static_rewrite_proxy.Streaming.{Streaming}
use kse_static_rewrite_proxy.Literal.Result.{Result, ok, panic, then_ok}

-- The stages behind `s'` go on; the stage itself is left as `s'`.
abbrev pub behind : {S : Type 0} → S → Result Bytes × List S → Result Bytes × List S
behind s' (r, ss') = (r, s' ∷ ss')

module _ {S : Type 0} (st : Streaming S) where
  -- `for rewriter in remaining { output = rewriter.push(&output)?; }`
  unfoldable pub push_rest : List S → Bytes → Result Bytes × List S
  push_rest [] input = (ok input, [])
  push_rest (s ∷ ss) input =
      let (pushed, s') = st.push s input in
      then_ok pushed (s' ∷ ss) λ output. behind s' (push_rest ss output)

  -- `split_first_mut().expect(…)`, the first stage, and the loop.
  unfoldable pub push_all : List S → Bytes → Result Bytes × List S
  push_all [] input = (panic, [])
  push_all (s ∷ ss) input = push_rest (s ∷ ss) input

  -- `let mut next = rewriter.push(&output)?; next.extend(rewriter.finish()?); output = next;`
  unfoldable pub finish_rest : Bytes → List S → Result Bytes × List S
  finish_rest output [] = (ok output, [])
  finish_rest output (s ∷ ss) =
      let (pushed, s') = st.push s output in
      let (finished, s'') = st.finish s' in
      then_ok pushed (s' ∷ ss)
        λ next. then_ok finished (s'' ∷ ss) λ more. behind s'' (finish_rest (next ++ more) ss)

  -- `self.rewriters[0].finish()?`, and the loop.
  unfoldable pub finish_all : List S → Result Bytes × List S
  finish_all [] = (panic, [])
  finish_all (s ∷ ss) =
      let (finished, s') = st.finish s in
      then_ok finished (s' ∷ ss) λ output. behind s' (finish_rest output ss)
