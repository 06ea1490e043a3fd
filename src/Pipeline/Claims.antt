-- ===== src/Pipeline/Claims.antt =====
-- What `StreamingRewritePipeline` promises to the proxy.
use kse_static_rewrite_proxy.Base.{ℕ, ◌≤◌, List, ◌≡◌, ◌↔◌, some}
use kse_static_rewrite_proxy.Slice.{Bytes}
use kse_static_rewrite_proxy.Memmem.{Memmem}
use kse_static_rewrite_proxy.Run.{flatten, run, run_iff}
use kse_static_rewrite_proxy.Literal.Result.{ok}
use kse_static_rewrite_proxy.Literal.Rewriter.{usize_max}
use kse_static_rewrite_proxy.Pipeline.{Pipeline}
use kse_static_rewrite_proxy.Pipeline.Contract.{
  transform_all, pipeline_streaming, pipeline-IsStreaming,
}
use kse_static_rewrite_proxy.Pipeline.Built.{Built, Built-PipelineFollows}

module _ (memmem : Memmem) where
  -- For a pipeline of literal and buffered stages that any calls of the constructors made, with a
  -- limit that a `usize` holds: pushing any list of chunks and finishing succeeds with `out` exactly
  -- if the joined chunks are within the limit and the stages' single passes, each over the whole
  -- result of the stage before it, all accept and end in `out`.
  pub pipeline_iff :
      (max_bytes : ℕ) (p : Pipeline) (chunks : List Bytes) (out : Bytes)
      → max_bytes ≤ usize_max
      → Built max_bytes p
      → ((run (pipeline_streaming memmem) p chunks).0 ≡ ok out)
        ↔ (transform_all memmem p (flatten chunks) ≡ some out)
  pipeline_iff max_bytes p chunks out l b =
      run_iff (pipeline_streaming memmem) (pipeline-IsStreaming memmem) p chunks
        (Built-PipelineFollows memmem max_bytes p l b) out
