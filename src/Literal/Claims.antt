-- ===== src/Literal/Claims.antt =====
-- What `StreamingLiteralRewriter` promises to its callers.
use kse_static_rewrite_proxy.Base.{ℕ, ◌≤◌, List, ◌≡◌, ◌↔◌, some}
use kse_static_rewrite_proxy.Slice.{Bytes}
use kse_static_rewrite_proxy.Memmem.{Memmem}
use kse_static_rewrite_proxy.Run.{flatten, run, run_iff}
use kse_static_rewrite_proxy.Literal.Result.{ok}
use kse_static_rewrite_proxy.Literal.Rewriter.{
  LiteralRewriteMode, LiteralRewriter, from_mode, usize_max,
}
use kse_static_rewrite_proxy.Literal.Contract.{rewrite_all, literal_streaming}
use kse_static_rewrite_proxy.Literal.Advance.{literal-IsStreaming, from_mode-LiteralFollows}

-- For a literal rewriter of any mode that was just made, with a limit that a `usize` holds: pushing
-- any list of chunks and finishing succeeds with `out` exactly if one pass over the joined chunks
-- accepts them (valid UTF-8, within the limit) and gives `out`.
pub stream_iff :
    (memmem : Memmem) (source : Bytes) (mode : LiteralRewriteMode) (max_bytes : ℕ)
    (r : LiteralRewriter) (chunks : List Bytes) (out : Bytes)
    → max_bytes ≤ usize_max
    → from_mode source mode max_bytes ≡ ok r
    → ((run (literal_streaming memmem) r chunks).0 ≡ ok out)
      ↔ (rewrite_all r (flatten chunks) ≡ some out)
stream_iff memmem source mode max_bytes r chunks out l e =
    run_iff (literal_streaming memmem) (literal-IsStreaming memmem) r chunks
      (from_mode-LiteralFollows source mode max_bytes r l e) out
