-- ===== src/Tests/LiteralRuns.antt =====
-- The literal rewriter at concrete inputs.
use kse_static_rewrite_proxy.Base.{false, List, [], ◌∷◌, ◌≡◌, ◌↔◌, refl, some, arith}
use kse_static_rewrite_proxy.Slice.{Bytes, bytes, equal}
use kse_static_rewrite_proxy.Run.{flatten, run}
use kse_static_rewrite_proxy.Literal.Result.{ok}
use kse_static_rewrite_proxy.Literal.Rewriter.{
  prepend, LiteralRewriter, from_mode, process_available, push, push_open, push_validated, finish,
  add_input, validate_utf8,
}
use kse_static_rewrite_proxy.Literal.Contract.{rewrite_all, literal_streaming}
use kse_static_rewrite_proxy.Literal.Claims.{stream_iff}
use kse_static_rewrite_proxy.Tests.Search.{search_memmem, find}

abbrev fresh : LiteralRewriter
fresh = record {
  source = bytes "/static/";
  mode = prepend (bytes "/base/static/") (bytes "/base");
  max_bytes = 100;
  total_bytes = 0;
  pending = [];
  input_history = [];
  utf8_tail = [];
  finished = false;
}

runs : Unit {0}
unfolding equal find run push push_open push_validated finish process_available add_input
    validate_utf8 rewrite_all
runs = tt

abbrev chunks : List Bytes
chunks = bytes "x=/sta" ∷ bytes "tic/a;y=/ba" ∷ bytes "se/static/b" ∷ []

run_prepend :
    (run (literal_streaming search_memmem) fresh chunks).0
    ≡ ok (bytes "x=/base/static/a;y=/base/static/b")
unfolding runs
run_prepend = refl

stream_iff_example :
    ((run (literal_streaming search_memmem) fresh chunks).0
      ≡ ok (bytes "x=/base/static/a;y=/base/static/b"))
    ↔ (rewrite_all fresh (flatten chunks) ≡ some (bytes "x=/base/static/a;y=/base/static/b"))
unfolding from_mode
stream_iff_example =
    stream_iff search_memmem (bytes "/static/") (prepend (bytes "/base/static/") (bytes "/base"))
      100 fresh chunks (bytes "x=/base/static/a;y=/base/static/b") (omega arith) refl
