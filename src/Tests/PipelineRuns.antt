-- ===== src/Tests/PipelineRuns.antt =====
-- The pipeline at concrete inputs.
use kse_static_rewrite_proxy.Base.{false, List, [], ◌∷◌, ◌≡◌, ◌↔◌, refl, some, arith}
use kse_static_rewrite_proxy.Slice.{Bytes, bytes, equal}
use kse_static_rewrite_proxy.Utf8.{from_utf8}
use kse_static_rewrite_proxy.Run.{flatten, run}
use kse_static_rewrite_proxy.Chain.{push_rest, push_all, finish_rest, finish_all}
use kse_static_rewrite_proxy.Literal.Result.{Result, ok, err, panic, too_large, empty_rules}
use kse_static_rewrite_proxy.Literal.Rewriter as Literal
use kse_static_rewrite_proxy.Literal.Rewriter.{
  prepend, exact, from_mode, usize_max, validate_utf8, add_input,
}
use kse_static_rewrite_proxy.Stage.{literal, push_stage, finish_stage}
use kse_static_rewrite_proxy.Pipeline.{
  Pipeline, new_with_exact, new_with_exact_and_member_expression_patterns, push, push_open, finish,
}
use kse_static_rewrite_proxy.Pipeline.Contract.{transform_all, pipeline_streaming}
use kse_static_rewrite_proxy.Pipeline.Built.{by_new_with_exact}
use kse_static_rewrite_proxy.Pipeline.Claims.{pipeline_iff}
use kse_static_rewrite_proxy.Expression.Process as Process
use kse_static_rewrite_proxy.Expression.Scanner as Scanner
use kse_static_rewrite_proxy.Tests.Search.{search_memmem, find}

abbrev sample_prefix_rules : List (Bytes × Bytes)
sample_prefix_rules = (bytes "/s/", bytes "/b/s/") ∷ []

abbrev sample_exact_rules : List (Bytes × Bytes)
sample_exact_rules = (bytes "old", bytes "/s/new") ∷ []

abbrev pipeline : Pipeline
pipeline = record {
  rewriters =
      literal (record {
        source = bytes "/s/";
        mode = prepend (bytes "/b/s/") (bytes "/b");
        max_bytes = usize_max;
        total_bytes = 0;
        pending = [];
        input_history = [];
        utf8_tail = [];
        finished = false;
      })
      ∷ literal (record {
        source = bytes "old";
        mode = exact (bytes "/s/new");
        max_bytes = usize_max;
        total_bytes = 0;
        pending = [];
        input_history = [];
        utf8_tail = [];
        finished = false;
      })
      ∷ [];
  max_bytes = 30;
  total_bytes = 0;
  finished = false;
}

runs : Unit {0}
unfolding equal find from_utf8 run push push_open finish push_all push_rest finish_all finish_rest
    push_stage finish_stage Literal.push Literal.push_open Literal.push_validated Literal.finish
    Literal.process_available add_input validate_utf8 Process.push Process.finish
runs = tt

abbrev chunks : List Bytes
chunks = bytes "a/s" ∷ bytes "/x o" ∷ bytes "ld" ∷ []

run_both_stages :
    (run (pipeline_streaming search_memmem) pipeline chunks).0 ≡ ok (bytes "a/b/s/x /s/new")
unfolding runs
run_both_stages = refl

run_too_large :
    (run
      (pipeline_streaming search_memmem)
      pipeline
      (bytes "0123456789012345" ∷ bytes "0123456789012345" ∷ [])).0
    ≡ err (too_large 30)
unfolding runs
run_too_large = refl

no_rules : new_with_exact [] [] 10 ≡ err empty_rules
unfolding new_with_exact
no_rules = refl

-- A member expression stage, over chunks that cut the candidate.
run_all : Result Pipeline → List Bytes → Result Bytes
run_all (ok p) texts = (run (pipeline_streaming search_memmem) p texts).0
run_all (err e) texts = err e
run_all panic texts = panic

run_member_expression :
    run_all
      (new_with_exact_and_member_expression_patterns sample_prefix_rules []
        ((bytes "\"//\".concat(", bytes ")", bytes "P+") ∷ [])
        100)
      (bytes "x=\"//\".con" ∷ bytes "cat(window.lo" ∷ bytes "cation.host);" ∷ [])
    ≡ ok (bytes "x=P+window.location.host);")
unfolding runs run_all new_with_exact_and_member_expression_patterns Literal.new
    Literal.strip_suffix from_mode Scanner.new_member_expression Process.process_available
    Process.rewrite_candidates Process.emit_rest Process.copy Process.candidate
    Process.preceded_by_identifier Process.write_match Process.rendered
    Scanner.is_ascii_identifier_start Scanner.is_ascii_identifier_continue Scanner.match_candidate
    Scanner.scan_expression Scanner.scan_identifier_segment Scanner.scan_members
    Scanner.skip_continue Scanner.match_suffix
run_member_expression = refl

pipeline_iff_example :
    ((run (pipeline_streaming search_memmem) pipeline chunks).0 ≡ ok (bytes "a/b/s/x /s/new"))
    ↔ (transform_all search_memmem pipeline (flatten chunks) ≡ some (bytes "a/b/s/x /s/new"))
unfolding new_with_exact Literal.new Literal.new_exact from_mode Literal.strip_suffix equal
pipeline_iff_example =
    pipeline_iff search_memmem 30 pipeline chunks (bytes "a/b/s/x /s/new") (omega arith)
      (by_new_with_exact sample_prefix_rules sample_exact_rules pipeline refl)
