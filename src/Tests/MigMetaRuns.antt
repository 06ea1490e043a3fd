-- ===== src/Tests/MigMetaRuns.antt =====
-- The rewriting of `window._mig_meta` and a pipeline that does it, with a codec that leaves its payload as it is.
use kse_static_rewrite_proxy.Base.{◌≡◌, refl, some}
use kse_static_rewrite_proxy.Slice.{Bytes, bytes, equal}
use kse_static_rewrite_proxy.MigMeta.{
  Codec, is_ascii_whitespace, skip_ascii_whitespace, find_byte, assigned, rewrite_mig_meta_payload,
  write_payload, rewrite_payloads, rewrite_mig_meta_base_uri,
}
use kse_static_rewrite_proxy.Literal.Result as Rewriting
use kse_static_rewrite_proxy.Pipeline.{Pipeline}
use kse_static_rewrite_proxy.Policy.{console_v3}
use kse_static_rewrite_proxy.Response.{build_selected_response_rewriter}
use kse_static_rewrite_proxy.Response.Total.{build-ok}
use kse_static_rewrite_proxy.Tests.Search.{search_memmem, find}

abbrev pub plain : Codec
plain = record {
  Value = Bytes;
  decode = λ text. some text;
  encode = λ text. text;
  from_slice = λ text. some text;
  to_vec = λ value. some value;
  base_uri = λ value. some value;
  with_base_uri = λ value uri. uri;
}

rewrite_twice :
    rewrite_mig_meta_base_uri search_memmem plain
      (bytes "/b")
      (bytes "window._mig_meta = '/proxy/ys1000';window._mig_meta=\"/proxy/other\"")
    ≡ bytes "window._mig_meta = '/b';window._mig_meta=\"/proxy/other\""
unfolding equal find is_ascii_whitespace skip_ascii_whitespace find_byte assigned
    rewrite_mig_meta_payload write_payload rewrite_payloads rewrite_mig_meta_base_uri
rewrite_twice = refl

build-ok_example :
    (p : Pipeline) × (build_selected_response_rewriter
        (bytes "/b")
        search_memmem
        plain
        console_v3
        (bytes "demo")
        100
      ≡ Rewriting.ok p)
build-ok_example = build-ok (bytes "/b") 100 search_memmem plain console_v3 (bytes "demo")
