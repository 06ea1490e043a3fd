-- ===== src/Lib.antt =====
-- kse-static-rewrite-proxy: a reverse proxy that rewrites the root paths in a console's static
-- assets to paths below a base path, while a response streams through.
--
-- The program's parts. `RewritePolicy::decide` (src/rewrite.rs) chooses a profile for a request.
-- For the profile a `StreamingRewritePipeline` (src/literal.rs) is built: a limit on the bytes read
-- and a list of stages. Each chunk of the response body is pushed into the first stage, the output
-- of each stage into the next, and at the end of the body every stage is finished in its turn. A
-- stage replaces a literal, replaces an expression between two literals, or keeps the whole text
-- for one transformation.
--
-- Base, Slice, Memmem, Utf8: what the model takes from Rust and its libraries. `Base` has the lists
--   and tests on native numbers, `Slice` the operations on bytes (`Slice/Text` those on `str`).
--   `Memmem` is the interface of the crate memchr (find, find_iter) with its documented behaviour as
--   laws; every search of the model is by a value of it. `Utf8` is `std::str::from_utf8` with the
--   automaton of the standard's table 3-7, and `Utf8/Laws` that it can be fed piece by piece.
-- Literal (src/literal.rs, `StreamingLiteralRewriter`): `Literal/Result` has `RewriteError` and the
--   result of a call, with a panic as a value. `Literal/Rewriter` has the three modes, the
--   validation over chunk boundaries, the history of the input and the loop of `process_available`.
--   `Literal/Scan` is the reference, one pass over the whole text. `Validation`, `History`, `Steps`,
--   `Loop`, `Process`, `Contract` and `Advance` lead from the one to the other, and `Claims` says it
--   of the rewriter.
-- Streaming, Run, Chain: `Streaming` is the contract of a stage, as an interface: pushed in any
--   chunks, it gives what its one-shot function gives. `Run` pushes a list of chunks and finishes.
--   `Chain` is how the pipeline hands the output of a stage to the next, over any stages, and
--   `Chain/Laws` that a chain of stages is a stage.
-- Expression (src/literal.rs, `StreamingExpressionPatternRewriter`): `Expression/Scanner` has its
--   configuration and `match_candidate`, `Expression/Process` the loop, `push` and `finish`.
-- Stage, Pipeline (src/literal.rs, `StreamingRewriter`, `StreamingBufferedRewriter`,
--   `StreamingRewritePipeline`): `Stage` is the sum of the three kinds of stages with the contract of
--   the literal and the buffered ones, `Pipeline` the record with its limit, its constructors,
--   `push` and `finish`; `Pipeline/Contract` is its contract as a stage, `Pipeline/Built` what the
--   constructors make, and `Pipeline/Claims` what the proxy may rely on.
-- Policy (src/rewrite.rs, `RewritePolicy`): the rules, the sets of extensions and the constructors;
--   `Policy/Decide` is `decide` with its three branches; `Policy/Selected` is what each branch has
--   established, `Policy/Route` puts the paths of the branches together from their parts, and
--   `Policy/Claims` is about `decide`.
-- Response, MigMeta (src/rewrite.rs, `build_selected_response_rewriter`, `build_response_rewriter`,
--   `rewrite_mig_meta_base_uri`): the stages of each profile. The crates base64 and serde_json are
--   the interface `MigMeta.Codec`, which has no laws. `Response/Claims` and
--   `Response/Total` are about the builders.
-- Config (src/config.rs): `EffectiveConfig::from_yaml`, in the order of its checks, over the
--   interface `Config.Parsers`: yaml_serde gives what the text has at the known keys, and the
--   defaults are filled in by the model. `Config/Percent` is `validate_percent_encoding` and
--   `decode_repeatedly` (percent-encoding is the interface `PercentDecode`), `Config/BasePath` is
--   `normalize_base_path` (the URL that the path is joined to is the parameter `Join`),
--   `Config/Listeners` the overlap of addresses and `parse_upstream` (url and the parser of socket
--   addresses are the interfaces `UrlParser` and `SocketParser`), `Config/Extensions` the lists of
--   names and the switches of the rules. The modules `Claims`, `Percent/Decoded` and
--   `Percent/Rounds` are about them.
-- Http: the crates http and pingora as the source uses them, the names of headers and the interface
--   of a `HeaderMap` with its laws. `Slice/Split`, `Slice/Trim` and `Slice/Items` are `split`, `trim`
--   and the lists in the value of a header.
-- Proxy (src/proxy.rs, `KseRewriteProxy`): `Proxy` has `RequestContext`, the admission with its two
--   gauges and the operations on both; the semaphores of tokio, which are fair, are the interface
--   `Semaphores`.
--   `Proxy/Session` is what a filter works on: the session, the headers and the metrics. The filters
--   are in `Proxy/Request` (`request_filter`, `upstream_peer`, `upstream_request_filter`),
--   `Proxy/ResponseFilter` (`response_filter`, `stop_rewrite`, `logging`) and `Proxy/Body`
--   (`response_body_filter` and its calls for one response). The helpers are in `Proxy/ApiUri`
--   (`api_uri_with_base_path`), `Proxy/Media` (`is_rewritable_content_type`,
--   `is_identity_encoding`), `Proxy/Etag` (`derive_etag`, `reliable_etag`,
--   `if_none_match_matches`), `Proxy/Vary` and `Proxy/RequestId`. Each has its theorems in `Claims`.
--   `Proxy/Interleaving` has the steps of requests that share the admission, what each operation
--   does to the permits in `Balance`, and the invariant of all steps in `Invariant`;
--   `Proxy/Permits` the calls of the filters for one request among others, with what each call does
--   to the permits in `Filters`; `Proxy/Served` the ends of a request as its client sees them, from
--   `Proxy/Request/Claims`, `Proxy/ResponseFilter/Headers` and `Proxy/ResponseFilter/Outcome`.
--   `Proxy/Request/Answered` and `Proxy/ResponseFilter/Refused` are about the errors of the filters,
--   `Proxy/Request/Upstream` about what goes upstream.
-- Admin (src/admin.rs, `AdminApp`): the answer to every path. The connection to the upstream, the
--   encoder of the metrics and what the build sets are fields of `Environment`. `Admin/Version` is
--   about the body of `/version`.
-- Tests: libraries that meet the interfaces (`Search` for `Memmem`, `Parsers` for the
--   configuration, `FairPermits` and `Libraries` for the proxy), the model at concrete inputs, and
--   the theorems applied there.
--
-- Conventions. Bytes are numbers, and a `Vec<u8>` or a `str` is a list of them. A method that
-- changes `self` gives back its result and the new state, also when it fails. A cursor into a buffer
-- is the slice that begins there. A `usize` is a number up to 2^64 - 1, and `checked_add` compares
-- with that bound. A `HashSet` is a list without repetition.
--
-- `request_filter` is cut at its `await` for a permit: it joins the wait queue of the semaphore
-- and ends in `waits`, other requests change the admission, and `request_filter_resumed` is the
-- rest for the request that a permit has been assigned to. What lies between two awaits is one
-- step. A permit that is released goes to a request in the wait queue, where there is one, and no
-- newcomer can take it; which of the waiting requests has it is left open. A request that waits is
-- taken not to be dropped, and no code of the proxy closes a semaphore. The byte counters wrap
-- round at 2^64, as in a release build. The gauges stand with the admission, each as its
-- increments and its decrements. A write to the client may fail at any time: a session has a
-- number of writes left. Headers other than those that the source names are `HeaderName.other`.
-- `trim` knows the white space of ASCII, since each text that is trimmed comes from
-- `HeaderValue::to_str`. A `{:x}` is written with as many digits as its type has at most. The
-- clock, the durations and the log lines are left out.
--
-- Fuel. The loops of `process_available` of the literal and the expression rewriter take one more
-- round than there are pending bytes: a round consumes a byte at least, or it is the last one. The
-- loop of `match_candidate` over the members takes as many rounds as there are bytes behind the
-- first segment: each round consumes the dot. The loop of `rewrite_mig_meta_base_uri` takes one more
-- round than the input has bytes: each round goes on behind an assignment.
--
-- The rounds of `decode_repeatedly` are the source's own bound. A round that changes a text takes two
-- ASCII bytes of it at least, so 512 rounds are enough for 1024 characters.
--
-- Not modelled. An expression stage has no contract yet: `Stage` lets it follow no text, and the
-- theorem on whole requests leaves out the profile `console_v3`, which has such stages. The
-- registration of the metrics (src/metrics.rs) is calls of the crate prometheus only. The start of
-- the process (src/main.rs) is input and output. Pingora calls the filters; the order of its calls
-- is that of `Proxy/Permits`.
pub mod Base
pub mod Slice
pub mod Memmem
pub mod Utf8
pub mod Literal
pub mod Expression
pub mod Policy
mod Tests
pub mod Streaming
pub mod Chain
pub mod Run
pub mod Pipeline
pub mod Stage
pub mod MigMeta
pub mod Response
pub mod Config
pub mod Proxy
pub mod Http
pub mod Admin
