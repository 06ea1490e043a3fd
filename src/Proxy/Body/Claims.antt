-- ===== src/Proxy/Body/Claims.antt =====
-- What a client reads of a response whose body is filtered.
use kse_static_rewrite_proxy.Base.{
  ℕ, ◌≤◌, Bool, true, false, List, [], ◌∷◌, ◌++◌, ◌≡◌, ◌↔◌, ◌⊎◌, inl, inr, if◌then◌else◌,
  Bool-cases, refl, sym, ap, ◌∙◌, Option, none, some, length, append-nil, arith,
}
use kse_static_rewrite_proxy.Slice.{Bytes}
use kse_static_rewrite_proxy.Memmem.{Memmem}
use kse_static_rewrite_proxy.Run.{flatten, run, prepended}
use kse_static_rewrite_proxy.Literal.Result.{Result, ok, err, panic, then_ok}
use kse_static_rewrite_proxy.Literal.Rewriter.{usize_max}
use kse_static_rewrite_proxy.Pipeline as Pipeline
use kse_static_rewrite_proxy.Pipeline.{Pipeline}
use kse_static_rewrite_proxy.Pipeline.Contract.{transform_all, pipeline_streaming}
use kse_static_rewrite_proxy.Pipeline.Built.{Built}
use kse_static_rewrite_proxy.Pipeline.Claims.{pipeline_iff}
use kse_static_rewrite_proxy.Proxy.{RequestContext}
use kse_static_rewrite_proxy.Proxy.Body.{
  unwrap_or_default, wrapping_add, not_empty, finish_at_end, rewrite_body, with_output, filter_by,
  response_body_filter, sent_before, filter_all,
}

-- The chunks of the calls.
abbrev pub chunks_of : List (Option Bytes) → Option Bytes → List Bytes
chunks_of [] last = unwrap_or_default last ∷ []
chunks_of (b ∷ bs) last = unwrap_or_default b ∷ chunks_of bs last

unwrap-not_empty : (output : Bytes) → unwrap_or_default (not_empty output) ≡ output
unwrap-not_empty [] = refl
unwrap-not_empty (b ∷ bs) = refl

-- The same context, up to the numbers of bytes: a rewriter is there and the body is not suppressed.
abbrev pub IsRewriting : RequestContext → Pipeline → Type 0
IsRewriting ctx p = (ctx.suppress_body ≡ false) × (ctx.rewriter ≡ some p)

module _ (memmem : Memmem) where
  abbrev counted : RequestContext → Option Bytes → RequestContext
  counted ctx body = record ctx {
    input_bytes = wrapping_add ctx.input_bytes (length (unwrap_or_default body));
  }

  filter-IsRewriting :
      (ctx : RequestContext) (p : Pipeline) (body : Option Bytes) (end_of_stream : Bool)
      → IsRewriting ctx p
      → response_body_filter memmem ctx body end_of_stream
        ≡ with_output memmem
            (counted ctx body)
            (rewrite_body memmem p (unwrap_or_default body) end_of_stream)
  unfolding response_body_filter filter_by
  filter-IsRewriting ctx p body end_of_stream (shown, there) = rw (shown, there) refl

  end_step :
      (ctx : RequestContext) (pushed finished : Result Bytes) (p q : Pipeline)
      → (let written =
            with_output memmem ctx
              (then_ok pushed p λ o. then_ok finished q λ more. (ok (o ++ more), q)) in
          (then_ok written.0 written.1 λ sent. (ok (unwrap_or_default sent), written.1)).0)
        ≡ (then_ok pushed p λ o. prepended o (finished, q)).0
  end_step ctx (ok o) (ok more) p q = ap ok (unwrap-not_empty (o ++ more))
  end_step ctx (ok o) (err e) p q = refl
  end_step ctx (ok o) panic p q = refl
  end_step ctx (err e) finished p q = refl
  end_step ctx panic finished p q = refl

  sent-prepended :
      (o : Bytes) (q : Result Bytes × RequestContext) (r : Result Bytes × Pipeline)
      → q.0 ≡ r.0
      → (sent_before memmem (not_empty o) q).0 ≡ (prepended o r).0
  sent-prepended o (ok rest, ctx) (ok more, p) e = ap ok (
      ap (λ (xs : Bytes). xs ++ rest) (unwrap-not_empty o)
      ∙ ap (λ (xs : Bytes). o ++ xs) (ground arith))
  sent-prepended o (err x, ctx) (err y, p) e = ground arith
  sent-prepended o (panic, ctx) (panic, p) e = refl
  sent-prepended o (ok rest, ctx) (err y, p) e = cc
  sent-prepended o (ok rest, ctx) (panic, p) e = cc
  sent-prepended o (err x, ctx) (ok more, p) e = cc
  sent-prepended o (err x, ctx) (panic, p) e = cc
  sent-prepended o (panic, ctx) (ok more, p) e = cc
  sent-prepended o (panic, ctx) (err y, p) e = cc

  more_step :
      (ctx : RequestContext) (pushed : Result Bytes) (p : Pipeline)
      (rest : RequestContext → Result Bytes × RequestContext) (after : Result Bytes × Pipeline)
      → ((c : RequestContext) → IsRewriting c p → (rest c).0 ≡ after.0)
      → ctx.suppress_body ≡ false
      → (let written = with_output memmem ctx (then_ok pushed p λ o. (ok o, p)) in
          (then_ok written.0 written.1 λ sent. sent_before memmem sent (rest written.1)).0)
        ≡ (then_ok pushed p λ o. prepended o after).0
  more_step ctx (ok o) p rest after same shown =
      sent-prepended o (rest _) after (same _ (shown, refl))
  more_step ctx (err e) p rest after same shown = refl
  more_step ctx panic p rest after same shown = refl

  -- The calls push every chunk and finish the rewriter, as `run` does it.
  filter_all-run :
      (bs : List (Option Bytes)) (last : Option Bytes) (ctx : RequestContext) (p : Pipeline)
      → IsRewriting ctx p
      → (filter_all memmem ctx bs last).0
        ≡ (run (pipeline_streaming memmem) p (chunks_of bs last)).0
  unfolding filter_all run rewrite_body finish_at_end
  filter_all-run [] last ctx p h =
      let (pushed, p') = Pipeline.push memmem p (unwrap_or_default last) in
      let (finished, q) = Pipeline.finish memmem p' in
      rw (filter-IsRewriting ctx p last true h) (end_step (counted ctx last) pushed finished p' q)
  filter_all-run (b ∷ bs) last ctx p h =
      let (pushed, p') = Pipeline.push memmem p (unwrap_or_default b) in
      rw (filter-IsRewriting ctx p b false h) (
        more_step (counted ctx b) pushed p' (λ c. filter_all memmem c bs last)
          (run (pipeline_streaming memmem) p' (chunks_of bs last))
          (λ c k. filter_all-run bs last c p' k) h.0)

  -- For a context with a rewriter that the constructors made of literal and buffered stages, with a
  -- limit that a `usize` holds, and a body that is not suppressed: whatever the calls of the filter
  -- hand it, with chunks, empty chunks or no body at all, they succeed and send `out` exactly if the
  -- joined input is accepted and is transformed to `out` by the stages' single passes.
  pub filter_all_iff :
      (max_bytes : ℕ) (p : Pipeline) (ctx : RequestContext) (bs : List (Option Bytes))
      (last : Option Bytes) (out : Bytes)
      → max_bytes ≤ usize_max
      → Built max_bytes p
      → ctx.rewriter ≡ some p
      → ctx.suppress_body ≡ false
      → ((filter_all memmem ctx bs last).0 ≡ ok out)
        ↔ (transform_all memmem p (flatten (chunks_of bs last)) ≡ some out)
  filter_all_iff max_bytes p ctx bs last out l b there shown =
      rw (filter_all-run bs last ctx p (shown, there))
        (pipeline_iff memmem max_bytes p (chunks_of bs last) out l b)

  filter-bypass :
      (body : Option Bytes) (end_of_stream : Bool) (ctx : RequestContext)
      → (ctx.suppress_body ≡ true) ⊎ (ctx.rewriter ≡ none)
      → response_body_filter memmem ctx body end_of_stream
        ≡ (ok (if ctx.suppress_body then none else body), ctx)
  unfolding response_body_filter filter_by
  filter-bypass body end_of_stream ctx (inl e) = rw e refl
  filter-bypass body end_of_stream ctx (inr e) = elim (Bool-cases ctx.suppress_body) [
    | inl s ↦ rw s refl
    | inr s ↦ rw (s, e) refl
  ]

  sent_before-ok :
      (b : Option Bytes) (q : Result Bytes × RequestContext) (rest : Bytes)
      → q.0 ≡ ok rest
      → (sent_before memmem b q).0 ≡ ok (unwrap_or_default b ++ rest)
  sent_before-ok b (ok sent, ctx) rest e =
      ap ok (ap (λ (xs : Bytes). unwrap_or_default b ++ xs) (ground arith))
  sent_before-ok b (err x, ctx) rest e = cc
  sent_before-ok b (panic, ctx) rest e = cc

  unless-end :
      (s : Bool) (last : Option Bytes)
      → unwrap_or_default (if s then none else last)
        ≡ (if s then [] else flatten (unwrap_or_default last ∷ []))
  unless-end true last = refl
  unless-end false last = sym (append-nil (unwrap_or_default last))

  unless-append :
      (s : Bool) (b : Option Bytes) (rest : Bytes)
      → unwrap_or_default (if s then none else b) ++ (if s then [] else rest)
        ≡ (if s then [] else unwrap_or_default b ++ rest)
  unless-append true b rest = refl
  unless-append false b rest = refl

  -- Without a rewriter every body is sent as it came, and a suppressed body is not sent at all.
  pub filter_all-bypass :
      (bs : List (Option Bytes)) (last : Option Bytes) (ctx : RequestContext)
      → (ctx.suppress_body ≡ true) ⊎ (ctx.rewriter ≡ none)
      → (filter_all memmem ctx bs last).0
        ≡ ok (if ctx.suppress_body then [] else flatten (chunks_of bs last))
  unfolding filter_all
  filter_all-bypass [] last ctx h =
      rw (filter-bypass last true ctx h) (ap ok (unless-end ctx.suppress_body last))
  filter_all-bypass (b ∷ bs) last ctx h = rw (filter-bypass b false ctx h) (
      sent_before-ok (if ctx.suppress_body then none else b) (filter_all memmem ctx bs last)
        (if ctx.suppress_body then [] else flatten (chunks_of bs last))
        (filter_all-bypass bs last ctx h)
      ∙ ap ok (unless-append ctx.suppress_body b (flatten (chunks_of bs last))))
