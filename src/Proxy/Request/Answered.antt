-- ===== src/Proxy/Request/Answered.antt =====
-- How `request_filter` answers, by the decision and the admission.
use kse_static_rewrite_proxy.Base.{
  ℕ, suc, ◌-◌, ◌≤◌, Bool, true, false, [], ◌∷◌, ◌++◌, ◌≡◌, refl, ◌∙◌, none, some, arith,
  Option-cases, inl, inr, ◌⊎◌,
}
use kse_static_rewrite_proxy.Slice.{Bytes, bytes}
use kse_static_rewrite_proxy.Slice.Text.{all_bytes}
use kse_static_rewrite_proxy.Literal.Result as Rewriting
use kse_static_rewrite_proxy.Pipeline.{Pipeline}
use kse_static_rewrite_proxy.Config.{EffectiveConfig}
use kse_static_rewrite_proxy.Config.Listeners.{digits}
use kse_static_rewrite_proxy.Policy.{RewriteProfile, RewriteDecision, bypass, rewrite}
use kse_static_rewrite_proxy.Response.{build_selected_response_rewriter}
use kse_static_rewrite_proxy.Response.Total.{build-ok}
use kse_static_rewrite_proxy.Http.{content_type, content_length, retry_after}
use kse_static_rewrite_proxy.Proxy.{
  Admission, Answer, RequestContext, admitted, refused, must_wait, try_admit, resume,
}
use kse_static_rewrite_proxy.Proxy.Session.{
  Libraries, ok, Session, Exchange, ResponseHeader, disable_compression, write_response,
  write_response_header, write_response_body,
}
use kse_static_rewrite_proxy.Proxy.Request.{
  Filtered, returned, waits, noted, build_rewriter, refuse, admit, filter_decided, request_filter,
  request_filter_resumed, selected,
}
use kse_static_rewrite_proxy.Proxy.Request.Claims.{decision_of}

module _ (l : Libraries) (config : EffectiveConfig) where
  abbrev full : Bytes
  full = bytes "rewrite queue is full" ++ (10 ∷ [])

  -- Status 503 with the time to come back was written, and the body behind it.
  pub record Told (session : Session l) : Type 0 where
    pub header : ResponseHeader l
    pub written : session.written_header ≡ some header
    pub status : header.status ≡ 503
    pub come_back : l.http.get_all retry_after header.headers ≡ bytes "1" ∷ []
    pub sized : l.http.get_all content_length header.headers ≡ bytes "22" ∷ []
    pub body : session.written_body ≡ some full

  -- `write_response` over a connection that takes two writes.
  write_response-Told :
      (session : Session l) (left : ℕ)
      → session.writes_left ≡ suc (suc left)
      → (after : Session l) × (write_response l session 503
            (bytes "text/plain; charset=utf-8")
            full
            (some (retry_after, bytes "1"))
          ≡ (ok tt, after))
        × Told after
  unfolding write_response write_response_header write_response_body digits
  write_response-Told session left enough =
      let (typed, e) =
        l.http.inserts content_type (bytes "text/plain; charset=utf-8") l.http.empty
          (unfold all_bytes in refl) in
      let (sized, f) =
        l.http.inserts content_length (bytes "22") typed (unfold all_bytes in refl) in
      let (headers, g) = l.http.inserts retry_after (bytes "1") sized (unfold all_bytes in refl) in
      rw (e, f, g, enough)
        (
          _,
          refl,
          record {
            header = record { status = 503; headers = headers };
            written = refl;
            status = refl;
            come_back = l.http.inserted retry_after (bytes "1") sized headers g;
            sized =
                l.http.inserted_beside retry_after content_length (bytes "1") sized headers g
                  (λ h. cc)
                ∙ l.http.inserted content_length (bytes "22") typed sized f;
            body = refl;
          },
        )

  disable_compression-writes :
      (session : Session l) → (disable_compression l session).writes_left ≡ session.writes_left
  unfolding disable_compression
  disable_compression-writes session = elim (Option-cases session.compression) [
    | inl none_there ↦ rw none_there refl
    | inr (level, there) ↦ rw there refl
  ]

  -- The request goes on with a permit and the pipeline of its profile.
  abbrev pub IsReady : RewriteProfile → Bytes → RequestContext → Type 0
  IsReady profile extension ctx =
      (ctx.active_permit ≡ true)
      × ((p : Pipeline) × (build_selected_response_rewriter config.base_path l.memmem l.codec
              profile extension config.max_decoded_bytes
            ≡ Rewriting.ok p)
          × (ctx.rewriter ≡ some p))

  -- A request that is not selected or wants no body goes on; another goes on with a permit and its
  -- pipeline, waits, or is told to come back.
  abbrev pub Answers : RewriteDecision → Answer → Filtered × Exchange l → Type 0
  Answers bypass answer r = r.0 ≡ returned (ok false)
  Answers (rewrite profile extension true) answer r = r.0 ≡ returned (ok false)
  Answers (rewrite profile extension false) admitted r =
      (r.0 ≡ returned (ok false)) × IsReady profile extension r.1.ctx
  Answers (rewrite profile extension false) must_wait r = r.0 ≡ waits
  Answers (rewrite profile extension false) refused r =
      (r.0 ≡ returned (ok true)) × Told r.1.session

  admit-Answers :
      (profile : RewriteProfile) (extension : Bytes) (x : Exchange l) (a : Answer × Admission l.sem)
      → 2 ≤ x.session.writes_left
      → Answers (rewrite profile extension false) a.0 (admit l config profile extension x a)
  unfolding build_rewriter refuse
  admit-Answers profile extension x (admitted, admission) enough =
      let (p, e) =
        build-ok config.base_path config.max_decoded_bytes l.memmem l.codec profile extension in
      rw e (refl, (refl, (p, refl, refl)))
  admit-Answers profile extension x (must_wait, admission) enough = refl
  admit-Answers profile extension x (refused, admission) enough =
      let plain = disable_compression l x.session in
      let same = disable_compression-writes x.session in
      let left : plain.writes_left ≡ suc (suc (x.session.writes_left - 2)) = same ∙ omega arith in
      let (after, e, told) = write_response-Told plain (x.session.writes_left - 2) left in
      rw e (refl, told)

  filter_decided-Answers :
      (d : RewriteDecision) (x : Exchange l)
      → 2 ≤ x.session.writes_left
      → Answers d (try_admit l.sem x.admission).0 (filter_decided l config d x)
  unfolding filter_decided
  filter_decided-Answers bypass x enough = refl
  filter_decided-Answers (rewrite profile extension true) x enough = refl
  filter_decided-Answers (rewrite profile extension false) x enough =
      admit-Answers profile extension (selected l config extension x) (try_admit l.sem x.admission)
        enough

  -- For a connection that takes two writes, whatever the request and the admission: a request that
  -- is not selected or wants no body goes on; another goes on with a permit and the pipeline of its
  -- profile, waits, or is sent status 503 with `Retry-After`. The filter never fails.
  pub request_filter-Answers :
      (x : Exchange l)
      → 2 ≤ x.session.writes_left
      → Answers (decision_of l config x) (try_admit l.sem x.admission).0 (request_filter l config x)
  unfolding request_filter noted
  request_filter-Answers x enough =
      filter_decided-Answers (decision_of l config x)
        (record x { ctx = noted l config x.session.request x.ctx }) enough

  -- For a request that was selected and waits, and that gets the permit that has been assigned, if one
  -- has: it goes on with the permit and the pipeline of its profile, and its filter does not fail. It
  -- stays where it is only if no permit has been assigned to a waiting request.
  pub request_filter_resumed-IsReady :
      (x : Exchange l) (profile : RewriteProfile) (extension : Bytes) (head_only : Bool)
      → x.ctx.decision ≡ rewrite profile extension head_only
      → ((request_filter_resumed l config x ≡ none) × (l.sem.assigned x.admission.active ≡ 0))
        ⊎ ((y : Exchange l) × (request_filter_resumed l config x ≡ some (ok false, y))
            × IsReady profile extension y.ctx)
  unfolding request_filter_resumed resume build_rewriter
  request_filter_resumed-IsReady x profile extension head_only decided =
      elim (Option-cases (l.sem.collect x.admission.active)) [
        | inl taken ↦ inl (
          rw (request_filter_resumed, resume, taken) refl,
          l.sem.not_assigned x.admission.active taken,
        )
        | inr (active, free) ↦
            let (p, e) =
              build-ok config.base_path config.max_decoded_bytes l.memmem l.codec profile
                extension in
            rw (request_filter_resumed, resume, free, decided, build_rewriter, e)
              (inr (_, refl, (refl, (p, refl, refl))))
      ]
