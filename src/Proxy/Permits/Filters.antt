-- ===== src/Proxy/Permits/Filters.antt =====
-- What the filters leave of the permits, beside other requests.
use kse_static_rewrite_proxy.Base.{
  ℕ, ◌+◌, Bool, true, false, ◌≡◌, refl, ap, ◌∙◌, Option, none, some, arith, if-elim, inl, inr,
  length,
}
use kse_static_rewrite_proxy.Slice.{Bytes, bytes}
use kse_static_rewrite_proxy.Memmem.{Memmem}
use kse_static_rewrite_proxy.Literal.Result as Rewriting
use kse_static_rewrite_proxy.Pipeline.{Pipeline}
use kse_static_rewrite_proxy.Config.{EffectiveConfig}
use kse_static_rewrite_proxy.Policy.{RewriteProfile, RewriteDecision, bypass, rewrite}
use kse_static_rewrite_proxy.Proxy.{
  RequestContext, Admission, Answer, admitted, refused, must_wait, resume, take_permit,
}
use kse_static_rewrite_proxy.Proxy.Body.{
  response_body_filter, filter_by, with_output, rewrite_body, unwrap_or_default, wrapping_add,
}
use kse_static_rewrite_proxy.Proxy.Session.{
  Libraries, Result, ok, err, panic, Session, ResponseHeader, Exchange,
}
use kse_static_rewrite_proxy.Proxy.Request.{
  Filtered, returned, waits, noted, with_rewriter, build_rewriter, with_permit, answered, refuse,
  admit, filter_decided, request_filter, decided_rewriter, request_filter_resumed, resumed_with,
  selected,
}
use kse_static_rewrite_proxy.Proxy.ResponseFilter.{State, response_filter, stop_rewrite, logging}
use kse_static_rewrite_proxy.Proxy.ResponseFilter.Outcome.{Ends, Filters, response_filter-Names}
use kse_static_rewrite_proxy.Proxy.Interleaving.Balance.{
  Balances, Balances-same, AnswerBalances, try_admit-Balances, resume-Balances,
}
use kse_static_rewrite_proxy.Proxy.Permits.Held.{held, take_permit-Balances}

pub body_filter-permit :
    (memmem : Memmem) (ctx : RequestContext) (body : Option Bytes) (end_of_stream : Bool)
    → (response_body_filter memmem ctx body end_of_stream).1.active_permit ≡ ctx.active_permit
unfolding response_body_filter filter_by
body_filter-permit memmem ctx body end_of_stream =
    if-elim
      (λ (r : Rewriting.Result (Option Bytes) × RequestContext).
        r.1.active_permit ≡ ctx.active_permit)
      ctx.suppress_body (Rewriting.ok none, ctx)
      (filter_by memmem ctx.rewriter ctx body end_of_stream) (λ hidden. refl)
      (λ shown. by_rewriter ctx.rewriter)
  where
    output :
        (c : RequestContext) (r : Rewriting.Result Bytes × Pipeline)
        → (with_output memmem c r).1.active_permit ≡ c.active_permit
    output c (Rewriting.ok o, p) = refl
    output c (Rewriting.err e, p) = refl
    output c (Rewriting.panic, p) = refl

    by_rewriter :
        (o : Option Pipeline)
        → (filter_by memmem o ctx body end_of_stream).1.active_permit ≡ ctx.active_permit
    by_rewriter none = refl
    by_rewriter (some p) =
        output
          (record ctx {
            input_bytes = wrapping_add ctx.input_bytes (length (unwrap_or_default body));
          })
          (rewrite_body memmem p (unwrap_or_default body) end_of_stream)

module _ (l : Libraries) (config : EffectiveConfig) (m k : ℕ) where
  abbrev pub IsOwing : Exchange l → Type 0
  IsOwing x = Balances l.sem config x.admission (m + held x.ctx.active_permit) k

  is_free :
      (y : Exchange l)
      → Balances l.sem config y.admission m k × (y.ctx.active_permit ≡ false)
      → IsOwing y
  is_free y (h, free) = Balances-same l.sem config (rw free (omega arith)) refl h

  -- Behind the first filter.
  abbrev pub After : Filtered × Exchange l → Type 0
  After (returned result, x) = IsOwing x
  After (waits, x) = Balances l.sem config x.admission m (k + 1) × (x.ctx.active_permit ≡ false)

  with_rewriter-IsOwing :
      (x : Exchange l) (r : Rewriting.Result Pipeline)
      → IsOwing x
      → IsOwing (with_rewriter l config x r).1
  with_rewriter-IsOwing x (Rewriting.ok p) h = h
  with_rewriter-IsOwing x (Rewriting.err e) h = h
  with_rewriter-IsOwing x Rewriting.panic h = h

  build_rewriter-IsOwing :
      (profile : RewriteProfile) (extension : Bytes) (x : Exchange l)
      → IsOwing x
      → IsOwing (build_rewriter l config profile extension x).1
  unfolding build_rewriter
  build_rewriter-IsOwing profile extension x h = with_rewriter-IsOwing x _ h

  answered-After :
      (x : Exchange l) (w : Result (Unit {0}) × Session l)
      → IsOwing x
      → After (answered l config x w)
  answered-After x (ok u, s) h = h
  answered-After x (err e, s) h = h
  answered-After x (panic, s) h = h

  refuse-After : (x : Exchange l) → IsOwing x → After (refuse l config x)
  unfolding refuse
  refuse-After x h =
      answered-After (record x { ctx = record (x.ctx) { outcome = bytes "queue_full" } }) _ h

  admit-After :
      (profile : RewriteProfile) (extension : Bytes) (x : Exchange l) (a : Answer × Admission l.sem)
      → x.ctx.active_permit ≡ false
      → AnswerBalances l.sem config m k a
      → After (admit l config profile extension x a)
  admit-After profile extension x (admitted, a) free h =
      build_rewriter-IsOwing profile extension (with_permit l config (record x { admission = a })) h
  admit-After profile extension x (refused, a) free h =
      refuse-After (record x { admission = a }) (is_free (record x { admission = a }) (h, free))
  admit-After profile extension x (must_wait, a) free h = (h, free)

  filter_decided-After :
      (d : RewriteDecision) (x : Exchange l)
      → x.ctx.active_permit ≡ false
      → Balances l.sem config x.admission m k
      → After (filter_decided l config d x)
  unfolding filter_decided
  filter_decided-After bypass x free h = is_free x (h, free)
  filter_decided-After (rewrite profile extension true) x free h = is_free x (h, free)
  filter_decided-After (rewrite profile extension false) x free h =
      admit-After profile extension (selected l config extension x) _ free
        (try_admit-Balances l.sem config x.admission m k h)

  pub request_filter-After :
      (x : Exchange l)
      → x.ctx.active_permit ≡ false
      → Balances l.sem config x.admission m k
      → After (request_filter l config x)
  unfolding request_filter noted
  request_filter-After x free h =
      filter_decided-After _ (record x { ctx = noted l config x.session.request x.ctx }) free h

  decided-IsOwing :
      (d : RewriteDecision) (x : Exchange l) → IsOwing x → IsOwing (decided_rewriter l config d x).1
  decided-IsOwing bypass x h = h
  decided-IsOwing (rewrite profile extension head_only) x h =
      build_rewriter-IsOwing profile extension x h

  resumed-IsOwing :
      (x y : Exchange l) (result : Result Bool) (o : Option (Admission l.sem))
      → resume l.sem x.admission ≡ o
      → Balances l.sem config x.admission m (k + 1)
      → resumed_with l config x o ≡ some (result, y)
      → IsOwing y
  resumed-IsOwing x y result none e h f = cc
  resumed-IsOwing x y result (some a) e h f =
      let owing =
        decided-IsOwing x.ctx.decision (with_permit l config (record x { admission = a }))
          (resume-Balances l.sem config x.admission a m k h e) in
      let same : decided_rewriter l config x.ctx.decision
            (with_permit l config (record x { admission = a }))
          ≡ (result, y) =
        some_eq f in
      rw same at owing
    where
      some_eq : {p q : Result Bool × Exchange l} → some p ≡ some q → p ≡ q
      some_eq e = cc

  pub resumed_filter-IsOwing :
      (x y : Exchange l) (result : Result Bool)
      → Balances l.sem config x.admission m (k + 1)
      → request_filter_resumed l config x ≡ some (result, y)
      → IsOwing y
  unfolding request_filter_resumed
  resumed_filter-IsOwing x y result h e =
      resumed-IsOwing x y result (resume l.sem x.admission) refl h e

  taken-IsOwing :
      (x y : Exchange l)
      → y.admission ≡ (take_permit l.sem x.admission x.ctx).0
      → y.ctx.active_permit ≡ (take_permit l.sem x.admission x.ctx).1.active_permit
      → IsOwing x
      → Balances l.sem config y.admission m k × (y.ctx.active_permit ≡ false)
  taken-IsOwing x y same permit h =
      let (back, free) = take_permit-Balances l.sem config x.admission x.ctx m k h in
      (rw same back, permit ∙ free)

  stop_rewrite-IsOwing :
      (x : Exchange l) (outcome : Bytes) → IsOwing x → IsOwing (stop_rewrite l x outcome)
  unfolding stop_rewrite
  stop_rewrite-IsOwing x outcome h =
      let stopped = record x { ctx = record (x.ctx) { rewriter = none; outcome = outcome } } in
      is_free (stop_rewrite l x outcome)
        (taken-IsOwing stopped (stop_rewrite l x outcome) refl refl h)

  -- The exchange that a filter of the response leaves behind.
  abbrev left_by : Result (Unit {0}) × State l config → Exchange l
  left_by result = result.1.1

  Ends-IsOwing :
      (x : Exchange l) (response : ResponseHeader l) (tag : Option Bytes)
      (result : Result (Unit {0}) × State l config)
      → IsOwing x
      → Ends l config x response tag result
      → IsOwing (left_by result)
  Ends-IsOwing x response tag result h (inl e) = rw (ap left_by e) h
  Ends-IsOwing x response tag result h (inr (derived, same, asked, e)) = rw (ap left_by e) (
      stop_rewrite-IsOwing
        (record x { ctx = record (x.ctx) { suppress_body = true; rewriter = none } })
        (bytes "not_modified") h)

  Filters-IsOwing :
      (d : RewriteDecision) (x : Exchange l) (response : ResponseHeader l)
      (result : Result (Unit {0}) × State l config)
      → IsOwing x
      → Filters l config d x response result
      → IsOwing (left_by result)
  Filters-IsOwing bypass x response result h e = rw (ap left_by e) h
  Filters-IsOwing (rewrite profile extension head_only) x response result h
        (inl (outcome, same, why)) =
      rw (ap (λ (s : State l config). s.1) same) (stop_rewrite-IsOwing x outcome h)
  Filters-IsOwing (rewrite profile extension head_only) x response result h
        (inr (status, kind, plain, (headers, clean, e))) =
      Ends-IsOwing x (record response { headers = headers }) _ result h e

  pub response_filter-IsOwing :
      (x : Exchange l) (response : ResponseHeader l)
      → IsOwing x
      → IsOwing (left_by (response_filter l config (response, x)))
  response_filter-IsOwing x response h =
      elim (response_filter-Names l config x.ctx.decision x response refl) [
        | inl e ↦ rw (ap left_by e) h
        | inr (headers, inserted, f) ↦
            Filters-IsOwing x.ctx.decision x (record response { headers = headers })
              (response_filter l config (response, x)) h f
      ]

  pub logging_back :
      (failed : Bool) (x : Exchange l)
      → IsOwing x
      → Balances l.sem config (logging l config failed x).admission m k
        × ((logging l config failed x).ctx.active_permit ≡ false)
  unfolding logging
  logging_back failed x h = taken-IsOwing x (logging l config failed x) refl refl h
