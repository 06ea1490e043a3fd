-- ===== src/Proxy/Request/Claims.antt =====
-- What a request that goes on to the upstream has in its context.
use kse_static_rewrite_proxy.Base.{
  Bool, true, false, ◌≡◌, ◌≢◌, ◌⊎◌, inl, inr, refl, sym, ap, ◌∙◌, Option, none, some,
}
use kse_static_rewrite_proxy.Slice.{Bytes, bytes}
use kse_static_rewrite_proxy.Literal.Result as Rewriting
use kse_static_rewrite_proxy.Pipeline.{Pipeline}
use kse_static_rewrite_proxy.Config.{EffectiveConfig, rewrite_policy, get_or}
use kse_static_rewrite_proxy.Policy.{RewriteProfile, RewriteDecision, bypass, rewrite}
use kse_static_rewrite_proxy.Policy.Decide.{decide}
use kse_static_rewrite_proxy.Response.{build_selected_response_rewriter}
use kse_static_rewrite_proxy.Proxy.{RequestContext, Admission, Answer, admitted, refused, must_wait}
use kse_static_rewrite_proxy.Proxy.Session.{Libraries, Result, ok, err, panic, Session, Exchange}
use kse_static_rewrite_proxy.Proxy.Request.{
  Filtered, returned, waits, noted, with_rewriter, build_rewriter, with_permit, answered, refuse,
  return_of, admit, filter_decided, request_filter, decided_rewriter, request_filter_resumed,
  resumed_with, selected,
}

module _ (l : Libraries) (config : EffectiveConfig) where
  -- A rewriter is there for a selected request that wants a body, and for no other.
  abbrev pub HasRewriter : RewriteDecision → RequestContext → Type 0
  HasRewriter bypass ctx = ctx.rewriter ≡ none
  HasRewriter (rewrite profile extension true) ctx = ctx.rewriter ≡ none
  HasRewriter (rewrite profile extension false) ctx =
      (p : Pipeline) × (build_selected_response_rewriter config.base_path l.memmem l.codec profile
          extension config.max_decoded_bytes
        ≡ Rewriting.ok p)
      × (ctx.rewriter ≡ some p)

  -- The request goes on with the decision, and its body is to be sent.
  pub record GoesOn (d : RewriteDecision) (x : Exchange l) : Type 0 where
    pub decided : x.ctx.decision ≡ d
    pub rewriter : HasRewriter d x.ctx
    pub shown : x.ctx.suppress_body ≡ false

  -- A context behind the note.
  record IsNoted (d : RewriteDecision) (x : Exchange l) : Type 0 where
    decided : x.ctx.decision ≡ d
    no_rewriter : x.ctx.rewriter ≡ none
    shown : x.ctx.suppress_body ≡ false

  with_rewriter-GoesOn :
      (profile : RewriteProfile) (extension : Bytes) (x y : Exchange l)
      (r : Rewriting.Result Pipeline)
      → build_selected_response_rewriter config.base_path l.memmem l.codec profile extension
          config.max_decoded_bytes
        ≡ r
      → IsNoted (rewrite profile extension false) x
      → with_rewriter l config x r ≡ (ok false, y)
      → GoesOn (rewrite profile extension false) y
  with_rewriter-GoesOn profile extension x y (Rewriting.ok p) built h e =
      rw (← ap (λ (r : Result Bool × Exchange l). r.1) e)
        (record { decided = h.decided; rewriter = (p, built, refl); shown = h.shown })
  with_rewriter-GoesOn profile extension x y (Rewriting.err f) built h e =
      let k = ap (λ (r : Result Bool × Exchange l). r.0) e in cc
  with_rewriter-GoesOn profile extension x y Rewriting.panic built h e =
      let k = ap (λ (r : Result Bool × Exchange l). r.0) e in cc

  build_rewriter-GoesOn :
      (profile : RewriteProfile) (extension : Bytes) (x y : Exchange l)
      → IsNoted (rewrite profile extension false) x
      → build_rewriter l config profile extension x ≡ (ok false, y)
      → GoesOn (rewrite profile extension false) y
  unfolding build_rewriter
  build_rewriter-GoesOn profile extension x y h e =
      with_rewriter-GoesOn profile extension x y _ refl h e

  returned-eq :
      (q : Result Bool × Exchange l) (y : Exchange l)
      → return_of l config q ≡ (returned (ok false), y)
      → q ≡ (ok false, y)
  returned-eq (ok true, x) y e = let k = ap (λ (r : Filtered × Exchange l). r.0) e in cc
  returned-eq (ok false, x) y e =
      ap (λ (z : Exchange l). (ok false, z)) (ap (λ (r : Filtered × Exchange l). r.1) e)
  returned-eq (err f, x) y e = let k = ap (λ (r : Filtered × Exchange l). r.0) e in cc
  returned-eq (panic, x) y e = let k = ap (λ (r : Filtered × Exchange l). r.0) e in cc

  answered-ne :
      (x y : Exchange l) (w : Result (Unit {0}) × Session l)
      → answered l config x w ≢ (returned (ok false), y)
  answered-ne x y (ok u, s) e = let k = ap (λ (r : Filtered × Exchange l). r.0) e in cc
  answered-ne x y (err f, s) e = let k = ap (λ (r : Filtered × Exchange l). r.0) e in cc
  answered-ne x y (panic, s) e = let k = ap (λ (r : Filtered × Exchange l). r.0) e in cc

  refuse-ne : (x y : Exchange l) → refuse l config x ≢ (returned (ok false), y)
  unfolding refuse
  refuse-ne x y =
      answered-ne (record x { ctx = record (x.ctx) { outcome = bytes "queue_full" } }) y _

  admit-GoesOn :
      (profile : RewriteProfile) (extension : Bytes) (x y : Exchange l)
      (a : Answer × Admission l.sem)
      → IsNoted (rewrite profile extension false) x
      → admit l config profile extension x a ≡ (returned (ok false), y)
      → GoesOn (rewrite profile extension false) y
  admit-GoesOn profile extension x y (admitted, admission) h e =
      build_rewriter-GoesOn profile extension
        (with_permit l config (record x { admission = admission })) y
        (record { decided = h.decided; no_rewriter = h.no_rewriter; shown = h.shown })
        (returned-eq _ y e)
  admit-GoesOn profile extension x y (refused, admission) h e =
      absurd (refuse-ne (record x { admission = admission }) y e)
  admit-GoesOn profile extension x y (must_wait, admission) h e =
      let k = ap (λ (r : Filtered × Exchange l). r.0) e in cc

  filter_decided-GoesOn :
      (d : RewriteDecision) (x y : Exchange l)
      → IsNoted d x
      → filter_decided l config d x ≡ (returned (ok false), y)
      → GoesOn d y
  unfolding filter_decided
  filter_decided-GoesOn bypass x y h e =
      rw (← ap (λ (r : Filtered × Exchange l). r.1) e)
        (record { decided = h.decided; rewriter = h.no_rewriter; shown = h.shown })
  filter_decided-GoesOn (rewrite profile extension true) x y h e =
      rw (← ap (λ (r : Filtered × Exchange l). r.1) e)
        (record { decided = h.decided; rewriter = h.no_rewriter; shown = h.shown })
  filter_decided-GoesOn (rewrite profile extension false) x y h e =
      admit-GoesOn profile extension (selected l config extension x) y _
        (record { decided = h.decided; no_rewriter = h.no_rewriter; shown = h.shown }) e

  -- The request waited, and other requests left `admission` behind when it went on.
  abbrev pub WentOn : Exchange l → Exchange l → Type 0
  WentOn x y =
      (request_filter l config x ≡ (returned (ok false), y))
      ⊎ ((z : Exchange l) × (admission : Admission l.sem) × (request_filter l config x ≡ (waits, z))
          × (request_filter_resumed l config (record z { admission = admission })
              ≡ some (ok false, y)))

  answered_waits :
      (x z : Exchange l) (w : Result (Unit {0}) × Session l) → answered l config x w ≢ (waits, z)
  answered_waits x z (ok u, s) e = let k = ap (λ (r : Filtered × Exchange l). r.0) e in cc
  answered_waits x z (err f, s) e = let k = ap (λ (r : Filtered × Exchange l). r.0) e in cc
  answered_waits x z (panic, s) e = let k = ap (λ (r : Filtered × Exchange l). r.0) e in cc

  refuse_waits : (x z : Exchange l) → refuse l config x ≢ (waits, z)
  unfolding refuse
  refuse_waits x z =
      answered_waits (record x { ctx = record (x.ctx) { outcome = bytes "queue_full" } }) z _

  admit-waits :
      (profile : RewriteProfile) (extension : Bytes) (x z : Exchange l)
      (a : Answer × Admission l.sem)
      → IsNoted (rewrite profile extension false) x
      → admit l config profile extension x a ≡ (waits, z)
      → IsNoted (rewrite profile extension false) z
  admit-waits profile extension x z (admitted, admission) h e =
      let k = ap (λ (r : Filtered × Exchange l). r.0) e in cc
  admit-waits profile extension x z (refused, admission) h e =
      absurd (refuse_waits (record x { admission = admission }) z e)
  admit-waits profile extension x z (must_wait, admission) h e =
      rw (← ap (λ (r : Filtered × Exchange l). r.1) e)
        (record { decided = h.decided; no_rewriter = h.no_rewriter; shown = h.shown })

  waiting-IsNoted :
      (d : RewriteDecision) (x z : Exchange l)
      → IsNoted d x
      → filter_decided l config d x ≡ (waits, z)
      → (profile : RewriteProfile) × (extension : Bytes) × (d ≡ rewrite profile extension false)
        × IsNoted d z
  unfolding filter_decided
  waiting-IsNoted bypass x z h e = let k = ap (λ (r : Filtered × Exchange l). r.0) e in cc
  waiting-IsNoted (rewrite profile extension true) x z h e =
      let k = ap (λ (r : Filtered × Exchange l). r.0) e in cc
  waiting-IsNoted (rewrite profile extension false) x z h e = (
    profile,
    extension,
    refl,
    admit-waits profile extension (selected l config extension x) z _
        (record { decided = h.decided; no_rewriter = h.no_rewriter; shown = h.shown }) e,
  )

  -- The decision of the policy for the request.
  abbrev pub decision_of : Exchange l → RewriteDecision
  decision_of x =
      decide (rewrite_policy config) x.session.request.method (l.uris.path x.session.request.uri)

  noted-IsNoted :
      (x : Exchange l)
      → x.ctx.rewriter ≡ none
      → x.ctx.suppress_body ≡ false
      → IsNoted (decision_of x) (record x { ctx = noted l config x.session.request x.ctx })
  unfolding noted
  noted-IsNoted x h k = record { decided = refl; no_rewriter = h; shown = k }

  resumed-GoesOn :
      (profile : RewriteProfile) (extension : Bytes) (z y : Exchange l)
      (o : Option (Admission l.sem))
      → IsNoted (rewrite profile extension false) z
      → resumed_with l config z o ≡ some (ok false, y)
      → GoesOn (rewrite profile extension false) y
  resumed-GoesOn profile extension z y none h e = cc
  resumed-GoesOn profile extension z y (some admission) h e =
      build_rewriter-GoesOn profile extension
        (with_permit l config (record z { admission = admission })) y
        (record { decided = h.decided; no_rewriter = h.no_rewriter; shown = h.shown })
        (some_eq (
          ap
            (λ (d : RewriteDecision). some (
              decided_rewriter l config d
                (with_permit l config (record z { admission = admission }))))
            (sym h.decided)
          ∙ e))
    where
      some_eq : {p q : Result Bool × Exchange l} → some p ≡ some q → p ≡ q
      some_eq {p} f = ap (λ (o : Option (Result Bool × Exchange l)). get_or o p) f

  -- A request that goes on, at once or behind a wait: its decision is that of the policy, and a
  -- rewriter is there exactly if the request was selected and wants a body, the one that is built for
  -- the profile.
  pub request_filter-GoesOn :
      (x y : Exchange l)
      → x.ctx.rewriter ≡ none
      → x.ctx.suppress_body ≡ false
      → WentOn x y
      → GoesOn (decision_of x) y
  unfolding request_filter request_filter_resumed noted
  request_filter-GoesOn x y h k (inl e) =
      filter_decided-GoesOn (decision_of x) _ y (noted-IsNoted x h k) e
  request_filter-GoesOn x y h k (inr (z, admission, e, f)) =
      let (profile, extension, same, noted_z) =
        waiting-IsNoted (decision_of x) _ z (noted-IsNoted x h k) e in
      rw same (
        resumed-GoesOn profile extension (record z { admission = admission }) y _
          (moved same noted_z) f)
    where
      moved :
          {d e : RewriteDecision} {z : Exchange l} {admission : Admission l.sem}
          → d ≡ e
          → IsNoted d z
          → IsNoted e (record z { admission = admission })
      moved same h = record {
        decided = h.decided ∙ same;
        no_rewriter = h.no_rewriter;
        shown = h.shown;
      }
