-- ===== src/Admin/Claims.antt =====
-- Which answers the administration server gives.
use kse_static_rewrite_proxy.Base.{
  ℕ, zero, suc, ◌/◌, ◌%◌, ◌≤◌, Bool, true, false, List, [], ◌∷◌, ◌++◌, ◌≡◌, ◌≢◌, inl, inr, refl,
  ◌∙◌, Option, none, some, ltb, length, arith, Bool-cases,
}
use kse_static_rewrite_proxy.Slice.{Bytes, bytes, equal}
use kse_static_rewrite_proxy.Slice.Text.{all_bytes}
use kse_static_rewrite_proxy.Slice.Split.{all_bytes-append}
use kse_static_rewrite_proxy.Slice.Prefix.{equal→eq, equal_refl}
use kse_static_rewrite_proxy.Config.Listeners.{SocketAddr, digits}
use kse_static_rewrite_proxy.Http.{
  HeaderName, content_type, content_length, cache_control, all_visible, is_visible,
}
use kse_static_rewrite_proxy.Admin.{
  Response, Environment, built, length_of, response, version_body, version_response, text,
  ready_response, metrics_response, respond,
}

digits-visible : (fuel n : ℕ) → all_visible (digits fuel n) ≡ true
unfolding digits all_bytes
digits-visible zero n = refl
digits-visible (suc fuel) n = elim (Bool-cases (ltb n 10)) [
  | inl small ↦ rw small (ground arith)
  | inr large ↦
      let last : n % 10 ≤ 9 = omega arith in
      rw large (
        all_bytes-append is_visible (digits fuel (n / 10)) _
        ∙ rw (digits-visible fuel (n / 10)) (ground arith))
]

-- A response with a content type, and with its own length in its last header.
pub record IsWhole (r : Response) : Type 0 where
  pub kind : Bytes
  pub extra : List (HeaderName × Bytes)
  pub sized :
      r.headers ≡ (content_type, kind) ∷ (extra ++ ((content_length, length_of r.body) ∷ []))

-- There is an answer, with this status.
pub record Answers (status : ℕ) (result : Option Response) : Type 0 where
  pub answer : Response
  pub same : result ≡ some answer
  pub status_same : answer.status ≡ status
  pub whole : IsWhole answer

response-Answers :
    (status : ℕ) (kind body : Bytes)
    → all_visible kind ≡ true
    → Answers status (response status kind body)
unfolding response built
response-Answers status kind body h = record {
  answer = record {
    status = status;
    headers = (content_type, kind) ∷ (content_length, length_of body) ∷ [];
    body = body;
  };
  same = rw (h, digits-visible 20 (length body)) refl;
  status_same = refl;
  whole = record { kind = kind; extra = []; sized = refl };
}

text_visible : all_visible text ≡ true
unfolding all_bytes
text_visible = refl

version-Answers : (env : Environment) → Answers 200 (version_response env)
unfolding version_response built all_bytes
version-Answers env =
    let body = version_body env in
    let kind = bytes "application/json; charset=utf-8" in
    let kept : HeaderName × Bytes = (cache_control, bytes "no-store") in
    record {
      answer = record {
        status = 200;
        headers = (content_type, kind) ∷ kept ∷ (content_length, length_of body) ∷ [];
        body = body;
      };
      same = rw (digits-visible 20 (length body)) refl;
      status_same = refl;
      whole = record { kind = kind; extra = kept ∷ []; sized = refl };
    }

-- The paths with their statuses; any other is not found.
pub data Route (env : Environment) (upstream : SocketAddr) (path : Bytes) : ℕ → Type 0 where
  healthy : path ≡ bytes "/healthz" → Route env upstream path 200
  ready : path ≡ bytes "/readyz" → env.connects upstream ≡ true → Route env upstream path 200
  not_ready : path ≡ bytes "/readyz" → env.connects upstream ≡ false → Route env upstream path 503
  versioned : path ≡ bytes "/version" → Route env upstream path 200
  measured :
      (kind body : Bytes)
      → path ≡ bytes "/metrics"
      → env.encode ≡ some (kind, body)
      → Route env upstream path 200
  unmeasured : path ≡ bytes "/metrics" → env.encode ≡ none → Route env upstream path 500
  unknown :
      path ≢ bytes "/healthz"
      → path ≢ bytes "/readyz"
      → path ≢ bytes "/version"
      → path ≢ bytes "/metrics"
      → Route env upstream path 404

not_equal : (xs ys : Bytes) → equal xs ys ≡ false → xs ≢ ys
not_equal xs ys h e = let t = rw e at h in let r = equal_refl ys in cc

abbrev pub Routed : Environment → SocketAddr → Bytes → Type 0
Routed env upstream path =
    (status : ℕ) × Route env upstream path status × Answers status (respond env upstream path)

-- If the encoder of the metrics names a content type in visible ASCII: every path has an answer, with
-- the status of its route and its own length in a header, and no answer panics.
pub respond-Routed :
    (env : Environment) (upstream : SocketAddr) (path : Bytes)
    → ((kind body : Bytes) → env.encode ≡ some (kind, body) → all_visible kind ≡ true)
    → Routed env upstream path
unfolding respond
respond-Routed env upstream path shown = elim (Bool-cases (equal path (bytes "/healthz"))) [
  | inl health ↦
      rw health (200, healthy (equal→eq path _ health), response-Answers 200 text _ text_visible)
  | inr a ↦ elim (Bool-cases (equal path (bytes "/readyz"))) [
    | inl readiness ↦
        rw (a, readiness) (connected (equal→eq path _ readiness) (env.connects upstream) refl)
    | inr b ↦ elim (Bool-cases (equal path (bytes "/version"))) [
      | inl version ↦
          rw (a, b, version) (200, versioned (equal→eq path _ version), version-Answers env)
      | inr c ↦ elim (Bool-cases (equal path (bytes "/metrics"))) [
        | inl metrics ↦ rw (a, b, c, metrics) (encoded (equal→eq path _ metrics) env.encode refl)
        | inr d ↦
            rw (a, b, c, d)
              (
                404,
                unknown (not_equal path _ a) (not_equal path _ b) (not_equal path _ c)
                    (not_equal path _ d),
                response-Answers 404 text _ text_visible,
              )
      ]
    ]
  ]
]
  where
    connected :
        path ≡ bytes "/readyz"
        → (ok : Bool) → env.connects upstream ≡ ok
        → (status : ℕ) × Route env upstream path status × Answers status (ready_response ok)
    connected e true c = (200, ready e c, response-Answers 200 text _ text_visible)
    connected e false c = (503, not_ready e c, response-Answers 503 text _ text_visible)

    encoded :
        path ≡ bytes "/metrics"
        → (o : Option (Bytes × Bytes)) → env.encode ≡ o
        → (status : ℕ) × Route env upstream path status × Answers status (metrics_response o)
    encoded e none c = (500, unmeasured e c, response-Answers 500 text _ text_visible)
    encoded e (some (kind, body)) c =
        (200, measured kind body e c, response-Answers 200 kind body (shown kind body c))
