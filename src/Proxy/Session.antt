-- ===== src/Proxy/Session.antt =====
-- src/proxy.rs: what a filter works on. `Session`, `RequestHeader`, `ResponseHeader` and `Error` are
-- pingora's; the model has of them what the source uses.
use kse_static_rewrite_proxy.Base.{ℕ, zero, suc, [], ◌∷◌, List, Option, none, some, length}
use kse_static_rewrite_proxy.Slice.{Bytes}
use kse_static_rewrite_proxy.Memmem.{Memmem}
use kse_static_rewrite_proxy.MigMeta.{Codec}
use kse_static_rewrite_proxy.Config.Listeners.{digits}
use kse_static_rewrite_proxy.Http.{Http, HeaderName, content_type, content_length}
use kse_static_rewrite_proxy.Proxy.{Semaphores, Admission, RequestContext}
use kse_static_rewrite_proxy.Proxy.ApiUri.{Uris}
use kse_static_rewrite_proxy.Proxy.Etag.{Digest}

-- The code that the proxy calls and does not hold.
pub record Libraries : Type 1 where
  pub sem : Semaphores
  pub http : Http
  pub uris : Uris
  pub memmem : Memmem
  pub codec : Codec
  pub digest : Digest

-- `http_status` and `internal_error` are made in the source, a header or a write is refused by
-- pingora.
pub data Error : Type 0 where
  http_status : ℕ → Error
  internal_error invalid_header write_error : Error

pub data Result {ℓ} (A : Type ℓ) : Type ℓ where
  ok : A → Result A
  err : Error → Result A
  panic : Result A

-- `?` on an option whose absence is an error, before `next`, in a filter that leaves `state` behind.
abbrev pub or_fail {ℓ κ ν} :
    {A : Type ℓ} {B : Type κ} {S : Type ν}
    → Option A
    → Error
    → S
    → (A → Result B × S)
    → Result B × S
or_fail none e state next = (err e, state)
or_fail (some a) e state next = next a

-- A counter with labels: what it was increased by, the latest first.
abbrev pub Counter : Type 0 → Type 0
Counter Label = List (Label × ℕ)

-- `Metrics` but for the gauges, which stand with the admission, and the durations, of which the model
-- has the label only.
pub record Metrics : Type 0 where
  pub requests : Counter (Bytes × Bytes)
  pub duration : List Bytes
  pub rewrite_input_bytes : Counter Bytes
  pub rewrite_output_bytes : Counter Bytes

module _ (l : Libraries) where
  pub record RequestHeader : Type 0 where
    pub method : Bytes
    pub uri : l.uris.Uri
    pub headers : l.http.HeaderMap

  pub record ResponseHeader : Type 0 where
    pub status : ℕ
    pub headers : l.http.HeaderMap

  -- The level of the compression module, if it is there, what the proxy has written itself, and how
  -- many writes the connection still takes.
  pub record Session : Type 0 where
    pub request : RequestHeader
    pub compression : Option ℕ
    pub written_header : Option ResponseHeader
    pub written_body : Option Bytes
    pub writes_left : ℕ

  -- What one request works on; `admission` and `metrics` are shared by all requests.
  pub record Exchange : Type 0 where
    pub session : Session
    pub ctx : RequestContext
    pub admission : Admission l.sem
    pub metrics : Metrics

  -- `init_downstream_modules`: the module of the proxy is there, at its level.
  unfoldable pub init_downstream_modules : Session → Session
  init_downstream_modules session = record session { compression = some 6 }

  unfoldable pub disable_compression : Session → Session
  disable_compression session = elim session.compression [
    | none ↦ session
    | some level ↦ record session { compression = some 0 }
  ]

  unfoldable pub write_response_header : Session → ResponseHeader → Result (Unit {0}) × Session
  write_response_header session response = elim session.writes_left [
    | zero ↦ (err write_error, session)
    | suc left ↦ (ok tt, record session { written_header = some response; writes_left = left })
  ]

  unfoldable pub write_response_body : Session → Bytes → Result (Unit {0}) × Session
  write_response_body session body = elim session.writes_left [
    | zero ↦ (err write_error, session)
    | suc left ↦ (ok tt, record session { written_body = some body; writes_left = left })
  ]

  -- The header is written; the body is written behind it if there is one.
  abbrev pub then_body : Result (Unit {0}) × Session → Bytes → Result (Unit {0}) × Session
  then_body (ok written, session) [] = (ok tt, session)
  then_body (ok written, session) (b ∷ bs) = write_response_body session (b ∷ bs)
  then_body (err e, session) body = (err e, session)
  then_body (panic, session) body = (panic, session)

  -- A header that is there or not.
  abbrev pub with_extra : Option (HeaderName × Bytes) → l.http.HeaderMap → Option l.http.HeaderMap
  with_extra none headers = some headers
  with_extra (some (name, value)) headers = l.http.insert_header name value headers

  -- A `usize` in decimal has 20 digits at most.
  unfoldable pub write_response :
      Session → ℕ → Bytes → Bytes → Option (HeaderName × Bytes) → Result (Unit {0}) × Session
  unfolding write_response_header write_response_body
  write_response session status kind body extra_header =
      or_fail (l.http.insert_header content_type kind l.http.empty) invalid_header session λ typed.
        or_fail (l.http.insert_header content_length (digits 20 (length body)) typed) invalid_header
          session
          λ sized. or_fail (with_extra extra_header sized) invalid_header session λ headers.
            then_body
              (write_response_header session (record { status = status; headers = headers })) body
