-- ===== src/Proxy.antt =====
-- src/proxy.rs: `RequestContext`, what the requests share, and the operations on both. The
-- semaphores of the crate tokio are an interface.
pub mod Body
pub mod Interleaving
pub mod Permits
pub mod Request
pub mod ResponseFilter
pub mod Served
pub mod Session
pub mod RequestId
pub mod ApiUri
pub mod Media
pub mod Etag
pub mod Vary
use kse_static_rewrite_proxy.Base.{
  [], ℕ, ◌+◌, ◌-◌, ◌^◌, ◌≤◌, Bool, true, false, ◌≡◌, Option, none, some,
}
use kse_static_rewrite_proxy.Slice.{Bytes, bytes}
use kse_static_rewrite_proxy.Policy.{RewriteDecision, bypass}
use kse_static_rewrite_proxy.Pipeline.{Pipeline}
use kse_static_rewrite_proxy.Config.{EffectiveConfig}

-- `Semaphore::MAX_PERMITS` is `usize::MAX >> 3`.
abbrev pub max_permits : ℕ
max_permits = 2 ^ 61 - 1

-- `tokio::sync::Semaphore`, which is fair. `try_acquire` takes a free permit. An `acquire` that finds
-- none free is put in the wait queue by its first poll, `enqueue`; a permit that is released is
-- assigned to the caller that has waited longest, and is free only if none waits. `collect` is the
-- next poll of a caller that was assigned a permit, and takes it; there is none if no caller was.
-- `waiters` counts those in the queue, `assigned` those that have been assigned a permit and not been
-- polled since. Which caller is which is left to the users of the interface.
pub record Semaphores : Type 1 where
  pub Semaphore : Type 0
  pub new : ℕ → Semaphore
  pub try_acquire : Semaphore → Option Semaphore
  pub enqueue : Semaphore → Semaphore
  pub collect : Semaphore → Option Semaphore
  pub release : Semaphore → Semaphore
  pub available : Semaphore → ℕ
  pub waiters : Semaphore → ℕ
  pub assigned : Semaphore → ℕ
  pub created :
      (permits : ℕ)
      → permits ≤ max_permits
      → (available (new permits) ≡ permits)
        × (waiters (new permits) ≡ 0)
        × (assigned (new permits) ≡ 0)
  pub acquired :
      (s t : Semaphore)
      → try_acquire s ≡ some t
      → (available s ≡ available t + 1) × (waiters t ≡ waiters s) × (assigned t ≡ assigned s)
  pub exhausted : (s : Semaphore) → try_acquire s ≡ none → available s ≡ 0
  pub enqueued :
      (s : Semaphore)
      → available s ≡ 0
      → (available (enqueue s) ≡ 0)
        × (waiters (enqueue s) ≡ waiters s + 1)
        × (assigned (enqueue s) ≡ assigned s)
  pub collected :
      (s t : Semaphore)
      → collect s ≡ some t
      → (available t ≡ available s) × (waiters t ≡ waiters s) × (assigned s ≡ assigned t + 1)
  pub not_assigned : (s : Semaphore) → collect s ≡ none → assigned s ≡ 0
  pub released :
      (s : Semaphore)
      → waiters s ≡ 0
      → (available (release s) ≡ available s + 1)
        × (waiters (release s) ≡ 0)
        × (assigned (release s) ≡ assigned s)
  pub handed_over :
      (s : Semaphore) (behind : ℕ)
      → waiters s ≡ behind + 1
      → (available (release s) ≡ available s)
        × (waiters (release s) ≡ behind)
        × (assigned (release s) ≡ assigned s + 1)

-- A gauge, as the numbers of its increments and decrements. It shows their difference.
pub record IntGauge : Type 0 where
  pub increments : ℕ
  pub decrements : ℕ

abbrev pub zero_gauge : IntGauge
zero_gauge = record { increments = 0; decrements = 0 }

abbrev pub inc : IntGauge → IntGauge
inc gauge = record gauge { increments = gauge.increments + 1 }

abbrev pub dec : IntGauge → IntGauge
dec gauge = record gauge { decrements = gauge.decrements + 1 }

-- The permit is there or not; the clock is left out.
pub record RequestContext : Type 0 where
  pub request_id : Bytes
  pub method : Bytes
  pub path : Bytes
  pub extension : Option Bytes
  pub decision : RewriteDecision
  pub rewriter : Option Pipeline
  pub active_permit : Bool
  pub client_if_none_match : Option Bytes
  pub suppress_body : Bool
  pub input_bytes : ℕ
  pub output_bytes : ℕ
  pub outcome : Bytes

-- `new_ctx`, for a request with this number.
abbrev pub new_ctx : Bytes → RequestContext
new_ctx request_id = record {
  request_id = request_id;
  method = [];
  path = [];
  extension = none;
  decision = bypass;
  rewriter = none;
  active_permit = false;
  client_if_none_match = none;
  suppress_body = false;
  input_bytes = 0;
  output_bytes = 0;
  outcome = bytes "bypass";
}

-- `Admission`, with the two gauges that follow it.
pub record Admission (sem : Semaphores) : Type 0 where
  pub active : sem.Semaphore
  pub queued : sem.Semaphore
  pub active_gauge : IntGauge
  pub queued_gauge : IntGauge

-- The answer of `admit_rewrite` up to its `await`.
pub data Answer : Type 0 where
  admitted refused must_wait : Answer

module _ (sem : Semaphores) where
  -- `KseRewriteProxy::new`.
  unfoldable pub new_admission : EffectiveConfig → Admission sem
  new_admission config = record {
    active = sem.new config.max_concurrent;
    queued = sem.new config.max_queued;
    active_gauge = zero_gauge;
    queued_gauge = zero_gauge;
  }

  -- A place in the queue, where no permit is free, and the first poll of `acquire_owned`.
  unfoldable pub try_queue : Admission sem → Answer × Admission sem
  try_queue a = elim (sem.try_acquire a.queued) [
    | none ↦ (refused, a)
    | some queued ↦ (
      must_wait,
      record a {
        active = sem.enqueue a.active;
        queued = queued;
        queued_gauge = inc a.queued_gauge;
      },
    )
  ]

  -- `admit_rewrite` up to its `await`.
  unfoldable pub try_admit : Admission sem → Answer × Admission sem
  try_admit a = elim (sem.try_acquire a.active) [
    | some active ↦ (admitted, record a { active = active; active_gauge = inc a.active_gauge })
    | none ↦ try_queue a
  ]

  -- `admit_rewrite` behind its `await`, for the request that a permit has been assigned to; `none` if
  -- none has been assigned.
  unfoldable pub resume : Admission sem → Option (Admission sem)
  resume a = elim (sem.collect a.active) [
    | none ↦ none
    | some active ↦ some (record {
      active = active;
      queued = sem.release a.queued;
      active_gauge = inc a.active_gauge;
      queued_gauge = dec a.queued_gauge;
    })
  ]

  -- The permit is dropped, in `stop_rewrite` and in `logging`.
  unfoldable pub release_active : Admission sem → Admission sem
  release_active a = record a { active = sem.release a.active; active_gauge = dec a.active_gauge }

  -- `ctx.active_permit.take()` with what follows it.
  unfoldable pub take_permit : Admission sem → RequestContext → Admission sem × RequestContext
  take_permit a ctx = elim ctx.active_permit [
    | true ↦ (release_active a, record ctx { active_permit = false })
    | false ↦ (a, ctx)
  ]
