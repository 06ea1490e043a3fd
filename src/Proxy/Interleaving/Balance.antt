-- ===== src/Proxy/Interleaving/Balance.antt =====
-- What the operations on the admission do to the permits and the gauges.
use kse_static_rewrite_proxy.Base.{
  ℕ, zero, suc, ◌⊎◌, inl, inr, ◌∙◌, ◌+◌, ◌≡◌, Option, none, some, refl, arith,
}
use kse_static_rewrite_proxy.Config.{EffectiveConfig}
use kse_static_rewrite_proxy.Proxy.{
  Semaphores, Admission, inc, dec, Answer, admitted, refused, must_wait, try_queue, try_admit,
  resume, release_active,
}

-- The limits, the numbers of active and waiting requests, and what the admission has of them. A
-- permit is free, assigned to a request that still waits, or held by an active request; no permit is
-- free while a request is in the wait queue. Nobody waits for a place in the queue.
pub record Balances (sem : Semaphores) (config : EffectiveConfig) (a : Admission sem)
    (actives waits : ℕ) : Type 0 where
  pub active_permits :
      sem.available a.active + sem.assigned a.active + actives ≡ config.max_concurrent
  pub queue_permits : sem.available a.queued + waits ≡ config.max_queued
  pub in_line : sem.waiters a.active + sem.assigned a.active ≡ waits
  pub no_overtaking : (sem.waiters a.active ≡ 0) ⊎ (sem.available a.active ≡ 0)
  pub none_in_line : sem.waiters a.queued ≡ 0
  pub active_shown : a.active_gauge.increments ≡ a.active_gauge.decrements + actives
  pub queued_shown : a.queued_gauge.increments ≡ a.queued_gauge.decrements + waits

module _ (sem : Semaphores) where
  pub try_admit-some :
      (a : Admission sem) (t : sem.Semaphore)
      → sem.try_acquire a.active ≡ some t
      → try_admit sem a ≡ (admitted, record a { active = t; active_gauge = inc a.active_gauge })
  unfolding try_admit
  try_admit-some a t e = rw (e, try_admit) refl

  pub try_admit-none :
      (a : Admission sem) → sem.try_acquire a.active ≡ none → try_admit sem a ≡ try_queue sem a
  unfolding try_admit
  try_admit-none a e = rw (e, try_admit) refl

  pub try_queue-some :
      (a : Admission sem) (t : sem.Semaphore)
      → sem.try_acquire a.queued ≡ some t
      → try_queue sem a ≡ (
        must_wait,
        record a { active = sem.enqueue a.active; queued = t; queued_gauge = inc a.queued_gauge },
      )
  unfolding try_queue
  try_queue-some a t e = rw (e, try_queue) refl

  pub try_queue-none :
      (a : Admission sem) → sem.try_acquire a.queued ≡ none → try_queue sem a ≡ (refused, a)
  unfolding try_queue
  try_queue-none a e = rw (e, try_queue) refl

  -- What `resume` leaves, given the permit.
  abbrev pub resumed : Admission sem → sem.Semaphore → Admission sem
  resumed a t = record {
    active = t;
    queued = sem.release a.queued;
    active_gauge = inc a.active_gauge;
    queued_gauge = dec a.queued_gauge;
  }

  pub resume-eq :
      (a b : Admission sem)
      → resume sem a ≡ some b
      → (t : sem.Semaphore) × (sem.collect a.active ≡ some t) × (resumed a t ≡ b)
  unfolding resume
  resume-eq a b e = go (sem.collect a.active) refl
    where
      go :
          (o : Option sem.Semaphore)
          → sem.collect a.active ≡ o
          → (t : sem.Semaphore) × (sem.collect a.active ≡ some t) × (resumed a t ≡ b)
      go none f = let left = rw (f, resume) at e in cc
      go (some t) f = let left = rw (f, resume) at e in (t, f, ground arith)

module _ (sem : Semaphores) (config : EffectiveConfig) where
  pub Balances-same :
      {a : Admission sem} {m k m' k' : ℕ}
      → m ≡ m'
      → k ≡ k'
      → Balances sem config a m k
      → Balances sem config a m' k'
  Balances-same {a = a} e f h = rw (← e, ← f) h

  -- The answer with the admission behind it.
  abbrev pub AnswerBalances : ℕ → ℕ → Answer × Admission sem → Type 0
  AnswerBalances m k (admitted, a) = Balances sem config a (m + 1) k
  AnswerBalances m k (refused, a) = Balances sem config a m k
  AnswerBalances m k (must_wait, a) = Balances sem config a m (k + 1)

  try_queue-Balances :
      (a : Admission sem) (m k : ℕ)
      → sem.available a.active ≡ 0
      → Balances sem config a m k
      → AnswerBalances m k (try_queue sem a)
  try_queue-Balances a m k full h = go (sem.try_acquire a.queued) refl
    where
      go :
          (o : Option sem.Semaphore)
          → sem.try_acquire a.queued ≡ o
          → AnswerBalances m k (try_queue sem a)
      go none e = rw (try_queue-none sem a e) h
      go (some t) e =
          let (fewer, line, owed) = sem.acquired a.queued t e in
          let (none_free, longer, same) = sem.enqueued a.active full in
          rw (try_queue-some sem a t e) (record {
            active_permits = omega (arith, h.active_permits);
            queue_permits = omega (arith, h.queue_permits);
            in_line = omega (arith, h.in_line);
            no_overtaking = inr none_free;
            none_in_line = line ∙ h.none_in_line;
            active_shown = h.active_shown;
            queued_shown = omega (arith, h.queued_shown);
          })

  pub try_admit-Balances :
      (a : Admission sem) (m k : ℕ)
      → Balances sem config a m k
      → AnswerBalances m k (try_admit sem a)
  try_admit-Balances a m k h = go (sem.try_acquire a.active) refl
    where
      go :
          (o : Option sem.Semaphore)
          → sem.try_acquire a.active ≡ o
          → AnswerBalances m k (try_admit sem a)
      go none e =
          rw (try_admit-none sem a e) (try_queue-Balances a m k (sem.exhausted a.active e) h)
      go (some t) e =
          let (fewer, line, owed) = sem.acquired a.active t e in
          rw (try_admit-some sem a t e) (record {
            active_permits = omega (arith, h.active_permits);
            queue_permits = h.queue_permits;
            in_line = omega (arith, h.in_line);
            no_overtaking = elim h.no_overtaking [
              | inl nobody ↦ inl (line ∙ nobody)
              | inr full ↦ absurd (omega arith)
            ];
            none_in_line = h.none_in_line;
            active_shown = omega (arith, h.active_shown);
            queued_shown = h.queued_shown;
          })

  pub resume-Balances :
      (a b : Admission sem) (m k : ℕ)
      → Balances sem config a m (k + 1)
      → resume sem a ≡ some b
      → Balances sem config b (m + 1) k
  resume-Balances a b m k h e =
      let (t, f, same) = resume-eq sem a b e in
      let (free, line, owed) = sem.collected a.active t f in
      let (more, nobody, kept) = sem.released a.queued h.none_in_line in
      rw (← same) (record {
        active_permits = omega (arith, h.active_permits);
        queue_permits = omega (arith, h.queue_permits);
        in_line = omega (arith, h.in_line);
        no_overtaking = rw (free, line) h.no_overtaking;
        none_in_line = nobody;
        active_shown = omega (arith, h.active_shown);
        queued_shown = omega (arith, h.queued_shown);
      })

  -- The permit goes to a request that waits, or is free if none does.
  pub release-Balances :
      (a : Admission sem) (m k : ℕ)
      → Balances sem config a (m + 1) k
      → Balances sem config (release_active sem a) m k
  unfolding release_active
  release-Balances a m k h = go (sem.waiters a.active) refl
    where
      go : (n : ℕ) → sem.waiters a.active ≡ n → Balances sem config (release_active sem a) m k
      go zero e =
          let (more, nobody, same) = sem.released a.active e in
          record {
            active_permits = omega (arith, h.active_permits);
            queue_permits = h.queue_permits;
            in_line = omega (arith, h.in_line);
            no_overtaking = inl nobody;
            none_in_line = h.none_in_line;
            active_shown = omega (arith, h.active_shown);
            queued_shown = h.queued_shown;
          }
      go (suc n) e =
          let (free, fewer, owed) = sem.handed_over a.active n (omega arith) in
          record {
            active_permits = omega (arith, h.active_permits);
            queue_permits = h.queue_permits;
            in_line = omega (arith, h.in_line);
            no_overtaking = elim h.no_overtaking [
              | inl nobody ↦ absurd (omega arith)
              | inr full ↦ inr (free ∙ full)
            ];
            none_in_line = h.none_in_line;
            active_shown = omega (arith, h.active_shown);
            queued_shown = h.queued_shown;
          }
