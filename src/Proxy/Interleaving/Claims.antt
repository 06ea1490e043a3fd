-- ===== src/Proxy/Interleaving/Claims.antt =====
-- What holds of the requests that share the admission.
use kse_static_rewrite_proxy.Base.{
  ℕ, zero, suc, ◌+◌, ◌*◌, ◌≤◌, ◌<◌, Bool, true, List, [], ◌∷◌, ◌≡◌, ◌↔◌, Option, none, some, refl,
  ◌∙◌, arith, length, Bool-cases, inl, inr, ltb,
}
use kse_static_rewrite_proxy.Config.{EffectiveConfig}
use kse_static_rewrite_proxy.Proxy.{
  Semaphores, Admission, admitted, refused, max_permits, try_admit, resume,
}
use kse_static_rewrite_proxy.Proxy.Interleaving.{
  Phase, waiting, active, done, is_active, is_waiting, count, Turns, now, later, World, start, Step,
  grant, leave, Reach, here, next,
}
use kse_static_rewrite_proxy.Proxy.Interleaving.Balance.{
  Balances, Balances-same, try_admit-some, try_admit-none, try_queue-some, try_queue-none, resumed,
}
use kse_static_rewrite_proxy.Proxy.Interleaving.Invariant.{
  IsBalanced, Turns-active, Turns-done, Step-IsBalanced, start-IsBalanced, Reach-IsBalanced,
}

-- A request that a test finds can turn, if the test finds one phase only.
some_turn :
    (test : Phase → Bool) (before after : Phase)
    → ((p : Phase) → test p ≡ true → before ≡ p)
    → (ps : List Phase) → 0 < count test ps
    → (qs : List Phase) × Turns before after ps qs
unfolding count
some_turn test before after only [] l = absurd (omega arith)
some_turn test before after only (p ∷ ps) l = elim (Bool-cases (test p)) [
  | inl found ↦ (after ∷ ps, rw (← only p found) (now ps))
  | inr missed ↦
      let (qs, t) = some_turn test before after only ps (rw (missed, count) at l) in
      (p ∷ qs, later p t)
]

Turns-length :
    {before after : Phase} {ps qs : List Phase} → Turns before after ps qs → length qs ≡ length ps
Turns-length (now ps) = ground arith
Turns-length (later p t) = ground (arith, Turns-length t)

only_active : (p : Phase) → is_active p ≡ true → active ≡ p
only_active waiting e = cc
only_active active e = refl
only_active done e = cc

only_waiting : (p : Phase) → is_waiting p ≡ true → waiting ≡ p
only_waiting waiting e = refl
only_waiting active e = cc
only_waiting done e = cc

module _ (sem : Semaphores) where
  Reach-trans : {w v u : World sem} → Reach sem w v → Reach sem v u → Reach sem w u
  Reach-trans r here = r
  Reach-trans r (next q s) = next (Reach-trans r q) s

  resume-ne-none :
      (a : Admission sem)
      → 0 < sem.assigned a.active
      → (b : Admission sem) × (resume sem a ≡ some b)
  unfolding resume
  resume-ne-none a l = go (sem.collect a.active) refl
    where
      go :
          (o : Option sem.Semaphore)
          → sem.collect a.active ≡ o
          → (b : Admission sem) × (resume sem a ≡ some b)
      go none e = let none_left = sem.not_assigned a.active e in absurd (omega arith)
      go (some t) e = (resumed sem a t, rw (e, resume) refl)

  -- Nobody is active or waiting, and nobody has come.
  pub record Drained (w v : World sem) : Type 0 where
    pub reach : Reach sem w v
    pub same_requests : length v.requests ≡ length w.requests
    pub none_active : count is_active v.requests ≡ 0
    pub none_waiting : count is_waiting v.requests ≡ 0

  Step-Drained :
      {w u v : World sem}
      → Step sem w u
      → length u.requests ≡ length w.requests
      → Drained u v
      → Drained w v
  Step-Drained s same d = record {
    reach = Reach-trans (next here s) d.reach;
    same_requests = d.same_requests ∙ same;
    none_active = d.none_active;
    none_waiting = d.none_waiting;
  }

module _ (sem : Semaphores) (config : EffectiveConfig) where
  -- Where requests wait and none is active, one of them has been assigned a permit.
  assigned_pos :
      (a : Admission sem) (k : ℕ)
      → 0 < config.max_concurrent
      → 0 < k
      → Balances sem config a 0 k
      → 0 < sem.assigned a.active
  assigned_pos a k positive waits h =
      let permits = h.active_permits in
      let line = h.in_line in
      elim h.no_overtaking [ inl nobody ↦ omega arith | inr full ↦ omega arith ]

  waits_drain :
      (n : ℕ) (w : World sem)
      → 0 < config.max_concurrent
      → IsBalanced sem config w
      → 2 * count is_waiting w.requests + count is_active w.requests ≤ n
      → (v : World sem) × Drained sem w v
  waits_drain zero w l h few = (
    w,
    record {
      reach = here;
      same_requests = refl;
      none_active = omega arith;
      none_waiting = omega arith;
    },
  )
  waits_drain (suc n) w l h few = elim (Bool-cases (ltb 0 (count is_active w.requests))) [
    | inl busy ↦
        let (qs, t) = some_turn is_active active done only_active w.requests (ground arith) in
        let step : Step sem w _ = leave qs t in
        let (fewer, same) = Turns-done t in
        let (v, d) = waits_drain n _ l (Step-IsBalanced sem config h step) (omega arith) in
        (v, Step-Drained sem step (Turns-length t) d)
    | inr idle ↦ elim (Bool-cases (ltb 0 (count is_waiting w.requests))) [
      | inl waits ↦
          let (qs, t) =
            some_turn is_waiting waiting active only_waiting w.requests (ground arith) in
          let idle_now : count is_active w.requests ≡ 0 = ground arith in
          let owed =
            assigned_pos w.admission (count is_waiting w.requests) l (ground arith)
              (Balances-same sem config idle_now refl h) in
          let (a, e) = resume-ne-none sem w.admission owed in
          let step : Step sem w _ = grant a qs t e in
          let (more, fewer) = Turns-active t in
          let (v, d) = waits_drain n _ l (Step-IsBalanced sem config h step) (omega arith) in
          (v, Step-Drained sem step (Turns-length t) d)
      | inr nobody ↦ (
        w,
        record {
          reach = here;
          same_requests = refl;
          none_active = ground arith;
          none_waiting = ground arith;
        },
      )
    ]
  ]

  -- For any semaphores that keep tokio's laws, and limits that they can hold, the first positive:
  -- from wherever the requests have got, there are steps after which none of them is active and none
  -- waits, without a new request, and then all permits are back.
  pub reachable-Drained :
      (w : World sem)
      → config.max_concurrent ≤ max_permits
      → config.max_queued ≤ max_permits
      → 0 < config.max_concurrent
      → Reach sem (start sem config) w
      → (v : World sem) × Drained sem w v
        × (sem.available v.admission.active ≡ config.max_concurrent)
        × (sem.available v.admission.queued ≡ config.max_queued)
  reachable-Drained w l k positive r =
      let h = Reach-IsBalanced sem config (start-IsBalanced sem config l k) r in
      let n = 2 * count is_waiting w.requests + count is_active w.requests in
      let (v, d) = waits_drain n w positive h (omega arith) in
      let back = Reach-IsBalanced sem config h d.reach in
      let actives = back.active_permits in
      let places = back.queue_permits in
      let line = back.in_line in
      let none_active = d.none_active in
      let none_waiting = d.none_waiting in (v, d, omega arith, omega arith)

  -- For any semaphores that keep tokio's laws, and limits that they can hold: after any steps of any
  -- requests, in any order, the free permits, those assigned to requests that still wait and the active
  -- requests make up `max_concurrent`, and no permit is free while a request is in the wait queue; the
  -- free places and the waiting requests make up `max_queued`; and each gauge shows the number of its
  -- requests. So no more requests are active, and no more wait, than the limits say.
  pub reachable-IsBalanced :
      (w : World sem)
      → config.max_concurrent ≤ max_permits
      → config.max_queued ≤ max_permits
      → Reach sem (start sem config) w
      → IsBalanced sem config w
        × (count is_active w.requests ≤ config.max_concurrent)
        × (count is_waiting w.requests ≤ config.max_queued)
  reachable-IsBalanced w l k r =
      let h = Reach-IsBalanced sem config (start-IsBalanced sem config l k) r in
      (h, omega (arith, h.active_permits), omega (arith, h.queue_permits))

  -- The permits that are not to be had: held, or assigned to a request that still waits.
  abbrev pub in_use : World sem → ℕ
  in_use w = count is_active w.requests + sem.assigned w.admission.active

  answers :
      (w : World sem)
      → IsBalanced sem config w
      → (o : Option sem.Semaphore) → sem.try_acquire w.admission.active ≡ o
      → (q : Option sem.Semaphore) → sem.try_acquire w.admission.queued ≡ q
      → (((try_admit sem w.admission).0 ≡ admitted) ↔ (in_use w < config.max_concurrent))
        × (((try_admit sem w.admission).0 ≡ refused) ↔ (
            (in_use w ≡ config.max_concurrent) × (count is_waiting w.requests ≡ config.max_queued)))
  answers w h (some t) e q f =
      let (left, line, owed) = sem.acquired _ t e in
      let actives = h.active_permits in
      rw (try_admit-some sem w.admission t e)
        ((λ _. omega arith, λ _. refl), (λ x. cc, λ x. absurd (omega arith)))
  answers w h none e none f =
      let left = sem.exhausted _ e in
      let place = sem.exhausted _ f in
      let actives = h.active_permits in
      let places = h.queue_permits in
      rw (try_admit-none sem w.admission e, try_queue-none sem w.admission f)
        ((λ x. cc, λ x. absurd (omega arith)), (λ _. (omega arith, omega arith), λ _. refl))
  answers w h none e (some t) f =
      let left = sem.exhausted _ e in
      let (place, line, owed) = sem.acquired _ t f in
      let actives = h.active_permits in
      let places = h.queue_permits in
      rw (try_admit-none sem w.admission e, try_queue-some sem w.admission t f)
        ((λ x. cc, λ x. absurd (omega arith)), (λ x. cc, λ x. absurd (omega arith)))

  -- For any semaphores that keep tokio's laws, and limits that they can hold: a request that comes at
  -- any time is admitted at once exactly if the active requests and the waiting ones that have been
  -- assigned a permit are fewer than `max_concurrent`; it is refused exactly if they are as many, and
  -- as many wait as `max_queued` says; and otherwise it waits.
  pub answer_iff :
      (w : World sem)
      → config.max_concurrent ≤ max_permits
      → config.max_queued ≤ max_permits
      → Reach sem (start sem config) w
      → (((try_admit sem w.admission).0 ≡ admitted) ↔ (in_use w < config.max_concurrent))
        × (((try_admit sem w.admission).0 ≡ refused) ↔ (
            (in_use w ≡ config.max_concurrent) × (count is_waiting w.requests ≡ config.max_queued)))
  answer_iff w l k r =
      let h = Reach-IsBalanced sem config (start-IsBalanced sem config l k) r in
      answers w h (sem.try_acquire w.admission.active) refl (sem.try_acquire w.admission.queued)
        refl
