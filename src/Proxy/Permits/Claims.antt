-- ===== src/Proxy/Permits/Claims.antt =====
-- The permits over all the calls for one request, among others.
use kse_static_rewrite_proxy.Base.{ℕ, ◌+◌, ◌≤◌, false, List, ◌≡◌, refl, arith}
use kse_static_rewrite_proxy.Config.{EffectiveConfig}
use kse_static_rewrite_proxy.Proxy.{RequestContext, max_permits}
use kse_static_rewrite_proxy.Proxy.Session.{Libraries, Exchange}
use kse_static_rewrite_proxy.Proxy.Interleaving.{Phase, World, Step, is_active, is_waiting, count}
use kse_static_rewrite_proxy.Proxy.Interleaving.Balance.{Balances, Balances-same}
use kse_static_rewrite_proxy.Proxy.Interleaving.Invariant.{
  Step-Balances, start-IsBalanced, Reach-IsBalanced,
}
use kse_static_rewrite_proxy.Proxy.ResponseFilter.{logging}
use kse_static_rewrite_proxy.Proxy.Permits.{
  Stage, fresh, queued, open_, logged, Life, begins, others, filtered, enqueued, resumed, responded,
  bodied, ends,
}
use kse_static_rewrite_proxy.Proxy.Permits.Held.{held}
use kse_static_rewrite_proxy.Proxy.Permits.Filters.{
  body_filter-permit, request_filter-After, resumed_filter-IsOwing, response_filter-IsOwing,
  logging_back,
}

-- The place in the queue of a request.
abbrev pub held_place : Stage → ℕ
held_place queued = 1
held_place _ = 0

-- A permit is there between the first filter and the last only.
abbrev pub IsFree : Stage → RequestContext → Type 0
IsFree open_ ctx = Unit {0}
IsFree _ ctx = ctx.active_permit ≡ false

module _ (l : Libraries) (config : EffectiveConfig) where
  -- The permits and the gauges count the other requests and what this one has.
  pub record Holds (rs : List Phase) (stage : Stage) (x : Exchange l) : Type 0 where
    pub balanced :
        Balances l.sem config x.admission
          (count is_active rs + held x.ctx.active_permit)
          (count is_waiting rs + held_place stage)
    pub free : IsFree stage x.ctx

  -- A request without a permit: only its place counts.
  absent :
      (rs : List Phase) (stage : Stage) (x : Exchange l) (k : ℕ)
      → x.ctx.active_permit ≡ false
      → count is_waiting rs + held_place stage ≡ k
      → Balances l.sem config x.admission
          (count is_active rs + held x.ctx.active_permit)
          (count is_waiting rs + held_place stage)
      → Balances l.sem config x.admission (count is_active rs) k
  absent rs stage x k free e h = Balances-same l.sem config (rw free (omega arith)) e h

  present :
      (rs : List Phase) (stage : Stage) (x : Exchange l) (k : ℕ)
      → x.ctx.active_permit ≡ false
      → k ≡ count is_waiting rs + held_place stage
      → Balances l.sem config x.admission (count is_active rs) k
      → Balances l.sem config x.admission
          (count is_active rs + held x.ctx.active_permit)
          (count is_waiting rs + held_place stage)
  present rs stage x k free e h = Balances-same l.sem config (rw free (omega arith)) e h

  -- The other requests take a step.
  Holds-others :
      {rs : List Phase} {stage : Stage} {x : Exchange l} (v : World l.sem)
      → Holds rs stage x
      → Step l.sem (record { admission = x.admission; requests = rs }) v
      → Holds v.requests stage (record x { admission = v.admission })
  Holds-others {rs = rs} {stage = stage} {x = x} v h step =
      let w : World l.sem = record { admission = x.admission; requests = rs } in
      record {
        balanced = Balances-same l.sem config (omega arith) (omega arith) (
            Step-Balances l.sem config (held x.ctx.active_permit) (held_place stage) {w = w}
              (Balances-same l.sem config (omega arith) (omega arith) h.balanced) step);
        free = h.free;
      }

  -- For any semaphores that keep tokio's laws, and limits that they can hold, and a request that comes
  -- at any time, with any calls of the filters, successes and failures included, between which other
  -- requests take any steps: all permits and places are accounted for, and shown by the gauges, by the
  -- other requests, the place in the queue of this one while it waits, and the permit in its context
  -- afterwards. So nothing is left of it behind `logging`.
  pub Life-Holds :
      {rs : List Phase} {stage : Stage} {x : Exchange l}
      → config.max_concurrent ≤ max_permits
      → config.max_queued ≤ max_permits
      → Life l config rs stage x
      → Holds rs stage x
  Life-Holds l1 l2 (begins w x reach free same) =
      let h = Reach-IsBalanced l.sem config (start-IsBalanced l.sem config l1 l2) reach in
      record {
        balanced = rw (same, free) (Balances-same l.sem config (omega arith) (omega arith) h);
        free = free;
      }
  Life-Holds l1 l2 (others v life step) = Holds-others v (Life-Holds l1 l2 life) step
  Life-Holds l1 l2 (filtered {rs = rs} {x = x} result y life e) =
      let h = Life-Holds l1 l2 life in
      let after = rw e at (
        request_filter-After l config (count is_active rs) (count is_waiting rs) x h.free
          (absent rs fresh x (count is_waiting rs) h.free (omega arith) h.balanced)) in
      record { balanced = Balances-same l.sem config refl (omega arith) after; free = tt }
  Life-Holds l1 l2 (enqueued {rs = rs} {x = x} y life e) =
      let h = Life-Holds l1 l2 life in
      let (after, free) = rw e at (
        request_filter-After l config (count is_active rs) (count is_waiting rs) x h.free
          (absent rs fresh x (count is_waiting rs) h.free (omega arith) h.balanced)) in
      record {
        balanced = present rs queued y (count is_waiting rs + 1) free refl after;
        free = free;
      }
  Life-Holds l1 l2 (resumed {rs = rs} {x = x} result y life e) =
      let h = Life-Holds l1 l2 life in
      let after =
        resumed_filter-IsOwing l config (count is_active rs) (count is_waiting rs) x y result
          (absent rs queued x (count is_waiting rs + 1) h.free refl h.balanced) e in
      record { balanced = Balances-same l.sem config refl (omega arith) after; free = tt }
  Life-Holds l1 l2 (responded {rs = rs} {x = x} response life) =
      let h = Life-Holds l1 l2 life in
      record {
        balanced =
            response_filter-IsOwing l config (count is_active rs)
              (count is_waiting rs + held_place open_) x response h.balanced;
        free = tt;
      }
  Life-Holds l1 l2 (bodied {x = x} body end_of_stream life) =
      let h = Life-Holds l1 l2 life in
      record {
        balanced = rw (body_filter-permit l.memmem x.ctx body end_of_stream) h.balanced;
        free = tt;
      }
  Life-Holds l1 l2 (ends {rs = rs} {x = x} failed life) =
      let h = Life-Holds l1 l2 life in
      let (after, free) =
        logging_back l config (count is_active rs) (count is_waiting rs) failed x
          (Balances-same l.sem config refl (omega arith) h.balanced) in
      record {
        balanced =
            present rs logged (logging l config failed x) (count is_waiting rs) free (omega arith)
              after;
        free = free;
      }
