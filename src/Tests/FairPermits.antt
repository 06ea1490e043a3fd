-- ===== src/Tests/FairPermits.antt =====
-- A fair semaphore that meets the interface `Semaphores`.
use kse_static_rewrite_proxy.Base.{ℕ, zero, suc, ◌+◌, ◌≡◌, refl, Option, none, some, arith}
use kse_static_rewrite_proxy.Proxy.{Semaphores}

-- A semaphore as three numbers: the free permits, the callers in the wait queue, and those that have
-- been assigned a permit.
pub record Fair : Type 0 where
  pub free : ℕ
  pub line : ℕ
  pub owed : ℕ

abbrev pub taken_of : Fair → ℕ → Option Fair
taken_of s zero = none
taken_of s (suc n) = some (record s { free = n })

abbrev pub collected_of : Fair → ℕ → Option Fair
collected_of s zero = none
collected_of s (suc n) = some (record s { owed = n })

abbrev pub released_of : Fair → ℕ → Fair
released_of s zero = record s { free = s.free + 1 }
released_of s (suc n) = record s { line = n; owed = s.owed + 1 }

pub taken :
    (s t : Fair) (n : ℕ)
    → s.free ≡ n
    → taken_of s n ≡ some t
    → (s.free ≡ t.free + 1) × (t.line ≡ s.line) × (t.owed ≡ s.owed)
taken s t zero h e = cc
taken s t (suc n) h e =
    let same : record s { free = n } ≡ t = cc in rw (← same) (omega arith, refl, refl)

pub none_free : (s : Fair) (n : ℕ) → s.free ≡ n → taken_of s n ≡ none → s.free ≡ 0
none_free s zero h e = h
none_free s (suc n) h e = cc

pub collected :
    (s t : Fair) (n : ℕ)
    → s.owed ≡ n
    → collected_of s n ≡ some t
    → (t.free ≡ s.free) × (t.line ≡ s.line) × (s.owed ≡ t.owed + 1)
collected s t zero h e = cc
collected s t (suc n) h e =
    let same : record s { owed = n } ≡ t = cc in rw (← same) (refl, refl, omega arith)

pub none_owed : (s : Fair) (n : ℕ) → s.owed ≡ n → collected_of s n ≡ none → s.owed ≡ 0
none_owed s zero h e = h
none_owed s (suc n) h e = cc

pub released :
    (s : Fair) (n : ℕ)
    → s.line ≡ n
    → n ≡ 0
    → ((released_of s n).free ≡ s.free + 1)
      × ((released_of s n).line ≡ 0)
      × ((released_of s n).owed ≡ s.owed)
released s zero h e = (refl, h, refl)
released s (suc n) h e = absurd (omega arith)

pub handed_over :
    (s : Fair) (n behind : ℕ)
    → n ≡ behind + 1
    → ((released_of s n).free ≡ s.free)
      × ((released_of s n).line ≡ behind)
      × ((released_of s n).owed ≡ s.owed + 1)
handed_over s zero behind e = absurd (omega arith)
handed_over s (suc n) behind e = (refl, omega arith, refl)

abbrev pub permits : Semaphores
permits = record {
  Semaphore = Fair;
  new = λ n. record { free = n; line = 0; owed = 0 };
  try_acquire = λ s. taken_of s s.free;
  enqueue = λ s. record s { line = s.line + 1 };
  collect = λ s. collected_of s s.owed;
  release = λ s. released_of s s.line;
  available = λ s. s.free;
  waiters = λ s. s.line;
  assigned = λ s. s.owed;
  created = λ n l. (refl, refl, refl);
  acquired = λ s t. taken s t s.free refl;
  exhausted = λ s. none_free s s.free refl;
  enqueued = λ s h. (h, refl, refl);
  collected = λ s t. collected s t s.owed refl;
  not_assigned = λ s. none_owed s s.owed refl;
  released = λ s. released s s.line refl;
  handed_over = λ s behind. handed_over s s.line behind;
}
