-- ===== src/Proxy/Interleaving.antt =====
-- src/proxy.rs: the requests that run `admit_rewrite` and give their permits back, as interleaved
-- steps. A request that waits is not dropped. Which of the waiting requests an assigned permit belongs
-- to is left open.
pub mod Balance
pub mod Invariant
pub mod Claims
use kse_static_rewrite_proxy.Base.{ℕ, ◌+◌, Bool, true, false, List, [], ◌∷◌, ◌≡◌, some}
use kse_static_rewrite_proxy.Config.{EffectiveConfig}
use kse_static_rewrite_proxy.Proxy.{
  Semaphores, Admission, Answer, admitted, refused, must_wait, new_admission, try_admit, resume,
  release_active,
}

-- A request waits with a permit of the queue, is active with a permit, or is done with both.
pub data Phase : Type 0 where
  waiting active done : Phase

abbrev pub phase_of : Answer → Phase
phase_of admitted = active
phase_of must_wait = waiting
phase_of refused = done

abbrev pub is_active : Phase → Bool
is_active active = true
is_active _ = false

abbrev pub is_waiting : Phase → Bool
is_waiting waiting = true
is_waiting _ = false

unfoldable pub count : (Phase → Bool) → List Phase → ℕ
count test [] = 0
count test (p ∷ ps) = elim (test p) [ true ↦ count test ps + 1 | false ↦ count test ps ]

-- One request goes from one phase to another.
pub data Turns (before after : Phase) : List Phase → List Phase → Type 0 where
  now : (ps : List Phase) → Turns before after (before ∷ ps) (after ∷ ps)
  later :
      (p : Phase) {ps qs : List Phase}
      → Turns before after ps qs
      → Turns before after (p ∷ ps) (p ∷ qs)

pub record World (sem : Semaphores) : Type 0 where
  pub admission : Admission sem
  pub requests : List Phase

module _ (sem : Semaphores) where
  abbrev pub start : EffectiveConfig → World sem
  start config = record { admission = new_admission sem config; requests = [] }

  abbrev pub arrived : World sem → World sem
  arrived w =
      let (answer, admission) = try_admit sem w.admission in
      record { admission = admission; requests = phase_of answer ∷ w.requests }

  pub data Step (w : World sem) : World sem → Type 0 where
    arrive : Step w (arrived w)
    grant :
        (admission : Admission sem) (requests : List Phase)
        → Turns waiting active w.requests requests
        → resume sem w.admission ≡ some admission
        → Step w (record { admission = admission; requests = requests })
    leave :
        (requests : List Phase)
        → Turns active done w.requests requests
        → Step w (record { admission = release_active sem w.admission; requests = requests })

  pub data Reach (w : World sem) : World sem → Type 0 where
    here : Reach w w
    next : {v u : World sem} → Reach w v → Step v u → Reach w u
