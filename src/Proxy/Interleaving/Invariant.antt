-- ===== src/Proxy/Interleaving/Invariant.antt =====
-- The permits, the gauges and the requests over any steps.
use kse_static_rewrite_proxy.Base.{ℕ, inl, ◌+◌, ◌≤◌, List, ◌∷◌, ◌≡◌, refl, arith}
use kse_static_rewrite_proxy.Config.{EffectiveConfig}
use kse_static_rewrite_proxy.Proxy.{
  Semaphores, Admission, Answer, admitted, refused, must_wait, max_permits, new_admission,
  try_admit,
}
use kse_static_rewrite_proxy.Proxy.Interleaving.{
  Phase, waiting, active, done, phase_of, is_active, is_waiting, count, Turns, now, later, World,
  start, Step, arrive, grant, leave, Reach, here, next,
}
use kse_static_rewrite_proxy.Proxy.Interleaving.Balance.{
  Balances, Balances-same, AnswerBalances, try_admit-Balances, resume-Balances, release-Balances,
}

abbrev pub IsBalanced : (sem : Semaphores) → EffectiveConfig → World sem → Type 0
IsBalanced sem config w =
    Balances sem config w.admission (count is_active w.requests) (count is_waiting w.requests)

pub Turns-active :
    {ps qs : List Phase}
    → Turns waiting active ps qs
    → (count is_active qs ≡ count is_active ps + 1)
      × (count is_waiting ps ≡ count is_waiting qs + 1)
unfolding count
Turns-active (now ps) = (refl, refl)
Turns-active (later waiting t) = let h = Turns-active t in (ground arith, ground arith)
Turns-active (later active t) = let h = Turns-active t in (ground arith, ground arith)
Turns-active (later done t) = Turns-active t

pub Turns-done :
    {ps qs : List Phase}
    → Turns active done ps qs
    → (count is_active ps ≡ count is_active qs + 1) × (count is_waiting qs ≡ count is_waiting ps)
unfolding count
Turns-done (now ps) = (refl, refl)
Turns-done (later waiting t) = let h = Turns-done t in (ground arith, ground arith)
Turns-done (later active t) = let h = Turns-done t in (ground arith, ground arith)
Turns-done (later done t) = Turns-done t

module _ (sem : Semaphores) (config : EffectiveConfig) where
  arrived-Balances :
      (m k : ℕ) (ps : List Phase) (r : Answer × Admission sem)
      → AnswerBalances sem config (m + count is_active ps) (k + count is_waiting ps) r
      → Balances sem config r.1
          (m + count is_active (phase_of r.0 ∷ ps))
          (k + count is_waiting (phase_of r.0 ∷ ps))
  unfolding count
  arrived-Balances m k ps (admitted, a) h = Balances-same sem config (omega arith) refl h
  arrived-Balances m k ps (refused, a) h = h
  arrived-Balances m k ps (must_wait, a) h = Balances-same sem config refl (omega arith) h

  -- The requests of the world beside so many other active and waiting ones.
  pub Step-Balances :
      (m k : ℕ) {w v : World sem}
      → Balances sem config w.admission
          (m + count is_active w.requests)
          (k + count is_waiting w.requests)
      → Step sem w v
      → Balances sem config v.admission
          (m + count is_active v.requests)
          (k + count is_waiting v.requests)
  Step-Balances m k {w = w} h arrive =
      arrived-Balances m k w.requests (try_admit sem w.admission)
        (try_admit-Balances sem config w.admission _ _ h)
  Step-Balances m k {w = w} h (grant a ps t e) =
      let (more, fewer) = Turns-active t in
      Balances-same sem config (omega arith) refl (
        resume-Balances sem config w.admission a (m + count is_active w.requests)
          (k + count is_waiting ps) (Balances-same sem config refl (omega arith) h) e)
  Step-Balances m k {w = w} h (leave ps t) =
      let (fewer, same) = Turns-done t in
      Balances-same sem config refl (omega arith) (
        release-Balances sem config w.admission (m + count is_active ps)
          (k + count is_waiting w.requests) (Balances-same sem config (omega arith) refl h))

  pub Step-IsBalanced :
      {w v : World sem} → IsBalanced sem config w → Step sem w v → IsBalanced sem config v
  Step-IsBalanced h s =
      Balances-same sem config (omega arith) (omega arith)
        (Step-Balances 0 0 (Balances-same sem config (omega arith) (omega arith) h) s)

  pub start-IsBalanced :
      config.max_concurrent ≤ max_permits
      → config.max_queued ≤ max_permits
      → IsBalanced sem config (start sem config)
  unfolding new_admission count
  start-IsBalanced l k =
      let (actives, nobody, none_owed) = sem.created config.max_concurrent l in
      let (places, no_line, none_due) = sem.created config.max_queued k in
      record {
        active_permits = omega arith;
        queue_permits = omega arith;
        in_line = omega arith;
        no_overtaking = inl nobody;
        none_in_line = no_line;
        active_shown = refl;
        queued_shown = refl;
      }

  pub Reach-IsBalanced :
      {w v : World sem} → IsBalanced sem config w → Reach sem w v → IsBalanced sem config v
  Reach-IsBalanced h here = h
  Reach-IsBalanced h (next r s) = Step-IsBalanced (Reach-IsBalanced h r) s
