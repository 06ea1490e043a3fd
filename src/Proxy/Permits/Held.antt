-- ===== src/Proxy/Permits/Held.antt =====
-- The permit of a context, and what `take_permit` does to the balance.
use kse_static_rewrite_proxy.Base.{
  ℕ, ◌+◌, Bool, true, false, ◌≡◌, refl, arith, Bool-cases, inl, inr,
}
use kse_static_rewrite_proxy.Config.{EffectiveConfig}
use kse_static_rewrite_proxy.Proxy.{Semaphores, Admission, RequestContext, take_permit}
use kse_static_rewrite_proxy.Proxy.Interleaving.Balance.{Balances, Balances-same, release-Balances}

abbrev pub held : Bool → ℕ
held true = 1
held false = 0

module _ (sem : Semaphores) (config : EffectiveConfig) where
  pub take_permit-Balances :
      (a : Admission sem) (ctx : RequestContext) (m k : ℕ)
      → Balances sem config a (m + held ctx.active_permit) k
      → Balances sem config (take_permit sem a ctx).0 m k
        × ((take_permit sem a ctx).1.active_permit ≡ false)
  unfolding take_permit
  take_permit-Balances a ctx m k h = elim (Bool-cases ctx.active_permit) [
    | inl there ↦ rw (there, take_permit) (release-Balances sem config a m k (rw there at h), refl)
    | inr free ↦
        rw (free, take_permit) (Balances-same sem config (omega arith) refl (rw free at h), free)
  ]
