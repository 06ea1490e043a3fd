-- ===== src/Literal/Result.antt =====
-- src/literal.rs: `RewriteError`, and what a call gives back.
use kse_static_rewrite_proxy.Base.{ℕ, ◌≡◌, refl}

pub data RewriteError : Type 0 where
  empty_rules empty_source invalid_replacement : RewriteError
  too_large : ℕ → RewriteError
  invalid_utf8 already_finished : RewriteError

-- `Ok`, `Err`, or a panic: an `unreachable!`, an `expect` on nothing or an index out of range.
pub data Result {ℓ} (A : Type ℓ) : Type ℓ where
  ok : A → Result A
  err : RewriteError → Result A
  panic : Result A

infixl 5 ◌>>=◌
abbrev pub ◌>>=◌ {ℓ κ} : {A : Type ℓ} {B : Type κ} → Result A → (A → Result B) → Result B
ok a >>= f = f a
err e >>= f = err e
panic >>= f = panic

pub bind-ok {ℓ κ} :
    {A : Type ℓ} {B : Type κ} (m : Result A) (f : A → Result B) (b : B)
    → (m >>= f) ≡ ok b
    → (a : A) × (m ≡ ok a) × (f a ≡ ok b)
bind-ok (ok a) f b e = (a, refl, e)
bind-ok (err x) f b e = cc
bind-ok panic f b e = cc

-- `step?;` before `next`, in a method that leaves `state` behind when it fails.
abbrev pub if_ok {ℓ κ} :
    {A : Type ℓ} {S : Type κ} → Result (Unit {0}) → S → Result A × S → Result A × S
if_ok (ok _) state next = next
if_ok (err e) state next = (err e, state)
if_ok panic state next = (panic, state)

-- To split on a step, with its result as an equation.
pub if_ok-elim {ℓ κ ν} :
    {A : Type ℓ} {S : Type κ} (P : Result A × S → Type ν) (r : Result (Unit {0})) (s : S)
    (next : Result A × S)
    → ((e : RewriteError) → r ≡ err e → P (err e, s))
    → (r ≡ panic → P (panic, s))
    → ((u : Unit {0}) → r ≡ ok u → P next)
    → P (if_ok r s next)
if_ok-elim P (ok u) s next h k l = l u refl
if_ok-elim P (err e) s next h k l = h e refl
if_ok-elim P panic s next h k l = k refl

-- The same for a step that has a value.
abbrev pub then_ok {ℓ κ ν} :
    {A : Type ℓ} {B : Type κ} {S : Type ν} → Result A → S → (A → Result B × S) → Result B × S
then_ok (ok a) state next = next a
then_ok (err e) state next = (err e, state)
then_ok panic state next = (panic, state)

pub then_ok-elim {ℓ κ ν ξ} :
    {A : Type ℓ} {B : Type κ} {S : Type ν} (P : Result B × S → Type ξ) (r : Result A) (s : S)
    (next : A → Result B × S)
    → ((e : RewriteError) → r ≡ err e → P (err e, s))
    → (r ≡ panic → P (panic, s))
    → ((a : A) → r ≡ ok a → P (next a))
    → P (then_ok r s next)
then_ok-elim P (ok a) s next h k l = l a refl
then_ok-elim P (err e) s next h k l = h e refl
then_ok-elim P panic s next h k l = k refl
