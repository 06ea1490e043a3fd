-- ===== src/Config/Error.antt =====
-- src/config.rs: `ConfigError`, and what a validation gives back.
use kse_static_rewrite_proxy.Base.{ℕ, Bool, true, false, ◌≡◌, refl, Option, none, some}
use kse_static_rewrite_proxy.Slice.{Bytes}

-- The message of a parser that is not in the source is left out of `invalid_yaml`.
pub data ConfigError : Type 0 where
  invalid_yaml : ConfigError
  invalid_base_path invalid_listen invalid_admin_listen : Bytes → ConfigError
  conflicting_listeners : ConfigError
  listener_overlaps_upstream invalid_upstream : Bytes → ConfigError
  invalid_extension : (field extension : Bytes) → ConfigError
  wildcard_with_extensions : ConfigError
  duplicate_extension : (field extension : Bytes) → ConfigError
  unknown_rule : ℕ → ConfigError
  non_positive_limit : Bytes → ConfigError

pub data Result {ℓ} (T : Type ℓ) : Type ℓ where
  err : ConfigError → Result T
  ok : T → Result T

-- `?` on a value that is used behind it.
infixl 5 ◌>>=◌
abbrev pub ◌>>=◌ {ℓ κ} : {T : Type ℓ} {U : Type κ} → Result T → (T → Result U) → Result U
err refused >>= next = err refused
ok value >>= next = next value

-- `?` on a check.
infixl 5 ◌>>◌
abbrev pub ◌>>◌ {κ} : {U : Type κ} → Result (Unit {0}) → Result U → Result U
checked >> rest = checked >>= λ passed. rest

-- `if condition { return Err(error); }`.
unfoldable pub fail_if : Bool → ConfigError → Result (Unit {0})
fail_if true e = err e
fail_if false e = ok tt

-- `option.ok_or(error)?`, and `parsed.map_err(…)?`.
unfoldable pub ok_or {ℓ} : {A : Type ℓ} → Option A → ConfigError → Result A
ok_or none e = err e
ok_or (some a) e = ok a

-- What a chain that succeeded has passed.
pub bind-ok {ℓ κ} :
    {T : Type ℓ} {U : Type κ} (first : Result T) (next : T → Result U) {last : U}
    → (first >>= next) ≡ ok last
    → (value : T) × (first ≡ ok value) × (next value ≡ ok last)
bind-ok (err refused) next h = cc
bind-ok (ok value) next h = (value, refl, h)

pub fail_if-ok {ℓ} :
    {B : Type ℓ} (test : Bool) (e : ConfigError) (k : Result B) {b : B}
    → (fail_if test e >> k) ≡ ok b
    → (test ≡ false) × (k ≡ ok b)
unfolding fail_if
fail_if-ok true e k h = cc
fail_if-ok false e k h = (refl, h)

pub ok_or-ok {ℓ κ} :
    {A : Type ℓ} {B : Type κ} (o : Option A) (e : ConfigError) (f : A → Result B) {b : B}
    → (ok_or o e >>= f) ≡ ok b
    → (a : A) × (o ≡ some a) × (f a ≡ ok b)
unfolding ok_or
ok_or-ok none e f h = cc
ok_or-ok (some a) e f h = (a, refl, h)
