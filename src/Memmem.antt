-- ===== src/Memmem.antt =====
-- The searches of the crate `memchr`, which the source calls and does not hold: an interface with
-- the documented behaviour of `memmem::Finder::find`.
use kse_static_rewrite_proxy.Base.{
  ℕ, ◌<◌, ◌≤◌, true, false, List, ◌≡◌, Option, none, some, drop, length,
}
use kse_static_rewrite_proxy.Slice.{Bytes, starts_with}

-- The needle stands at `p`, and at no earlier place.
pub record IsFirst (needle hay : Bytes) (p : ℕ) : Type 0 where
  pub here : starts_with needle (drop p hay) ≡ true
  pub earlier : (i : ℕ) → i < p → starts_with needle (drop i hay) ≡ false

-- `Finder::new(needle).find(hay)`: "the index of the first occurrence of this needle in the given
-- haystack", and `none` if there is none.
pub record Memmem : Type 0 where
  pub find : Bytes → Bytes → Option ℕ
  pub find_some : (needle hay : Bytes) (p : ℕ) → find needle hay ≡ some p → IsFirst needle hay p
  pub find_none :
      (needle hay : Bytes)
      → find needle hay ≡ none
      → (i : ℕ) → i ≤ length hay
      → starts_with needle (drop i hay) ≡ false
  -- `Finder::new(needle).find_iter(hay)`: the places of the non-overlapping occurrences.
  pub find_iter : Bytes → Bytes → List ℕ
