-- ===== src/Tests/Search.antt =====
-- A plain search with the documented behaviour of `memmem`.
use kse_static_rewrite_proxy.Base.{
  ℕ, zero, suc, ◌+◌, ◌-◌, ◌<◌, ◌≤◌, false, List, [], ◌∷◌, ◌≡◌, Option, none, some, arith, drop,
  length, if◌then◌else◌,
}
use mathlib.Core.Option
use kse_static_rewrite_proxy.Slice.{Bytes, starts_with}
use kse_static_rewrite_proxy.Memmem.{Memmem, IsFirst}

unfoldable pub find : Bytes → Bytes → Option ℕ
unfolding starts_with
find needle [] = if starts_with needle [] then some 0 else none
find needle (c ∷ cs) =
    if starts_with needle (c ∷ cs) then some 0 else Option.map suc (find needle cs)

-- `skipped` bytes are still a part of the last occurrence; `i` is the place.
unfoldable pub find_iter_from : ℕ → ℕ → Bytes → Bytes → List ℕ
unfolding starts_with
find_iter_from i skipped needle [] = []
find_iter_from i (suc skipped) needle (c ∷ cs) = find_iter_from (i + 1) skipped needle cs
find_iter_from i zero needle (c ∷ cs) =
    let hit = i ∷ find_iter_from (i + 1) (length needle - 1) needle cs in
    let miss = find_iter_from (i + 1) 0 needle cs in
    if starts_with needle (c ∷ cs) then hit else miss

pub find-none :
    (needle hay : Bytes)
    → find needle hay ≡ none
    → (i : ℕ) → i ≤ length hay
    → starts_with needle (drop i hay) ≡ false
unfolding find
find-none needle [] e zero l = ground arith
find-none needle [] e (suc i) l = absurd (omega arith)
find-none needle (c ∷ cs) e zero l = ground arith
find-none needle (c ∷ cs) e (suc i) l = find-none needle cs (ground arith) i (omega arith)

IsFirst-cons :
    (needle : Bytes) (c : ℕ) (cs : Bytes) (p : ℕ)
    → starts_with needle (c ∷ cs) ≡ false
    → IsFirst needle cs p
    → IsFirst needle (c ∷ cs) (suc p)
IsFirst-cons needle c cs p miss first = record { here = first.here; earlier = earlier }
  where
    earlier : (i : ℕ) → i < suc p → starts_with needle (drop i (c ∷ cs)) ≡ false
    earlier zero l = miss
    earlier (suc i) l = first.earlier i (omega arith)

pub find-some : (needle hay : Bytes) (p : ℕ) → find needle hay ≡ some p → IsFirst needle hay p
unfolding find
find-some needle [] zero e = record { here = ground arith; earlier = λ i l. absurd (omega arith) }
find-some needle [] (suc p) e = absurd (ground arith)
find-some needle (c ∷ cs) zero e = record {
  here = ground arith;
  earlier = λ i l. absurd (omega arith);
}
find-some needle (c ∷ cs) (suc p) e =
    IsFirst-cons needle c cs p (ground arith) (find-some needle cs p (ground arith))

abbrev pub search_memmem : Memmem
search_memmem = record {
  find = find;
  find_some = find-some;
  find_none = find-none;
  find_iter = find_iter_from 0 0;
}
