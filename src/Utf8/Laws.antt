-- ===== src/Utf8/Laws.antt =====
-- The machine of `from_utf8` over inputs that come in pieces.
use kse_static_rewrite_proxy.Base.{
  ℕ, suc, [], ◌∷◌, ◌++◌, ◌≡◌, ◌≢◌, refl, Option, none, some, Option-cases, inl, inr,
}
use kse_static_rewrite_proxy.Slice.{Bytes}
use kse_static_rewrite_proxy.Utf8.{
  Utf8Check, valid, error, Place, boundary, inside, next_byte, start_after, taken_after, check_from,
  from_utf8,
}

-- The place after some bytes, `none` once they are invalid.
unfoldable pub places : Place → Bytes → Option Place
places place [] = some place
places place (b ∷ bs) = elim (next_byte place b) [ none ↦ none | some place' ↦ places place' bs ]

-- How many bytes the character needs that is being read, and by its first byte.
abbrev pub awaited : Place → ℕ
awaited boundary = 0
awaited (inside _ _ more) = suc more

infixl 5 ◌>>=◌
abbrev pub ◌>>=◌ : Option Place → (Place → Option Place) → Option Place
none >>= k = none
some a >>= k = k a

pub places-append :
    (p : Place) (xs ys : Bytes) → places p (xs ++ ys) ≡ (places p xs >>= λ q. places q ys)
unfolding places
places-append p [] ys = refl
places-append p (x ∷ xs) ys = elim (Option-cases (next_byte p x)) [
  | inl e ↦ rw (e, places) refl
  | inr (q, e) ↦ rw (e, places) (places-append q xs ys)
]

-- What an answer of `from_utf8` says of the place behind the input.
abbrev pub Answers : Utf8Check → Option Place → Type 0
Answers valid end = end ≡ some boundary
Answers (error upto (some _)) end = end ≡ none
Answers (error upto none) end = (q : Place) × (end ≡ some q) × (q ≢ boundary)

pub check_from-Answers :
    (place : Place) (start taken : ℕ) (bs : Bytes)
    → Answers (check_from place start taken bs) (places place bs)
unfolding check_from places
check_from-Answers boundary start taken [] = refl
check_from-Answers (inside lo hi more) start taken [] = (inside lo hi more, refl, λ e. cc)
check_from-Answers place start taken (b ∷ bs) = elim (Option-cases (next_byte place b)) [
  | inl e ↦ rw (e, check_from) (rw (e, places) refl)
  | inr (q, e) ↦
      rw (e, check_from)
        (rw (e, places) (check_from-Answers q (start_after start taken q) (taken_after taken q) bs))
]

pub from_utf8-Answers : (bs : Bytes) → Answers (from_utf8 bs) (places boundary bs)
unfolding from_utf8
from_utf8-Answers bs = check_from-Answers boundary 0 0 bs
