-- ===== src/Slice/Prefix.antt =====
-- Laws of `==`, `starts_with` and `ends_with` on slices.
use kse_static_rewrite_proxy.Base.{
  ◌≤◌, true, false, ◌&&◌, [], ◌∷◌, ◌++◌, ◌≡◌, refl, arith, length, drop, ◌-◌, leb, length-append,
  drop-append_self,
}
use kse_static_rewrite_proxy.Slice.{Bytes, equal, starts_with, ends_with}

pub equal-append :
    (a b c d : Bytes) → length a ≡ length c → equal (a ++ b) (c ++ d) ≡ (equal a c && equal b d)
unfolding equal
equal-append [] b [] d h = refl
equal-append [] b (y ∷ c) d h = absurd (omega arith)
equal-append (x ∷ a) b [] d h = absurd (omega arith)
equal-append (x ∷ a) b (y ∷ c) d h = ground (arith, equal-append a b c d)

pub starts_with-append_self : (n xs : Bytes) → starts_with n (n ++ xs) ≡ true
unfolding starts_with
starts_with-append_self [] xs = refl
starts_with-append_self (x ∷ n) xs = ground (arith, starts_with-append_self n xs)

-- A slice that starts with a needle is the needle and what follows it.
pub starts_with→append : (n xs : Bytes) → starts_with n xs ≡ true → xs ≡ n ++ drop (length n) xs
unfolding starts_with
starts_with→append [] xs h = refl
starts_with→append (n ∷ ns) [] h = ground arith
starts_with→append (n ∷ ns) (x ∷ xs) h = ground (arith, starts_with→append ns xs)

-- A slice that is long enough decides the test: nothing behind it matters.
pub starts_with-append_long :
    (n xs ys : Bytes) → length n ≤ length xs → starts_with n (xs ++ ys) ≡ starts_with n xs
unfolding starts_with
starts_with-append_long [] xs ys h = refl
starts_with-append_long (n ∷ ns) [] ys h = absurd (omega arith)
starts_with-append_long (n ∷ ns) (x ∷ xs) ys h = ground (arith, starts_with-append_long ns xs ys)

pub starts_with-length : (n xs : Bytes) → starts_with n xs ≡ true → length n ≤ length xs
unfolding starts_with
starts_with-length [] xs h = omega arith
starts_with-length (n ∷ ns) [] h = ground arith
starts_with-length (n ∷ ns) (x ∷ xs) h = ground (arith, starts_with-length ns xs)

-- A short slice that is no beginning of the needle can never be continued to the needle.
pub starts_with-append_mismatch :
    (n xs ys : Bytes)
    → length xs ≤ length n
    → starts_with xs n ≡ false
    → starts_with n (xs ++ ys) ≡ false
unfolding starts_with
starts_with-append_mismatch n [] ys l h = ground arith
starts_with-append_mismatch [] (x ∷ xs) ys l h = absurd (omega arith)
starts_with-append_mismatch (n ∷ ns) (x ∷ xs) ys l h =
    ground (arith, starts_with-append_mismatch ns xs ys)

pub equal→eq : (xs ys : Bytes) → equal xs ys ≡ true → xs ≡ ys
unfolding equal
equal→eq [] [] h = refl
equal→eq [] (y ∷ ys) h = cc
equal→eq (x ∷ xs) [] h = cc
equal→eq (x ∷ xs) (y ∷ ys) h = ground (arith, equal→eq xs ys)

pub equal_refl : (xs : Bytes) → equal xs xs ≡ true
unfolding equal
equal_refl [] = refl
equal_refl (x ∷ xs) = ground (arith, equal_refl xs)

pub ends_with-append : (xs needle : Bytes) → ends_with needle (xs ++ needle) ≡ true
unfolding ends_with
ends_with-append xs needle =
    let sized : length (xs ++ needle) - length needle ≡ length xs =
      omega (arith, length-append xs needle) in
    let long : leb (length needle) (length (xs ++ needle)) ≡ true =
      ground (arith, length-append xs needle) in
    rw (long, sized, drop-append_self xs needle) (equal_refl needle)
