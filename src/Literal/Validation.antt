-- ===== src/Literal/Validation.antt =====
-- `validate_utf8` over a stream: what it keeps between two chunks, and what it answers.
use kse_static_rewrite_proxy.Base.{
  ℕ, zero, suc, ◌+◌, ◌-◌, ◌≤◌, min, [], ◌∷◌, ◌++◌, ◌≡◌, ◌≢◌, refl, sym, ap, ◌∙◌, Option, none, some,
  arith, drop, take, length, length-append, length-take, Option-cases, inl, inr, append-nil,
  append_assoc, drop-append_right, take-append-drop, take_all,
}
use native.Mathlib.Decide.{dec_le}
use kse_static_rewrite_proxy.Slice.{Bytes}
use kse_static_rewrite_proxy.Utf8.{
  Utf8Check, valid, error, Place, boundary, inside, first_byte, next_byte, check_from, from_utf8,
}
use kse_static_rewrite_proxy.Utf8.Laws.{
  places, ◌>>=◌, awaited, places-append, Answers, from_utf8-Answers,
}
use kse_static_rewrite_proxy.Literal.Result.{Result, ok, err, panic, invalid_utf8}
use kse_static_rewrite_proxy.Literal.Rewriter.{
  utf8_sequence_len, validate_utf8, validate_utf8_slice, validate_boundary,
}

-- The bytes are those of one unfinished character, read up to `place`.
abbrev pub Unfinished : Bytes → Place → Type 0
Unfinished [] place = place ≡ boundary
Unfinished (b ∷ bs) place =
    (utf8_sequence_len b ≡ some (length (b ∷ bs) + awaited place)) × (place ≢ boundary)

pub record Tail (tail : Bytes) (place : Place) : Type 0 where
  pub unfinished : Unfinished tail place
  pub reads : places boundary tail ≡ some place

pub Tail-empty : Tail [] boundary
unfolding places
Tail-empty = record { unfinished = refl; reads = refl }

first_byte-length :
    (b lo hi more : ℕ)
    → first_byte b ≡ some (inside lo hi more)
    → utf8_sequence_len b ≡ some (suc (suc more))
unfolding first_byte utf8_sequence_len
first_byte-length b lo hi more e = ground arith

Unfinished-concat :
    (bs : Bytes) (place : Place) (b lo hi more : ℕ)
    → Unfinished bs place
    → next_byte place b ≡ some (inside lo hi more)
    → Unfinished (bs ++ b ∷ []) (inside lo hi more)
unfolding next_byte
Unfinished-concat [] place b lo hi more u e =
    let head = first_byte-length b lo hi more (rw u at e) in (head ∙ ap some (omega arith), λ p. cc)
Unfinished-concat (c ∷ cs) boundary b lo hi more u e = absurd (u.1 refl)
Unfinished-concat (c ∷ cs) (inside lo' hi' zero) b lo hi more u e = ground arith
Unfinished-concat (c ∷ cs) (inside lo' hi' (suc m)) b lo hi more u e =
    ground (arith, length-append cs (b ∷ []))

Tail-concat :
    (bs : Bytes) (place : Place) (b lo hi more : ℕ)
    → Tail bs place
    → next_byte place b ≡ some (inside lo hi more)
    → Tail (bs ++ b ∷ []) (inside lo hi more)
unfolding places
Tail-concat bs place b lo hi more t e = record {
  unfinished = Unfinished-concat bs place b lo hi more t.unfinished e;
  reads = places-append boundary bs (b ∷ []) ∙ rw t.reads (rw (e, places) refl);
}

-- Where the input stops inside of a character, `valid_up_to` cuts off the bytes of that character.
record Cuts (place : Place) (start upto : ℕ) (read : Bytes) (bs : Bytes) : Type 0 where
  from_start : start ≤ upto
  end : Place
  reads_end : places place bs ≡ some end
  tail : Tail (drop (upto - start) (read ++ bs)) end

check_from-Cuts :
    (bs : Bytes) (place : Place) (start taken upto : ℕ) (read : Bytes)
    → length read ≡ taken
    → Tail read place
    → check_from place start taken bs ≡ error upto none
    → Cuts place start upto read bs
unfolding check_from places
check_from-Cuts [] boundary start taken upto read l t e = cc
check_from-Cuts [] (inside lo hi more) start taken upto read l t e =
    let same : start ≡ upto = ground arith in
    record {
      from_start = omega arith;
      end = inside lo hi more;
      reads_end = refl;
      tail = let none_cut : upto - start ≡ 0 = omega arith in rw (none_cut, append-nil read) t;
    }
check_from-Cuts (b ∷ bs) place start taken upto read l t e =
    elim (Option-cases (next_byte place b)) [
      | inl stuck ↦ let e' = (rw (stuck, check_from) at e) in cc
      | inr (boundary, next) ↦
          let ih =
            check_from-Cuts bs boundary (start + taken + 1) 0 upto [] refl Tail-empty
              (rw (next, check_from) at e) in
          let from = ih.from_start in
          record {
            from_start = omega arith;
            end = ih.end;
            reads_end = rw (next, places) ih.reads_end;
            tail =
                rw
                  (drop-append_right (upto - start) (suc (upto - (start + taken + 1))) read (b ∷ bs)
                    (omega arith))
                  ih.tail;
          }
      | inr (inside lo hi more, next) ↦
          let ih =
            check_from-Cuts bs (inside lo hi more) start (taken + 1) upto (read ++ b ∷ [])
              (omega (arith, length-append read (b ∷ [])))
              (Tail-concat read place b lo hi more t next) (rw (next, check_from) at e) in
          record {
            from_start = ih.from_start;
            end = ih.end;
            reads_end = rw (next, places) ih.reads_end;
            tail = rw append_assoc at ih.tail;
          }
    ]

-- What a validation says: the new tail, or that no continuation of the input is valid.
abbrev pub Validates : Result (Unit {0}) × Bytes → Option Place → Type 0
Validates (ok _, tail) end = (q : Place) × (end ≡ some q) × Tail tail q
Validates (err e, tail) end = (e ≡ invalid_utf8) × (end ≡ none)
Validates (panic, tail) end = ⊥

from_utf8-Cuts :
    (input : Bytes) (upto : ℕ)
    → from_utf8 input ≡ error upto none
    → (q : Place) × (places boundary input ≡ some q) × Tail (drop upto input) q
unfolding from_utf8
from_utf8-Cuts input upto e =
    let cuts = check_from-Cuts input boundary 0 0 upto [] refl Tail-empty e in
    let whole : upto - 0 ≡ upto = omega arith in (cuts.end, cuts.reads_end, rw whole at cuts.tail)

validate_utf8_slice-Validates :
    (input : Bytes) → Validates (validate_utf8_slice input []) (places boundary input)
unfolding validate_utf8_slice
validate_utf8_slice-Validates input = go (from_utf8 input) refl
  where
    go :
        (r : Utf8Check)
        → from_utf8 input ≡ r
        → Validates (validate_utf8_slice input []) (places boundary input)
    go valid e =
        rw (e, validate_utf8_slice) (boundary, rw e at (from_utf8-Answers input), Tail-empty)
    go (error upto none) e = rw (e, validate_utf8_slice) (from_utf8-Cuts input upto e)
    go (error upto (some n)) e =
        rw (e, validate_utf8_slice) (refl, rw e at (from_utf8-Answers input))

-- Each byte read inside of a character is one byte less to wait for.
places-awaited :
    (bs : Bytes) (place q : Place)
    → length bs ≤ awaited place
    → places place bs ≡ some q
    → awaited q + length bs ≡ awaited place
unfolding places next_byte
places-awaited [] place q l e = ground arith
places-awaited (b ∷ bs) boundary q l e = absurd (omega arith)
places-awaited (b ∷ []) (inside lo hi zero) q l e = ground arith
places-awaited (b ∷ (c ∷ bs)) (inside lo hi zero) q l e = absurd (omega arith)
places-awaited (b ∷ bs) (inside lo hi (suc more)) q l e =
    ground (arith, places-awaited bs (inside 0x80 0xBF more) q)

not_awaited : (q : Place) → awaited q ≡ 0 → q ≡ boundary
not_awaited boundary e = refl
not_awaited (inside lo hi more) e = absurd (omega arith)

-- A tail `b ∷ bs` that waits at `place`, continued by `input`.
module _ (b : ℕ) (bs : Bytes) (place : Place) (t : Tail (b ∷ bs) place) where
  Tail-append :
      (input : Bytes) (q : Place)
      → length input ≤ awaited place
      → places place input ≡ some q
      → q ≢ boundary
      → Tail ((b ∷ bs) ++ input) q
  Tail-append input q l e ne = record {
    unfinished = (
      t.unfinished.0
          ∙ ap some (omega (arith, length-append bs input, places-awaited input place q l e)),
      ne,
    );
    reads = places-append boundary (b ∷ bs) input ∙ rw t.reads e;
  }

  module _ (k : ℕ) (input : Bytes) (joined : k ≡ min (length input) (awaited place)) where
    places_joined : places boundary ((b ∷ bs) ++ take k input) ≡ places place (take k input)
    places_joined = places-append boundary (b ∷ bs) (take k input) ∙ rw t.reads refl

    places_split :
        places place input ≡ (places place (take k input) >>= λ q. places q (drop k input))
    places_split =
        ap (places place) (sym (take-append-drop k input))
        ∙ places-append place (take k input) (drop k input)

    -- The joined bytes end inside of the character only if the whole input was joined.
    whole_input :
        (q : Place) → places place (take k input) ≡ some q → q ≢ boundary → take k input ≡ input
    whole_input q e ne = elim (dec_le (length input) k) [
      | yes h ↦ take_all k input h
      | no h ↦ absurd (
          ne (
            not_awaited q (
              omega (
                arith,
                length-take k input,
                places-awaited (take k input) place q (omega (arith, length-take k input)) e,
              ))))
    ]

    validate_boundary-Validates :
        Validates (validate_boundary k input (b ∷ bs)) (places place input)
    unfolding validate_boundary
    validate_boundary-Validates = go (from_utf8 ((b ∷ bs) ++ take k input)) refl
      where
        answers :
            (r : Utf8Check)
            → from_utf8 ((b ∷ bs) ++ take k input) ≡ r
            → Answers r (places place (take k input))
        answers r e = rw (← places_joined, ← e) (from_utf8-Answers _)

        go :
            (r : Utf8Check)
            → from_utf8 ((b ∷ bs) ++ take k input) ≡ r
            → Validates (validate_boundary k input (b ∷ bs)) (places place input)
        go valid e =
            rw (e, validate_boundary)
              (rw (places_split, answers valid e) (validate_utf8_slice-Validates (drop k input)))
        go (error upto none) e =
            let (q, read, ne) = answers (error upto none) e in
            let all = whole_input q read ne in
            let read' : places place input ≡ some q = rw all at read in
            rw (e, validate_boundary)
              (
                q,
                read',
                rw all (
                    Tail-append input q (omega (arith, ap length all, length-take k input)) read'
                      ne),
              )
        go (error upto (some n)) e =
            rw (e, validate_boundary)
              (refl, rw (places_split, answers (error upto (some n)) e) refl)

-- One chunk: the tail is kept as the bytes of the unfinished character, and the chunk is refused
-- exactly if no character sequence goes on with it.
pub validate_utf8-Validates :
    (tail input : Bytes) (place : Place)
    → Tail tail place
    → Validates (validate_utf8 input tail) (places place input)
unfolding validate_utf8
validate_utf8-Validates [] input place t = rw (t.unfinished) (validate_utf8_slice-Validates input)
validate_utf8-Validates (b ∷ bs) input place t =
    rw (t.unfinished.0, validate_utf8)
      (validate_boundary-Validates b bs place t _ input (omega arith))
