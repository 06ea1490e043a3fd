-- ===== src/Slice/Trim.antt =====
-- Laws of `trim`: what is trimmed stays trimmed, and trimming only drops bytes.
use kse_static_rewrite_proxy.Base.{
  ℕ, Bool, true, false, [], ◌∷◌, ◌≡◌, inl, inr, refl, ap, ◌∙◌, arith, Bool-cases,
}
use kse_static_rewrite_proxy.Slice.{Bytes}
use kse_static_rewrite_proxy.Slice.Text.{contains_byte, all_bytes}
use kse_static_rewrite_proxy.Slice.Split.{is_whitespace, keep_visible, trim_start, trim_end, trim}

trim_end-trim_end : (text : Bytes) → trim_end (trim_end text) ≡ trim_end text
unfolding trim_end
trim_end-trim_end [] = refl
trim_end-trim_end (b ∷ bs) = go (trim_end bs) (trim_end-trim_end bs)
  where
    go : (r : Bytes) → trim_end r ≡ r → trim_end (keep_visible b r) ≡ keep_visible b r
    go [] e = ground arith
    go (c ∷ cs) e = rw e refl

-- A text whose first byte stays, if there is one.
abbrev IsStarted : Bytes → Type 0
IsStarted [] = Unit {0}
IsStarted (b ∷ bs) = is_whitespace b ≡ false

trim_start-IsStarted : (text : Bytes) → IsStarted (trim_start text)
unfolding trim_start
trim_start-IsStarted [] = tt
trim_start-IsStarted (b ∷ bs) = elim (Bool-cases (is_whitespace b)) [
  | inl space ↦ rw space (trim_start-IsStarted bs)
  | inr shown ↦ rw shown shown
]

trim_start_started : (text : Bytes) → IsStarted text → trim_start text ≡ text
unfolding trim_start
trim_start_started [] h = refl
trim_start_started (b ∷ bs) h = rw h refl

trim_end-IsStarted : (text : Bytes) → IsStarted text → IsStarted (trim_end text)
unfolding trim_end
trim_end-IsStarted [] h = tt
trim_end-IsStarted (b ∷ bs) h = go (trim_end bs)
  where
    go : (r : Bytes) → IsStarted (keep_visible b r)
    go [] = rw h h
    go (c ∷ cs) = h

pub trim-trim : (text : Bytes) → trim (trim text) ≡ trim text
unfolding trim
trim-trim text =
    ap trim_end (
      trim_start_started (trim_end (trim_start text))
        (trim_end-IsStarted (trim_start text) (trim_start-IsStarted text)))
    ∙ trim_end-trim_end (trim_start text)

pub trim-space : (text : Bytes) → trim (32 ∷ text) ≡ trim text
unfolding trim
trim-space text = refl

trim_start-contains :
    (b : ℕ) (text : Bytes)
    → contains_byte b text ≡ false
    → contains_byte b (trim_start text) ≡ false
unfolding trim_start contains_byte
trim_start-contains b [] h = refl
trim_start-contains b (c ∷ cs) h = ground (arith, trim_start-contains b cs)

trim_end-contains :
    (b : ℕ) (text : Bytes) → contains_byte b text ≡ false → contains_byte b (trim_end text) ≡ false
unfolding trim_end contains_byte
trim_end-contains b [] h = refl
trim_end-contains b (c ∷ cs) h = go (trim_end cs) (trim_end-contains b cs (ground arith))
  where
    go : (r : Bytes) → contains_byte b r ≡ false → contains_byte b (keep_visible c r) ≡ false
    go [] e = ground arith
    go (d ∷ ds) e = ground arith

pub trim-contains :
    (b : ℕ) (text : Bytes) → contains_byte b text ≡ false → contains_byte b (trim text) ≡ false
unfolding trim
trim-contains b text h = trim_end-contains b (trim_start text) (trim_start-contains b text h)

trim_start-all :
    (test : ℕ → Bool) (text : Bytes)
    → all_bytes test text ≡ true
    → all_bytes test (trim_start text) ≡ true
unfolding trim_start all_bytes
trim_start-all test [] h = refl
trim_start-all test (c ∷ cs) h = ground (arith, trim_start-all test cs)

trim_end-all :
    (test : ℕ → Bool) (text : Bytes)
    → all_bytes test text ≡ true
    → all_bytes test (trim_end text) ≡ true
unfolding trim_end all_bytes
trim_end-all test [] h = refl
trim_end-all test (c ∷ cs) h = go (trim_end cs) (trim_end-all test cs (ground arith))
  where
    go : (r : Bytes) → all_bytes test r ≡ true → all_bytes test (keep_visible c r) ≡ true
    go [] e = ground arith
    go (d ∷ ds) e = ground arith

pub trim-all :
    (test : ℕ → Bool) (text : Bytes)
    → all_bytes test text ≡ true
    → all_bytes test (trim text) ≡ true
unfolding trim
trim-all test text h = trim_end-all test (trim_start text) (trim_start-all test text h)
