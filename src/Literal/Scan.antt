-- ===== src/Literal/Scan.antt =====
-- What a literal rewriter promises: one pass over the whole text, byte by byte. It reads nothing of
-- the rewriter's state but its configuration, and sees the whole text on both sides of a match.
use kse_static_rewrite_proxy.Base.{
  ℕ, zero, suc, ◌+◌, ◌-◌, ◌≤◌, ◌<◌, Bool, false, [], ◌∷◌, ◌++◌, ◌≡◌, ◌≢◌, refl, ap, ◌∙◌, Option,
  none, some, if◌then◌else◌, arith, drop, take, length, length-append, append-nil, append_assoc,
  take-append-drop, drop-append_self,
}
use kse_static_rewrite_proxy.Slice.{Bytes, starts_with, ends_with}
use kse_static_rewrite_proxy.Slice.Prefix.{starts_with-append_self, starts_with-append_long}
use kse_static_rewrite_proxy.Literal.Rewriter.{LiteralRewriteMode, inserted_prefix_of, written}

-- Whether the text before a match already ends with the inserted prefix.
abbrev pub is_prefixed : Option Bytes → Bytes → Bool
is_prefixed none before = false
is_prefixed (some inserted) before = ends_with inserted before

module _ (mode : LiteralRewriteMode) (source : Bytes) where
  -- A match is replaced, or kept if what would be inserted already stands beside it.
  abbrev pub replaced : Bytes → Bytes → Bytes
  replaced before after = written mode source (is_prefixed (inserted_prefix_of mode) before) after

  -- `skipped` bytes are still a part of the last match.
  unfoldable pub scan : Bytes → ℕ → Bytes → Bytes
  scan before skipped [] = []
  scan before (suc skipped) (c ∷ cs) = scan (before ++ c ∷ []) skipped cs
  scan before zero (c ∷ cs) =
      let after = drop (length source) (c ∷ cs) in
      let hit = replaced before after ++ scan (before ++ c ∷ []) (length source - 1) cs in
      let miss = c ∷ scan (before ++ c ∷ []) 0 cs in
      if starts_with source (c ∷ cs) then hit else miss

-- The needle begins at no place of `pre`, with `post` behind it.
abbrev pub Clear : Bytes → Bytes → Bytes → Type 0
Clear needle [] post = Unit
Clear needle (c ∷ pre) post = (starts_with needle (c ∷ pre ++ post) ≡ false) × Clear needle pre post

pub IsFirst-Clear :
    (needle hay : Bytes) (p : ℕ)
    → ((i : ℕ) → i < p → starts_with needle (drop i hay) ≡ false)
    → Clear needle (take p hay) (drop p hay)
IsFirst-Clear needle hay zero h = tt
IsFirst-Clear needle [] (suc p) h = tt
IsFirst-Clear needle (c ∷ hay) (suc p) h = (
  rw (take-append-drop p hay) (h 0 (omega arith)),
  IsFirst-Clear needle hay p (λ i l. h (suc i) (omega arith)),
)

-- What comes later cannot make a match begin there, if the needle ends before it.
pub Clear-append :
    (needle pre post future : Bytes)
    → length needle ≤ length post + 1
    → Clear needle pre post
    → Clear needle pre (post ++ future)
Clear-append needle [] post future l h = tt
Clear-append needle (c ∷ pre) post future l (h, hs) = (
  rw (← append_assoc pre post future) (
      starts_with-append_long needle (c ∷ pre ++ post) future
        (omega (arith, length-append pre post))
      ∙ h),
  Clear-append needle pre post future l hs,
)

module _ (mode : LiteralRewriteMode) (source : Bytes) where
  pub scan-Clear :
      (before pre post : Bytes)
      → Clear source pre post
      → scan mode source before 0 (pre ++ post) ≡ pre ++ scan mode source (before ++ pre) 0 post
  unfolding scan
  scan-Clear before [] post h = rw append-nil refl
  scan-Clear before (c ∷ pre) post (h, hs) =
      rw h (rw (scan-Clear (before ++ c ∷ []) pre post hs, append_assoc) refl)

  scan_skip :
      (before skipped post : Bytes)
      → scan mode source before (length skipped) (skipped ++ post)
        ≡ scan mode source (before ++ skipped) 0 post
  unfolding scan
  scan_skip before [] post = rw append-nil refl
  scan_skip before (c ∷ skipped) post = scan_skip (before ++ c ∷ []) skipped post ∙ rw append_assoc

-- At a match its bytes are skipped, and the pass goes on behind it.
pub scan_match :
    (mode : LiteralRewriteMode) (source before post : Bytes)
    → source ≢ []
    → scan mode source before 0 (source ++ post)
      ≡ replaced mode source before post ++ scan mode source (before ++ source) 0 post
unfolding scan
scan_match mode [] before post ne = absurd (ne refl)
scan_match mode (s ∷ ss) before post ne =
    let one : suc (length ss) - 1 ≡ length ss = omega arith in
    rw (starts_with-append_self (s ∷ ss) post, drop-append_self ss post, one)
      (ap (◌++◌ (replaced mode (s ∷ ss) before post))
        (scan_skip mode (s ∷ ss) (before ++ s ∷ []) ss post ∙ rw append_assoc refl))
