-- ===== src/Literal/Steps.antt =====
-- `process_available` against the pass over the whole text: every cursor that its loop reaches
-- stands for the same result, whatever input is still to come.
use kse_static_rewrite_proxy.Base.{
  ℕ, Bool, false, [], ◌++◌, ◌≡◌, ◌≢◌, refl, sym, ap, ◌∙◌, Option, none, some, ltb, arith, drop,
  take, length, Bool-cases, ◌⊎◌, inl, inr, append-nil, append_assoc, take-append-drop,
}
use kse_static_rewrite_proxy.Slice.{Bytes, starts_with}
use kse_static_rewrite_proxy.Slice.Prefix.{
  starts_with-append_long, starts_with-append_mismatch, starts_with-length,
}
use kse_static_rewrite_proxy.Literal.Rewriter.{
  LiteralRewriteMode, prepend, exact, append, inserted_prefix_of, inserted_suffix_of, written,
  must_wait, Cursor, original_input_ends_with_prefix, write_before, write_match,
}
use kse_static_rewrite_proxy.Literal.History.{
  Remembers, remember_input-Remembers, original_input_ends_with_prefix-Remembers,
}
use kse_static_rewrite_proxy.Literal.Scan.{scan, is_prefixed, Clear, scan-Clear, scan_match}

-- Input may follow only before the end of the stream.
abbrev pub MayFollow : Bool → Bytes → Type 0
MayFollow end_of_stream future = (end_of_stream ≡ false) ⊎ (future ≡ [])

-- A test that does not wait reads the same with the future input as without it.
pub written-append :
    (mode : LiteralRewriteMode) (source : Bytes) (prefixed end_of_stream : Bool)
    (after future : Bytes)
    → MayFollow end_of_stream future
    → must_wait (inserted_suffix_of mode) end_of_stream after ≡ false
    → written mode source prefixed (after ++ future) ≡ written mode source prefixed after
unfolding written must_wait
written-append mode source prefixed e after future (inr nothing) w =
    rw (nothing, append-nil after) refl
written-append (prepend r p) source prefixed e after future (inl more) w = refl
written-append (exact r) source prefixed e after future (inl more) w = refl
written-append (append r s) source prefixed e after future (inl more) w =
    elim (Bool-cases (ltb (length after) (length s))) [
      | inl short ↦
          let apart : starts_with after s ≡ false = ground arith in
          let now : starts_with s after ≡ false = ground (arith, starts_with-length s after) in
          let later = starts_with-append_mismatch s after future (ground arith) apart in
          rw (now, later) refl
      | inr long ↦ rw (starts_with-append_long s after future (ground arith)) refl
    ]

-- The history answers for the whole text before the match.
pub flag_is_prefixed :
    (inserted : Option Bytes) (history before before_match : Bytes)
    → Remembers inserted history before
    → original_input_ends_with_prefix inserted history before_match
      ≡ is_prefixed inserted (before ++ before_match)
unfolding original_input_ends_with_prefix
flag_is_prefixed none history before before_match h = refl
flag_is_prefixed (some inserted) history before before_match h =
    original_input_ends_with_prefix-Remembers inserted history before before_match h

module _ (mode : LiteralRewriteMode) (source : Bytes) (end_of_stream : Bool) where
  -- From `c`, behind the original input `before`, the loop has come to `c'`, behind `before'`.
  pub record Moves (before : Bytes) (c : Cursor) (before' : Bytes) (c' : Cursor) : Type 0 where
    pub remembers : Remembers (inserted_prefix_of mode) c'.history before'
    pub same_input : before' ++ c'.rest ≡ before ++ c.rest
    pub same_result :
        (future : Bytes)
        → MayFollow end_of_stream future
        → c'.output ++ scan mode source before' 0 (c'.rest ++ future)
          ≡ c.output ++ scan mode source before 0 (c.rest ++ future)

  pub Moves-refl :
      (before : Bytes) (c : Cursor)
      → Remembers (inserted_prefix_of mode) c.history before
      → Moves before c before c
  Moves-refl before c h = record { remembers = h; same_input = refl; same_result = λ _ _. refl }

  pub Moves-trans :
      {before before' before'' : Bytes} {c d e : Cursor}
      → Moves before c before' d
      → Moves before' d before'' e
      → Moves before c before'' e
  Moves-trans m n = record {
    remembers = n.remembers;
    same_input = n.same_input ∙ m.same_input;
    same_result = λ future may. n.same_result future may ∙ m.same_result future may;
  }

  pub write_before-Moves :
      (before : Bytes) (c : Cursor) (position : ℕ)
      → Remembers (inserted_prefix_of mode) c.history before
      → ((future : Bytes)
          → MayFollow end_of_stream future
          → Clear source (take position c.rest) (drop position c.rest ++ future))
      → Moves before c (before ++ take position c.rest) (write_before mode position c)
  unfolding write_before
  write_before-Moves before c position h clear =
      let pre = take position c.rest in
      let post = drop position c.rest in
      let joined : (future : Bytes) → pre ++ (post ++ future) ≡ c.rest ++ future = λ future.
        sym (append_assoc pre post future)
        ∙ ap (λ (xs : Bytes). xs ++ future) (take-append-drop position c.rest) in
      record {
        remembers = remember_input-Remembers (inserted_prefix_of mode) c.history before pre h;
        same_input =
            append_assoc before pre post ∙ ap (◌++◌ before) (take-append-drop position c.rest);
        same_result = λ future may.
            append_assoc c.output pre _
            ∙ ap (◌++◌ c.output) (
                sym (scan-Clear mode source before pre (post ++ future) (clear future may))
                ∙ ap (scan mode source before 0) (joined future));
      }

  pub write_match-Moves :
      (before : Bytes) (c : Cursor)
      → source ≢ []
      → Remembers (inserted_prefix_of mode) c.history before
      → c.rest ≡ source ++ drop (length source) c.rest
      → ((future : Bytes)
          → MayFollow end_of_stream future
          → written mode source
              (is_prefixed (inserted_prefix_of mode) before)
              (drop (length source) c.rest ++ future)
            ≡ written mode source
                (is_prefixed (inserted_prefix_of mode) before)
                (drop (length source) c.rest))
      → Moves before c
          (before ++ source)
          (write_match mode source (is_prefixed (inserted_prefix_of mode) before) c)
  unfolding write_match
  write_match-Moves before c ne h split same =
      let post = drop (length source) c.rest in
      let hit = written mode source (is_prefixed (inserted_prefix_of mode) before) post in
      record {
        remembers = remember_input-Remembers (inserted_prefix_of mode) c.history before source h;
        same_input = append_assoc before source post ∙ ap (◌++◌ before) (sym split);
        same_result = λ future may.
            append_assoc c.output hit _
            ∙ ap (◌++◌ c.output) (
                ap (λ (xs : Bytes). xs ++ scan mode source (before ++ source) 0 (post ++ future))
                  (sym (same future may))
                ∙ sym (scan_match mode source before (post ++ future) ne)
                ∙ ap (scan mode source before 0) (
                    sym (append_assoc source post future)
                    ∙ ap (λ (xs : Bytes). xs ++ future) (sym split)));
      }
