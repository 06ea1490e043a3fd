-- ===== src/Literal/Loop.antt =====
-- The loop of `process_available`, by induction on its rounds.
use kse_static_rewrite_proxy.Base.{
  ℕ, zero, suc, ◌<◌, Bool, true, false, [], ◌++◌, ◌≡◌, ◌≢◌, refl, sym, ◌∙◌, Option, none, some,
  arith, drop, take, length, length-drop, Bool-cases, Option-cases, inl, inr, length_pos,
}
use kse_static_rewrite_proxy.Slice.{Bytes}
use kse_static_rewrite_proxy.Slice.Prefix.{starts_with→append, starts_with-length}
use kse_static_rewrite_proxy.Memmem.{Memmem, IsFirst}
use kse_static_rewrite_proxy.Literal.Rewriter.{
  LiteralRewriteMode, inserted_prefix_of, inserted_suffix_of, must_wait, Cursor,
  original_input_ends_with_prefix, write_before, write_match, rewrite_matches,
}
use kse_static_rewrite_proxy.Literal.History.{Remembers}
use kse_static_rewrite_proxy.Literal.Scan.{Clear-append, IsFirst-Clear}
use kse_static_rewrite_proxy.Literal.Steps.{
  written-append, flag_is_prefixed, Moves, Moves-refl, Moves-trans, write_before-Moves,
  write_match-Moves,
}

module _ (memmem : Memmem) (mode : LiteralRewriteMode) (source : Bytes) (end_of_stream : Bool)
    (ne : source ≢ []) where
  -- Where the loop stops: at a match that waits, which the end of the stream excludes, or with no
  -- match left.
  pub record Reaches (before : Bytes) (c : Cursor) (waits : Bool) (c' : Cursor) : Type 0 where
    pub before' : Bytes
    pub moves : Moves mode source end_of_stream before c before' c'
    pub exhausted : waits ≡ false → memmem.find source c'.rest ≡ none
    pub end_waits : end_of_stream ≡ true → waits ≡ false

  module _ (before : Bytes) (c : Cursor) (position : ℕ)
      (h : Remembers (inserted_prefix_of mode) c.history before)
      (first : IsFirst source c.rest position) where
    pub found-Moves :
        Moves mode source end_of_stream before c
          (before ++ take position c.rest)
          (write_before mode position c)
    found-Moves = write_before-Moves mode source end_of_stream before c position h λ future may.
        (Clear-append source (take position c.rest) (drop position c.rest) future
          (omega (arith, starts_with-length source (drop position c.rest) first.here))
          (IsFirst-Clear source c.rest position first.earlier))

    pub matched-Moves :
        must_wait
            (inserted_suffix_of mode)
            end_of_stream
            (drop (length source) (drop position c.rest))
          ≡ false
        → Moves mode source end_of_stream
            (before ++ take position c.rest)
            (write_before mode position c)
            (before ++ take position c.rest ++ source)
            (write_match mode source
              (original_input_ends_with_prefix
                (inserted_prefix_of mode)
                c.history
                (take position c.rest))
              (write_before mode position c))
    unfolding write_before
    matched-Moves goes =
        rw (flag_is_prefixed (inserted_prefix_of mode) c.history before (take position c.rest) h) (
          write_match-Moves mode source end_of_stream (before ++ take position c.rest)
            (write_before mode position c) ne (found-Moves.remembers)
            (starts_with→append source (drop position c.rest) first.here)
            (λ future may. written-append mode source _ end_of_stream _ future may goes))

  must_wait_end :
      (suffix : Option Bytes) (after : Bytes)
      → end_of_stream ≡ true
      → must_wait suffix end_of_stream after ≡ false
  unfolding must_wait
  must_wait_end none after e = refl
  must_wait_end (some s) after e = rw e refl

  -- One round, on each of its three branches.
  module _ (fuel : ℕ) (c : Cursor) where
    round_none :
        memmem.find source c.rest ≡ none
        → rewrite_matches memmem (suc fuel) end_of_stream mode source c ≡ (false, c)
    unfolding rewrite_matches
    round_none e = rw (e, rewrite_matches) refl

    module _ (position : ℕ) (e : memmem.find source c.rest ≡ some position) where
      abbrev found : Cursor
      found = write_before mode position c

      abbrev matched : Cursor
      matched =
          write_match mode source
            (original_input_ends_with_prefix (inserted_prefix_of mode) c.history
              (take position c.rest))
            found

      round_wait :
          must_wait (inserted_suffix_of mode) end_of_stream (drop (length source) found.rest) ≡ true
          → rewrite_matches memmem (suc fuel) end_of_stream mode source c ≡ (true, found)
      unfolding rewrite_matches
      round_wait w = rw (e, rewrite_matches) (rw w refl)

      round_next :
          must_wait (inserted_suffix_of mode) end_of_stream (drop (length source) found.rest)
            ≡ false
          → rewrite_matches memmem (suc fuel) end_of_stream mode source c
            ≡ rewrite_matches memmem fuel end_of_stream mode source matched
      unfolding rewrite_matches
      round_next w = rw (e, rewrite_matches) (rw w refl)

  Reaches-trans :
      {before before' : Bytes} {c d e : Cursor} {waits : Bool}
      → Moves mode source end_of_stream before c before' d
      → Reaches before' d waits e
      → Reaches before c waits e
  Reaches-trans m r = record {
    before' = r.before';
    moves = Moves-trans mode source end_of_stream m r.moves;
    exhausted = r.exhausted;
    end_waits = r.end_waits;
  }

  abbrev Ends : Bytes → Cursor → Bool × Cursor → Type 0
  Ends before c (waits, c') = Reaches before c waits c'

  -- Each round takes a byte at least, so fuel above the length of the text is enough.
  matched_shorter :
      (c : Cursor) (position : ℕ) (e : memmem.find source c.rest ≡ some position)
      → length (matched 0 c position e).rest < length c.rest
  unfolding write_before write_match
  matched_shorter c position e =
      let after = drop position c.rest in
      omega (
        arith,
        length_pos source ne,
        length-drop position c.rest,
        length-drop (length source) after,
        starts_with-length source after (memmem.find_some source c.rest position e).here,
      )

  pub rewrite_matches-Ends :
      (fuel : ℕ) (before : Bytes) (c : Cursor)
      → length c.rest < fuel
      → Remembers (inserted_prefix_of mode) c.history before
      → Ends before c (rewrite_matches memmem fuel end_of_stream mode source c)
  unfolding write_before
  rewrite_matches-Ends zero before c l h = absurd (omega arith)
  rewrite_matches-Ends (suc fuel) before c l h = elim (Option-cases (memmem.find source c.rest)) [
    | inl e ↦ rw (round_none fuel c e) (record {
      before' = before;
      moves = Moves-refl mode source end_of_stream before c h;
      exhausted = λ _. e;
      end_waits = λ _. refl;
    })
    | inr (position, e) ↦
        let first = memmem.find_some source c.rest position e in
        let here = found-Moves before c position h first in
        elim (Bool-cases (
          must_wait (inserted_suffix_of mode) end_of_stream
            (drop (length source) (found fuel c position e).rest))) [
              | inl w ↦ rw (round_wait fuel c position e w) (record {
                before' = _;
                moves = here;
                exhausted = λ f. cc;
                end_waits = λ done. sym w ∙ must_wait_end _ _ done;
              })
              | inr w ↦
                  let there = matched-Moves before c position h first w in
                  let shorter = matched_shorter c position e in
                  rw (round_next fuel c position e w) (
                    Reaches-trans (Moves-trans mode source end_of_stream here there) (
                      rewrite_matches-Ends fuel _ (matched fuel c position e) (omega arith)
                        there.remembers))
            ]
  ]
