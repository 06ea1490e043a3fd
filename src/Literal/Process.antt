-- ===== src/Literal/Process.antt =====
-- `process_available` as a whole.
use kse_static_rewrite_proxy.Base.{
  ℕ, zero, suc, ◌+◌, ◌-◌, ◌≤◌, ◌<◌, Bool, true, false, [], ◌++◌, ◌≡◌, ◌≢◌, refl, ◌∙◌, none, ltb,
  if◌then◌else◌, arith, drop, take, length, length-drop, Bool-cases, ◌⊎◌, inl, inr, append-nil,
  drop_all, length_pos,
}
use kse_static_rewrite_proxy.Slice.{Bytes}
use kse_static_rewrite_proxy.Memmem.{Memmem}
use kse_static_rewrite_proxy.Literal.Rewriter.{
  LiteralRewriteMode, inserted_prefix_of, Cursor, write_before, emit, emit_rest, LiteralRewriter,
  process_available,
}
use kse_static_rewrite_proxy.Literal.History.{Remembers}
use kse_static_rewrite_proxy.Literal.Scan.{scan, Clear, Clear-append, IsFirst-Clear}
use kse_static_rewrite_proxy.Literal.Steps.{
  MayFollow, Moves, Moves-refl, Moves-trans, write_before-Moves,
}
use kse_static_rewrite_proxy.Literal.Loop.{Reaches, rewrite_matches-Ends}

module _ (memmem : Memmem) (mode : LiteralRewriteMode) (source : Bytes) (end_of_stream : Bool)
    (ne : source ≢ []) where
  record Emits (before : Bytes) (c c' : Cursor) : Type 0 where
    before' : Bytes
    moves : Moves mode source end_of_stream before c before' c'
    drained : end_of_stream ≡ true → c'.rest ≡ []

  module _ (before : Bytes) (c : Cursor) (h : Remembers (inserted_prefix_of mode) c.history before)
      (e : memmem.find source c.rest ≡ none) where
    -- With no match left, a match can only begin in the last bytes of the text.
    no_match_Clear :
        (n : ℕ) (future : Bytes)
        → n ≤ length c.rest
        → (length source ≤ length (drop n c.rest) + 1) ⊎ (future ≡ [])
        → Clear source (take n c.rest) (drop n c.rest ++ future)
    no_match_Clear n future l enough =
        let now =
          IsFirst-Clear source c.rest n
            (λ i less. memmem.find_none source c.rest e i (omega arith)) in
        elim enough [
          | inl long ↦ Clear-append source (take n c.rest) (drop n c.rest) future long now
          | inr nothing ↦ rw (nothing, append-nil (drop n c.rest)) now
        ]

    emit-Moves :
        (n : ℕ)
        → n ≤ length c.rest
        → (0 < n → length source ≤ length (drop n c.rest) + 1) ⊎ (end_of_stream ≡ true)
        → Moves mode source end_of_stream before c (before ++ take n c.rest) (emit mode n c)
    unfolding emit
    emit-Moves zero l enough = rw append-nil (Moves-refl mode source end_of_stream before c h)
    emit-Moves (suc n) l enough =
        let positive : ltb 0 (suc n) ≡ true = ground arith in
        rw positive (
          write_before-Moves mode source end_of_stream before c (suc n) h
            λ future may. no_match_Clear (suc n) future l (long_enough future enough may))
      where
        long_enough :
            (future : Bytes)
            → (0 < suc n → length source ≤ length (drop (suc n) c.rest) + 1)
              ⊎ (end_of_stream ≡ true)
            → MayFollow end_of_stream future
            → (length source ≤ length (drop (suc n) c.rest) + 1) ⊎ (future ≡ [])
        long_enough future (inl long) may = inl (long (omega arith))
        long_enough future (inr done) (inl more) = absurd (cc (done, more))
        long_enough future (inr done) (inr nothing) = inr nothing

    emit-rest : (n : ℕ) → (emit mode n c).rest ≡ drop n c.rest
    unfolding emit write_before
    emit-rest zero = refl
    emit-rest (suc n) = let positive : ltb 0 (suc n) ≡ true = ground arith in rw positive refl

    emit_rest-Emits : Emits before c (emit_rest end_of_stream mode source c)
    unfolding emit_rest
    emit_rest-Emits = elim (Bool-cases end_of_stream) [
      | inl done ↦
          let n = if end_of_stream then length c.rest else length c.rest - (length source - 1) in
          let all : n ≡ length c.rest = rw done refl in
          record {
            before' = _;
            moves = emit-Moves n (omega arith) (inr done);
            drained = λ _. emit-rest n ∙ drop_all n c.rest (omega arith);
          }
      | inr more ↦
          let n = if end_of_stream then length c.rest else length c.rest - (length source - 1) in
          let most : n ≡ length c.rest - (length source - 1) = rw more refl in
          record {
            before' = _;
            moves =
                emit-Moves n (omega arith)
                  (inl λ pos. omega (arith, length-drop n c.rest, length_pos source ne));
            drained = λ done. absurd (cc (done, more));
          }
    ]

-- What a call of `process_available` does to a rewriter that stands behind the input `before`.
pub record Processed (end_of_stream : Bool) (r : LiteralRewriter) (before output : Bytes)
    (r' : LiteralRewriter) : Type 0 where
  pub before' : Bytes
  pub remembers : Remembers (inserted_prefix_of r.mode) r'.input_history before'
  pub same_input : before' ++ r'.pending ≡ before ++ r.pending
  pub same_result :
      (future : Bytes)
      → MayFollow end_of_stream future
      → output ++ scan r.mode r.source before' 0 (r'.pending ++ future)
        ≡ scan r.mode r.source before 0 (r.pending ++ future)
  pub drained : end_of_stream ≡ true → r'.pending ≡ []

module _ (memmem : Memmem) (end_of_stream : Bool) (r : LiteralRewriter) (ne : r.source ≢ [])
    (before : Bytes) (h : Remembers (inserted_prefix_of r.mode) r.input_history before) where
  abbrev start : Cursor
  start = record { output = []; history = r.input_history; rest = r.pending }

  last : Bool × Cursor → Cursor
  last (waits, c) = if waits then c else emit_rest end_of_stream r.mode r.source c

  stopped-Emits :
      (end : Bool × Cursor)
      → Reaches memmem r.mode r.source end_of_stream ne before start end.0 end.1
      → Emits memmem r.mode r.source end_of_stream ne before start (last end)
  unfolding last
  stopped-Emits (true, c) reached = record {
    before' = reached.before';
    moves = reached.moves;
    drained = λ done. absurd (cc (reached.end_waits done));
  }
  stopped-Emits (false, c) reached =
      let emitted =
        emit_rest-Emits memmem r.mode r.source end_of_stream ne reached.before' c
          reached.moves.remembers (reached.exhausted refl) in
      record {
        before' = emitted.before';
        moves = Moves-trans r.mode r.source end_of_stream reached.moves emitted.moves;
        drained = emitted.drained;
      }

  pub process_available-Processed :
      Processed end_of_stream r before
        (process_available memmem end_of_stream r).0
        (process_available memmem end_of_stream r).1
  unfolding process_available last
  process_available-Processed =
      let e = stopped-Emits _ (
        rewrite_matches-Ends memmem r.mode r.source end_of_stream ne (suc (length r.pending)) before
          start (omega arith) h) in
      record {
        before' = e.before';
        remembers = e.moves.remembers;
        same_input = e.moves.same_input;
        same_result = e.moves.same_result;
        drained = e.drained;
      }
