-- ===== src/Literal/Advance.antt =====
-- `push` and `finish` of the literal rewriter keep the contract of a stage.
use kse_static_rewrite_proxy.Base.{
  ℕ, ◌+◌, ◌≤◌, ◌<◌, true, false, [], ◌∷◌, ◌++◌, ◌≡◌, ◌≢◌, refl, sym, ap, ◌∙◌, Option, none, some,
  leb, ltb, arith, length, length-append, if-elim, inl, inr, append-nil, append_assoc,
}
use kse_static_rewrite_proxy.Slice.{Bytes}
use kse_static_rewrite_proxy.Memmem.{Memmem}
use kse_static_rewrite_proxy.Utf8.{Place, boundary}
use kse_static_rewrite_proxy.Utf8.Laws.{places, places-append}
use kse_static_rewrite_proxy.Streaming.{Streaming, Advances, Concludes, IsStreaming}
use kse_static_rewrite_proxy.Literal.Result.{RewriteError, Result, ok, err, panic}
use kse_static_rewrite_proxy.Literal.Rewriter.{
  LiteralRewriteMode, LiteralRewriter, process_available, push, finish, add_input, usize_max,
  from_mode, inserted_prefix_of,
}
use kse_static_rewrite_proxy.Literal.Validation.{
  Tail, Tail-empty, Validates, validate_utf8-Validates,
}
use kse_static_rewrite_proxy.Literal.History.{Remembers-empty}
use kse_static_rewrite_proxy.Literal.Scan.{scan}
use kse_static_rewrite_proxy.Literal.Process.{process_available-Processed}
use kse_static_rewrite_proxy.Literal.Contract.{
  is_utf8-places, rewrite_all, LiteralFollows, literal_streaming, validated, received, processed,
  counted, counting, push_validated-elim, push_open-elim, push-elim, push-rewrite_all,
}

-- The two ways for a text to be refused, and the one to be accepted.
rewrite_all-long :
    (r : LiteralRewriter) (text : Bytes) → r.max_bytes < length text → rewrite_all r text ≡ none
unfolding rewrite_all
rewrite_all-long r text l =
    let long : leb (length text) r.max_bytes ≡ false = ground arith in rw long refl

rewrite_all-invalid :
    (r : LiteralRewriter) (text : Bytes)
    → places boundary text ≢ some boundary
    → rewrite_all r text ≡ none
unfolding rewrite_all
rewrite_all-invalid r text ne = ground (arith, (is_utf8-places text).0)

rewrite_all-valid :
    (r : LiteralRewriter) (text : Bytes)
    → length text ≤ r.max_bytes
    → places boundary text ≡ some boundary
    → rewrite_all r text ≡ some (scan r.mode r.source [] 0 text)
unfolding rewrite_all
rewrite_all-valid r text l h = rw ((is_utf8-places text).1 h) (ground arith)

rewrite_all-eq-some :
    (r : LiteralRewriter) (text all : Bytes)
    → rewrite_all r text ≡ some all
    → all ≡ scan r.mode r.source [] 0 text
unfolding rewrite_all
rewrite_all-eq-some r text all e = ground arith

-- What `add_input` found.
module _ (max_bytes total added : ℕ) (in_range : max_bytes ≤ usize_max) where
  pub add_input-err :
      (e : RewriteError) → (add_input max_bytes total added).0 ≡ err e → max_bytes < total + added
  unfolding add_input
  add_input-err e h = ground arith

  pub add_input-ok :
      (u : Unit {0})
      → (add_input max_bytes total added).0 ≡ ok u
      → ((add_input max_bytes total added).1 ≡ total + added) × (total + added ≤ max_bytes)
  unfolding add_input
  add_input-ok u h = ground arith

  pub add_input-panic : (add_input max_bytes total added).0 ≢ panic
  unfolding add_input
  add_input-panic h = ground arith

-- What a validation found.
Validates-ok :
    (v : Result (Unit {0}) × Bytes) (end : Option Place) (u : Unit {0})
    → Validates v end
    → v.0 ≡ ok u
    → (q : Place) × (end ≡ some q) × Tail v.1 q
Validates-ok (ok _, tail) end u h e = h
Validates-ok (err _, tail) end u h e = cc
Validates-ok (panic, tail) end u h e = absurd h

Validates-err :
    (v : Result (Unit {0}) × Bytes) (end : Option Place) (x : RewriteError)
    → Validates v end
    → v.0 ≡ err x
    → end ≡ none
Validates-err (ok _, tail) end x h e = cc
Validates-err (err _, tail) end x h e = h.1
Validates-err (panic, tail) end x h e = absurd h

Validates-panic :
    (v : Result (Unit {0}) × Bytes) (end : Option Place) → Validates v end → v.0 ≢ panic
Validates-panic (ok _, tail) end h e = cc
Validates-panic (err _, tail) end h e = cc
Validates-panic (panic, tail) end h e = h

places-append_none :
    (seen input future : Bytes) (place : Place)
    → places boundary seen ≡ some place
    → places place input ≡ none
    → places boundary ((seen ++ input) ++ future) ≡ none
places-append_none seen input future place h e =
    places-append boundary (seen ++ input) future
    ∙ rw (places-append boundary seen input, h, e) refl

Tail-open :
    (tail : Bytes) (place : Place) → Tail tail place → ltb 0 (length tail) ≡ true → place ≢ boundary
Tail-open [] place t h = cc
Tail-open (b ∷ bs) place t h = t.unfinished.1

Tail-closed :
    (tail : Bytes) (place : Place)
    → Tail tail place
    → ltb 0 (length tail) ≡ false
    → place ≡ boundary
Tail-closed [] place t h = t.unfinished
Tail-closed (b ∷ bs) place t h = ground arith

module _ (memmem : Memmem) (r : LiteralRewriter) (seen out : Bytes)
    (f : LiteralFollows r seen out) where
  abbrev streaming : Streaming LiteralRewriter
  streaming = literal_streaming memmem

  module _ (input : Bytes) where
    abbrev counting_r : LiteralRewriter
    counting_r = counting memmem r input

    abbrev received_r : LiteralRewriter
    received_r = received memmem counting_r input

    found : Validates (validated memmem counting_r input) (places f.place input)
    found = validate_utf8-Validates r.utf8_tail input f.place f.tail

    advance_ok :
        (u v : Unit {0})
        → (counted memmem r input).0 ≡ ok u
        → (validated memmem counting_r input).0 ≡ ok v
        → LiteralFollows
            (processed memmem counting_r input).1
            (seen ++ input)
            (out ++ (processed memmem counting_r input).0)
    unfolding process_available
    advance_ok u v c e =
        let total = add_input-ok r.max_bytes r.total_bytes (length input) f.in_range u c in
        let (q, ends, tail) = Validates-ok _ (places f.place input) v found e in
        let p =
          process_available-Processed memmem false received_r f.source_ne f.before f.remembers in
        let l = length-append seen input in
        let counted_before = f.counted in
        record {
          source_ne = f.source_ne;
          in_range = f.in_range;
          open_stream = f.open_stream;
          counted = omega arith;
          in_limit = omega arith;
          place = q;
          tail = tail;
          valid_so_far = places-append boundary seen input ∙ rw f.valid_so_far ends;
          before = p.before';
          remembers = p.remembers;
          same_input =
              p.same_input
              ∙ sym (append_assoc f.before r.pending input)
              ∙ ap (λ (xs : Bytes). xs ++ input) f.same_input;
          same_result = λ future.
              append_assoc out _ _
              ∙ ap (◌++◌ out) (
                  p.same_result future (inl refl)
                  ∙ ap (scan r.mode r.source f.before 0) (append_assoc r.pending input future))
              ∙ f.same_result (input ++ future)
              ∙ ap (scan r.mode r.source [] 0) (sym (append_assoc seen input future));
        }

    advance : Advances streaming r (seen ++ input) out (push memmem r input)
    advance =
        let Goal : Result Bytes × LiteralRewriter → Type 0 =
          Advances streaming r (seen ++ input) out in
        push-elim memmem Goal r input (λ done. absurd (cc (done, f.open_stream)))
          λ _.
            push_open-elim memmem Goal r input (λ x c future. too_long x c future)
              (λ c. add_input-panic r.max_bytes r.total_bytes (length input) f.in_range c)
              λ u c.
                push_validated-elim memmem Goal counting_r input (λ x e future. not_utf8 x e future)
                  (λ e. Validates-panic _ _ found e) λ v e. advance_ok u v c e
      where
        too_long :
            (x : RewriteError)
            → (counted memmem r input).0 ≡ err x
            → (future : Bytes) → rewrite_all r ((seen ++ input) ++ future) ≡ none
        too_long x c future =
            let over = add_input-err r.max_bytes r.total_bytes (length input) f.in_range x c in
            let counted_before = f.counted in
            rewrite_all-long r ((seen ++ input) ++ future)
              (omega (arith, length-append seen input, length-append (seen ++ input) future))

        not_utf8 :
            (x : RewriteError)
            → (validated memmem counting_r input).0 ≡ err x
            → (future : Bytes) → rewrite_all r ((seen ++ input) ++ future) ≡ none
        not_utf8 x e future =
            let stuck =
              places-append_none seen input future f.place f.valid_so_far
                (Validates-err _ _ x found e) in
            rewrite_all-invalid r ((seen ++ input) ++ future) (λ h. cc (stuck, h))

  abbrev closing : LiteralRewriter
  closing = record r { finished = true }

  abbrev closed : Bytes × LiteralRewriter
  closed = process_available memmem true closing

  drained_result : out ++ closed.0 ≡ scan r.mode r.source [] 0 seen
  unfolding scan
  drained_result =
      let p = process_available-Processed memmem true closing f.source_ne f.before f.remembers in
      let last : scan r.mode r.source p.before' 0 (closed.1.pending ++ []) ≡ [] =
        rw (p.drained refl) refl in
      ap (◌++◌ out)
        (sym (append-nil closed.0) ∙ ap (◌++◌ closed.0) (sym last) ∙ p.same_result [] (inr refl))
      ∙ f.same_result []
      ∙ ap (scan r.mode r.source [] 0) (append-nil seen)

  conclude : Concludes streaming r seen out (finish memmem r)
  unfolding finish
  conclude =
      let Goal : Result Bytes × LiteralRewriter → Type 0 = Concludes streaming r seen out in
      if-elim Goal r.finished _ _ (λ done. absurd (cc (done, f.open_stream)))
        λ _.
          if-elim Goal (ltb 0 (length r.utf8_tail)) _ _
            (λ h. rewrite_all-invalid r seen (λ e. open_tail h e))
            λ h.
              rewrite_all-valid r seen f.in_limit
                (f.valid_so_far ∙ ap some (Tail-closed r.utf8_tail f.place f.tail h))
              ∙ ap some (sym drained_result)
    where
      open_tail : ltb 0 (length r.utf8_tail) ≡ true → places boundary seen ≡ some boundary → ⊥
      open_tail h e =
          let same = f.valid_so_far in Tail-open r.utf8_tail f.place f.tail h (ground arith)

  extends :
      (future all : Bytes)
      → rewrite_all r (seen ++ future) ≡ some all
      → (more : Bytes) × (all ≡ out ++ more)
  extends future all e = (
    scan r.mode r.source f.before 0 (r.pending ++ future),
    rewrite_all-eq-some r (seen ++ future) all e ∙ sym (f.same_result future),
  )

module _ (memmem : Memmem) where
  -- The literal rewriter is a stage, whatever its mode.
  pub literal-IsStreaming : IsStreaming (literal_streaming memmem)
  literal-IsStreaming = record {
    push_same = push-rewrite_all memmem;
    advance = λ r seen out input f. advance memmem r seen out f input;
    conclude = λ r seen out f. conclude memmem r seen out f;
    extends = λ r seen out future all f. extends memmem r seen out f future all;
  }

-- A rewriter that was just made has read nothing.
pub from_mode-LiteralFollows :
    (source : Bytes) (mode : LiteralRewriteMode) (max_bytes : ℕ) (r : LiteralRewriter)
    → max_bytes ≤ usize_max
    → from_mode source mode max_bytes ≡ ok r
    → LiteralFollows r [] []
unfolding from_mode
from_mode-LiteralFollows [] mode max_bytes r l e = cc
from_mode-LiteralFollows (b ∷ bs) mode max_bytes r l e =
    let new : LiteralRewriter = record {
      source = b ∷ bs;
      mode = mode;
      max_bytes = max_bytes;
      total_bytes = 0;
      pending = [];
      input_history = [];
      utf8_tail = [];
      finished = false;
    } in
    let same : new ≡ r = ground arith in
    rw (← same) (record {
      source_ne = λ e. cc;
      in_range = l;
      open_stream = refl;
      counted = refl;
      in_limit = omega arith;
      place = boundary;
      tail = Tail-empty;
      valid_so_far = Tail-empty.reads;
      before = [];
      remembers = Remembers-empty (inserted_prefix_of mode);
      same_input = refl;
      same_result = λ future. refl;
    })
