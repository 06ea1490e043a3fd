-- ===== src/Literal/Contract.antt =====
-- `StreamingLiteralRewriter` keeps the contract of a stage.
use kse_static_rewrite_proxy.Base.{
  ℕ, ◌≤◌, Bool, true, false, ◌&&◌, [], ◌++◌, ◌≡◌, ◌≢◌, ◌↔◌, refl, Option, none, some, leb,
  if◌then◌else◌, arith, length, if-elim,
}
use kse_static_rewrite_proxy.Slice.{Bytes}
use kse_static_rewrite_proxy.Memmem.{Memmem}
use kse_static_rewrite_proxy.Utf8.{Utf8Check, valid, error, Place, boundary, from_utf8}
use kse_static_rewrite_proxy.Utf8.Laws.{places, from_utf8-Answers}
use kse_static_rewrite_proxy.Streaming.{Streaming}
use kse_static_rewrite_proxy.Literal.Result.{
  RewriteError, already_finished, Result, ok, err, panic, if_ok-elim,
}
use kse_static_rewrite_proxy.Literal.Rewriter.{
  inserted_prefix_of, LiteralRewriter, process_available, push, push_open, push_validated, finish,
  add_input, validate_utf8, usize_max,
}
use kse_static_rewrite_proxy.Literal.Validation.{Tail}
use kse_static_rewrite_proxy.Literal.History.{Remembers}
use kse_static_rewrite_proxy.Literal.Scan.{scan}

unfoldable pub is_utf8 : Bytes → Bool
unfolding from_utf8
is_utf8 text = elim (from_utf8 text) [ valid ↦ true | error _ _ ↦ false ]

-- The pass over the whole text, if it is valid UTF-8 and within the limit.
unfoldable pub rewrite_all : LiteralRewriter → Bytes → Option Bytes
unfolding is_utf8 scan
rewrite_all r text =
    if leb (length text) r.max_bytes && is_utf8 text
    then some (scan r.mode r.source [] 0 text)
    else none

-- The rewriter has read `seen` and has written `out`, and is not finished.
pub record LiteralFollows (r : LiteralRewriter) (seen out : Bytes) : Type 0 where
  pub source_ne : r.source ≢ []
  pub in_range : r.max_bytes ≤ usize_max
  pub open_stream : r.finished ≡ false
  pub counted : r.total_bytes ≡ length seen
  pub in_limit : length seen ≤ r.max_bytes
  pub place : Place
  pub tail : Tail r.utf8_tail place
  pub valid_so_far : places boundary seen ≡ some place
  pub before : Bytes
  pub remembers : Remembers (inserted_prefix_of r.mode) r.input_history before
  pub same_input : before ++ r.pending ≡ seen
  pub same_result :
      (future : Bytes)
      → out ++ scan r.mode r.source before 0 (r.pending ++ future)
        ≡ scan r.mode r.source [] 0 (seen ++ future)

-- The answer of `from_utf8`, as a place.
pub is_utf8-places : (text : Bytes) → (is_utf8 text ≡ true) ↔ (places boundary text ≡ some boundary)
unfolding is_utf8
is_utf8-places text = go (from_utf8 text) refl
  where
    go :
        (r : Utf8Check)
        → from_utf8 text ≡ r
        → (is_utf8 text ≡ true) ↔ (places boundary text ≡ some boundary)
    go valid e = rw (e, is_utf8) (rw (rw e at (from_utf8-Answers text)) (λ _. refl, λ _. refl))
    go (error upto (some n)) e =
        rw (e, is_utf8) (rw (rw e at (from_utf8-Answers text)) (λ h. cc, λ h. cc))
    go (error upto none) e =
        let (q, ends, ne) = rw e at (from_utf8-Answers text) in
        rw (e, is_utf8) (rw ends (λ h. cc, λ h. absurd (ne (ground arith))))

module _ (memmem : Memmem) where
  abbrev pub literal_streaming : Streaming LiteralRewriter
  literal_streaming = record {
    push = push memmem;
    finish = finish memmem;
    one_shot = rewrite_all;
    Follows = LiteralFollows;
  }

  process_available-rewrite_all :
      (end_of_stream : Bool) (r : LiteralRewriter) (text : Bytes)
      → rewrite_all (process_available memmem end_of_stream r).1 text ≡ rewrite_all r text
  unfolding process_available rewrite_all
  process_available-rewrite_all end_of_stream r text = refl

  -- The values that a push computes.
  module _ (r : LiteralRewriter) (input : Bytes) where
    abbrev pub validated : Result (Unit {0}) × Bytes
    validated = validate_utf8 input r.utf8_tail

    abbrev pub received : LiteralRewriter
    received = record r { utf8_tail = validated.1; pending = r.pending ++ input }

    abbrev pub processed : Bytes × LiteralRewriter
    processed = process_available memmem false received

    abbrev pub counted : Result (Unit {0}) × ℕ
    counted = add_input r.max_bytes r.total_bytes (length input)

    abbrev pub counting : LiteralRewriter
    counting = record r { total_bytes = counted.1 }

  -- Its branches, each with what the test found.
  module _ {ℓ} (P : Result Bytes × LiteralRewriter → Type ℓ) (r : LiteralRewriter)
      (input : Bytes) where
    pub push_validated-elim :
        ((e : RewriteError)
          → (validated r input).0 ≡ err e
          → P (err e, record r { utf8_tail = (validated r input).1 }))
        → ((validated r input).0 ≡ panic
            → P (panic, record r { utf8_tail = (validated r input).1 }))
        → ((u : Unit {0})
            → (validated r input).0 ≡ ok u
            → P (ok (processed r input).0, (processed r input).1))
        → P (push_validated memmem r input)
    unfolding push_validated
    push_validated-elim =
        if_ok-elim P (validated r input).0 (record r { utf8_tail = (validated r input).1 })
          (ok (processed r input).0, (processed r input).1)

    pub push_open-elim :
        ((e : RewriteError) → (counted r input).0 ≡ err e → P (err e, (counting r input)))
        → ((counted r input).0 ≡ panic → P (panic, (counting r input)))
        → ((u : Unit {0})
            → (counted r input).0 ≡ ok u
            → P (push_validated memmem (counting r input) input))
        → P (push_open memmem r input)
    unfolding push_open
    push_open-elim =
        if_ok-elim P (counted r input).0 (counting r input)
          (push_validated memmem (counting r input) input)

    pub push-elim :
        (r.finished ≡ true → P (err already_finished, r))
        → (r.finished ≡ false → P (push_open memmem r input))
        → P (push memmem r input)
    unfolding push
    push-elim = if-elim P r.finished (err already_finished, r) (push_open memmem r input)

  pub push-rewrite_all :
      (r : LiteralRewriter) (input text : Bytes)
      → rewrite_all (push memmem r input).1 text ≡ rewrite_all r text
  unfolding rewrite_all
  push-rewrite_all r input text =
      let Same : Result Bytes × LiteralRewriter → Type 0 =
        λ q. rewrite_all q.1 text ≡ rewrite_all r text in
      push-elim Same r input (λ _. refl)
        λ _.
          push_open-elim Same r input (λ _ _. refl) (λ _. refl)
            λ _ _.
              push_validated-elim Same (counting r input) input (λ _ _. refl) (λ _. refl)
                λ _ _. process_available-rewrite_all false (received (counting r input) input) text
