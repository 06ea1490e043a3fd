-- ===== src/Pipeline/Built.antt =====
-- src/literal.rs: the pipelines that the constructors make of literal and buffered stages. They have
-- read nothing.
use kse_static_rewrite_proxy.Base.{
  ℕ, ◌≤◌, false, List, [], ◌∷◌, ◌++◌, ◌≡◌, ◌≢◌, refl, arith, inl, inr, Option-cases,
}
use kse_static_rewrite_proxy.Slice.{Bytes}
use kse_static_rewrite_proxy.Memmem.{Memmem}
use kse_static_rewrite_proxy.Chain.Laws.{FollowsRest}
use kse_static_rewrite_proxy.Literal.Result.{ok, bind-ok}
use kse_static_rewrite_proxy.Literal.Rewriter as Literal
use kse_static_rewrite_proxy.Literal.Rewriter.{LiteralRewriter, prepend, usize_max}
use kse_static_rewrite_proxy.Literal.Contract.{LiteralFollows}
use kse_static_rewrite_proxy.Literal.Advance.{from_mode-LiteralFollows}
use kse_static_rewrite_proxy.Stage.{StreamingRewriter, literal, StageFollows, stage_streaming}
use kse_static_rewrite_proxy.Pipeline.{
  Pipeline, from_rewriters, prefix_literal_rewriters, exact_literal_rewriters, new, new_with_exact,
  new_with_appended_suffix, with_exact_rules, with_buffered_transform, extended,
}
use kse_static_rewrite_proxy.Pipeline.Contract.{PipelineFollows}

-- A pipeline that calls of the constructors made, with the limit `max_bytes`.
pub data Built (max_bytes : ℕ) : Pipeline → Type 0 where
  by_new :
      (rules : List (Bytes × Bytes)) (p : Pipeline) → new rules max_bytes ≡ ok p → Built max_bytes p
  by_new_with_exact :
      (prefix_rules exact_rules : List (Bytes × Bytes)) (p : Pipeline)
      → new_with_exact prefix_rules exact_rules max_bytes ≡ ok p
      → Built max_bytes p
  by_new_with_appended_suffix :
      (source inserted_suffix : Bytes) (p : Pipeline)
      → new_with_appended_suffix source inserted_suffix max_bytes ≡ ok p
      → Built max_bytes p
  by_with_exact_rules :
      (rules : List (Bytes × Bytes)) (p p' : Pipeline)
      → Built max_bytes p
      → with_exact_rules p rules ≡ ok p'
      → Built max_bytes p'
  by_with_buffered_transform :
      (transform : Bytes → Bytes) (p : Pipeline)
      → Built max_bytes p
      → Built max_bytes (with_buffered_transform p transform)

-- A literal rewriter that a constructor made has read nothing.
new-LiteralFollows :
    (source replacement : Bytes) (r : LiteralRewriter)
    → Literal.new source replacement usize_max ≡ ok r
    → LiteralFollows r [] []
unfolding Literal.new
new-LiteralFollows source replacement r e =
    elim (Option-cases (Literal.strip_suffix source replacement)) [
      | inl missing ↦ let e' = rw (missing, Literal.new) at e in cc
      | inr (inserted_prefix, found) ↦
          from_mode-LiteralFollows source (prepend replacement inserted_prefix) usize_max r
            (omega arith) (rw (found, Literal.new) at e)
    ]

new_exact-LiteralFollows :
    (source replacement : Bytes) (r : LiteralRewriter)
    → Literal.new_exact source replacement usize_max ≡ ok r
    → LiteralFollows r [] []
unfolding Literal.new_exact
new_exact-LiteralFollows source replacement r e =
    from_mode-LiteralFollows source _ usize_max r (omega arith) e

-- Stages that have read nothing.
abbrev Fresh : List StreamingRewriter → Type 0
Fresh [] = Unit {0}
Fresh (s ∷ ss) = StageFollows s [] [] × Fresh ss

Fresh-append : (xs ys : List StreamingRewriter) → Fresh xs → Fresh ys → Fresh (xs ++ ys)
Fresh-append [] ys f g = g
Fresh-append (x ∷ xs) ys (f, fs) g = (f, Fresh-append xs ys fs g)

prefix_literal_rewriters-Fresh :
    (rules : List (Bytes × Bytes)) (ss : List StreamingRewriter)
    → prefix_literal_rewriters rules ≡ ok ss
    → Fresh ss
unfolding prefix_literal_rewriters
prefix_literal_rewriters-Fresh [] ss e = let same : [] ≡ ss = ground arith in rw (← same) tt
prefix_literal_rewriters-Fresh ((source, replacement) ∷ rules) ss e =
    let (r, made, e') = bind-ok _ _ _ e in
    let (rs, others, e'') = bind-ok _ _ _ e' in
    let same : literal r ∷ rs ≡ ss = ground arith in
    rw (← same)
      (new-LiteralFollows source replacement r made, prefix_literal_rewriters-Fresh rules rs others)

exact_literal_rewriters-Fresh :
    (rules : List (Bytes × Bytes)) (ss : List StreamingRewriter)
    → exact_literal_rewriters rules ≡ ok ss
    → Fresh ss
unfolding exact_literal_rewriters
exact_literal_rewriters-Fresh [] ss e = let same : [] ≡ ss = ground arith in rw (← same) tt
exact_literal_rewriters-Fresh ((source, replacement) ∷ rules) ss e =
    let (r, made, e') = bind-ok _ _ _ e in
    let (rs, others, e'') = bind-ok _ _ _ e' in
    let same : literal r ∷ rs ≡ ss = ground arith in
    rw (← same) (
      new_exact-LiteralFollows source replacement r made,
      exact_literal_rewriters-Fresh rules rs others,
    )

append-ne-nil : (xs ys : List StreamingRewriter) → xs ≢ [] → xs ++ ys ≢ []
append-ne-nil [] ys ne = absurd (ne refl)
append-ne-nil (x ∷ xs) ys ne = λ e. cc

-- A pipeline with a stage at least that has read nothing.
pub record IsFresh (max_bytes : ℕ) (p : Pipeline) : Type 0 where
  pub limit : p.max_bytes ≡ max_bytes
  pub total : p.total_bytes ≡ 0
  pub open_stream : p.finished ≡ false
  pub some_stage : p.rewriters ≢ []
  pub stages : Fresh p.rewriters

module _ (max_bytes : ℕ) where
  from_rewriters-IsFresh :
      (ss : List StreamingRewriter) (p : Pipeline)
      → Fresh ss
      → from_rewriters ss max_bytes ≡ ok p
      → IsFresh max_bytes p
  unfolding from_rewriters
  from_rewriters-IsFresh [] p f e = cc
  from_rewriters-IsFresh (s ∷ ss) p f e =
      let made : Pipeline = record {
        rewriters = s ∷ ss;
        max_bytes = max_bytes;
        total_bytes = 0;
        finished = false;
      } in
      let same : made ≡ p = ground arith in
      rw (← same) (record {
        limit = refl;
        total = refl;
        open_stream = refl;
        some_stage = λ e. cc;
        stages = f;
      })

  new-IsFresh :
      (rules : List (Bytes × Bytes)) (p : Pipeline)
      → new rules max_bytes ≡ ok p
      → IsFresh max_bytes p
  unfolding new
  new-IsFresh rules p e =
      let (rs, prefixes, e') = bind-ok _ _ _ e in
      from_rewriters-IsFresh rs p (prefix_literal_rewriters-Fresh rules rs prefixes) e'

  new_with_exact-IsFresh :
      (prefix_rules exact_rules : List (Bytes × Bytes)) (p : Pipeline)
      → new_with_exact prefix_rules exact_rules max_bytes ≡ ok p
      → IsFresh max_bytes p
  unfolding new_with_exact
  new_with_exact-IsFresh prefix_rules exact_rules p e =
      let (rs, prefixes, e') = bind-ok _ _ _ e in
      let (es, exacts, e'') = bind-ok _ _ _ e' in
      from_rewriters-IsFresh (rs ++ es) p
        (Fresh-append rs es (prefix_literal_rewriters-Fresh prefix_rules rs prefixes)
          (exact_literal_rewriters-Fresh exact_rules es exacts))
        e''

  new_with_appended_suffix-IsFresh :
      (source inserted_suffix : Bytes) (p : Pipeline)
      → new_with_appended_suffix source inserted_suffix max_bytes ≡ ok p
      → IsFresh max_bytes p
  unfolding new_with_appended_suffix Literal.new_with_appended_suffix
  new_with_appended_suffix-IsFresh source inserted_suffix p e =
      let (r, made, e') = bind-ok _ _ _ e in
      from_rewriters-IsFresh (literal r ∷ []) p
        (from_mode-LiteralFollows source _ usize_max r (omega arith) made, tt) e'

  -- More stages leave the rest of a pipeline as it was.
  extended-IsFresh :
      (p : Pipeline) (ss : List StreamingRewriter)
      → IsFresh max_bytes p
      → Fresh ss
      → IsFresh max_bytes (extended p ss)
  extended-IsFresh p ss f fs = record {
    limit = f.limit;
    total = f.total;
    open_stream = f.open_stream;
    some_stage = append-ne-nil p.rewriters ss f.some_stage;
    stages = Fresh-append p.rewriters ss f.stages fs;
  }

  with_exact_rules-IsFresh :
      (rules : List (Bytes × Bytes)) (p p' : Pipeline)
      → IsFresh max_bytes p
      → with_exact_rules p rules ≡ ok p'
      → IsFresh max_bytes p'
  unfolding with_exact_rules
  with_exact_rules-IsFresh rules p p' f e =
      let (es, exacts, e') = bind-ok _ _ _ e in
      let same : extended p es ≡ p' = ground arith in
      rw (← same) (extended-IsFresh p es f (exact_literal_rewriters-Fresh rules es exacts))

  pub Built-IsFresh : (p : Pipeline) → Built max_bytes p → IsFresh max_bytes p
  unfolding with_buffered_transform
  Built-IsFresh _ (by_new rules p e) = new-IsFresh rules p e
  Built-IsFresh _ (by_new_with_exact prefix_rules exact_rules p e) =
      new_with_exact-IsFresh prefix_rules exact_rules p e
  Built-IsFresh _ (by_new_with_appended_suffix source inserted_suffix p e) =
      new_with_appended_suffix-IsFresh source inserted_suffix p e
  Built-IsFresh _ (by_with_exact_rules rules p p' b e) =
      with_exact_rules-IsFresh rules p p' (Built-IsFresh p b) e
  Built-IsFresh _ (by_with_buffered_transform transform p b) =
      extended-IsFresh p _ (Built-IsFresh p b)
        (record { open_stream = refl; all_kept = refl; none_written = refl }, tt)

module _ (memmem : Memmem) where
  Fresh-FollowsRest :
      (ss : List StreamingRewriter) → Fresh ss → FollowsRest (stage_streaming memmem) ss [] []
  Fresh-FollowsRest [] f = refl
  Fresh-FollowsRest (s ∷ ss) (f, fs) = ([], f, Fresh-FollowsRest ss fs)

  pub Built-PipelineFollows :
      (max_bytes : ℕ) (p : Pipeline)
      → max_bytes ≤ usize_max
      → Built max_bytes p
      → PipelineFollows memmem p [] []
  Built-PipelineFollows max_bytes p l b =
      let f = Built-IsFresh max_bytes p b in
      let limit = f.limit in
      record {
        in_range = omega arith;
        open_stream = f.open_stream;
        counted = f.total;
        in_limit = omega arith;
        stages = (f.some_stage, Fresh-FollowsRest p.rewriters f.stages);
      }
