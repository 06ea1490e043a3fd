-- ===== src/Chain/Laws.antt =====
-- A chain of stages is a stage: its one-shot function is the composition of theirs.
use kse_static_rewrite_proxy.Base.{
  List, [], ◌∷◌, ◌++◌, ◌≡◌, ◌≢◌, refl, sym, ap, ◌∙◌, Option, none, some, Option-cases, inl, inr,
  append_assoc, append-nil, arith,
}
use mathlib.Core.Path.{fun_ext}
use kse_static_rewrite_proxy.Slice.{Bytes}
use kse_static_rewrite_proxy.Streaming.{
  Streaming, IsStreaming, Advances, Concludes, Advances-ok, Advances-err, Advances-panic,
  Concludes-ok, Concludes-err, Concludes-panic,
}
use kse_static_rewrite_proxy.Literal.Result.{Result, ok, err, panic, then_ok-elim}
use kse_static_rewrite_proxy.Chain.{behind, push_rest, push_all, finish_rest, finish_all}

abbrev pub bind : Option Bytes → (Bytes → Option Bytes) → Option Bytes
bind none k = none
bind (some a) k = k a

module _ {S : Type 0} (st : Streaming S) where
  unfoldable pub one_shot_all : List S → Bytes → Option Bytes
  one_shot_all [] text = some text
  one_shot_all (s ∷ ss) text = bind (st.one_shot s text) (one_shot_all ss)

  abbrev pub FollowsRest : List S → Bytes → Bytes → Type 0
  FollowsRest [] seen out = out ≡ seen
  FollowsRest (s ∷ ss) seen out = (mid : Bytes) × st.Follows s seen mid × FollowsRest ss mid out

  abbrev pub FollowsAll : List S → Bytes → Bytes → Type 0
  FollowsAll ss seen out = (ss ≢ []) × FollowsRest ss seen out

  abbrev pub chain : Streaming (List S)
  chain = record {
    push = push_all st;
    finish = finish_all st;
    one_shot = one_shot_all;
    Follows = FollowsAll;
  }

  -- The stages behind the first, which may be none.
  abbrev rest : Streaming (List S)
  rest = record {
    push = push_rest st;
    finish = finish_all st;
    one_shot = one_shot_all;
    Follows = FollowsRest;
  }

-- A stage in front of others whose outcome is known.
module _ {S : Type 0} (st : Streaming S) (laws : IsStreaming st) (s s' : S) (ss : List S) where
  behind-Advances :
      (seen mid out : Bytes) (q : Result Bytes × List S)
      → ((text : Bytes) → st.one_shot s' text ≡ st.one_shot s text)
      → st.Follows s' seen mid
      → Advances (rest st) ss mid out q
      → Advances (rest st) (s ∷ ss) seen out (behind s' q)
  unfolding one_shot_all
  behind-Advances seen mid out (ok o, ss') same f a = (mid, f, a)
  behind-Advances seen mid out (err e, ss') same f a = λ future.
      elim (Option-cases (st.one_shot s (seen ++ future))) [
        | inl refused ↦ rw refused refl
        | inr (all, accepted) ↦
            let (more, grown) =
              laws.extends s' seen mid future all f (same (seen ++ future) ∙ accepted) in
            rw (accepted, grown) (a more)
      ]
  behind-Advances seen mid out (panic, ss') same f a = a

  behind-Concludes :
      (text all out : Bytes) (q : Result Bytes × List S)
      → st.one_shot s text ≡ some all
      → Concludes (rest st) ss all out q
      → Concludes (rest st) (s ∷ ss) text out (behind s' q)
  unfolding one_shot_all
  behind-Concludes text all out (ok o, ss') accepted c = rw accepted c
  behind-Concludes text all out (err e, ss') accepted c = rw accepted c
  behind-Concludes text all out (panic, ss') accepted c = c

module _ {S : Type 0} (st : Streaming S) (laws : IsStreaming st) where
  push_rest-same :
      (ss : List S) (input text : Bytes)
      → one_shot_all st (push_rest st ss input).1 text ≡ one_shot_all st ss text
  unfolding push_rest one_shot_all
  push_rest-same [] input text = refl
  push_rest-same (s ∷ ss) input text =
      let same = ap (λ o. bind o (one_shot_all st ss)) (laws.push_same s input text) in
      then_ok-elim (λ q. one_shot_all st q.1 text ≡ one_shot_all st (s ∷ ss) text)
        (st.push s input).0 _ _ (λ _ _. same) (λ _. same)
        (λ output _.
          ap (bind (st.one_shot (st.push s input).1 text)) (fun_ext (push_rest-same ss output))
          ∙ same)

  push_rest-advance :
      (ss : List S) (seen out input : Bytes)
      → FollowsRest st ss seen out
      → Advances (rest st) ss (seen ++ input) out (push_rest st ss input)
  unfolding push_rest one_shot_all
  push_rest-advance [] seen out input f = rw f refl
  push_rest-advance (s ∷ ss) seen out input (mid, f, fs) =
      let a = laws.advance s seen mid input f in
      then_ok-elim (Advances (rest st) (s ∷ ss) (seen ++ input) out) (st.push s input).0 _ _
        (λ e h future. rw (Advances-err st s (seen ++ input) mid _ e a h future) refl)
        (λ h. Advances-panic st s (seen ++ input) mid _ a h)
        (λ output h.
          behind-Advances st laws s (st.push s input).1 ss (seen ++ input) (mid ++ output) out
            (push_rest st ss output) (laws.push_same s input)
            (Advances-ok st s (seen ++ input) mid _ output a h)
            (push_rest-advance ss mid out output fs))

  finish_rest-conclude :
      (ss : List S) (seen out output : Bytes)
      → FollowsRest st ss seen out
      → Concludes (rest st) ss (seen ++ output) out (finish_rest st output ss)
  unfolding finish_rest one_shot_all
  finish_rest-conclude [] seen out output f = rw f refl
  finish_rest-conclude (s ∷ ss) seen out output (mid, f, fs) =
      let Goal : Result Bytes × List S → Type 0 =
        Concludes (rest st) (s ∷ ss) (seen ++ output) out in
      let s' = (st.push s output).1 in
      let same = laws.push_same s output (seen ++ output) in
      let a = laws.advance s seen mid output f in
      then_ok-elim Goal (st.push s output).0 _ _
        (λ e h.
          rw
            (ap (st.one_shot s) (sym (append-nil (seen ++ output)))
              ∙ Advances-err st s (seen ++ output) mid _ e a h [])
            refl)
        (λ h. Advances-panic st s (seen ++ output) mid _ a h)
        (λ next h.
          let c =
            laws.conclude s' (seen ++ output) (mid ++ next)
              (Advances-ok st s (seen ++ output) mid _ next a h) in
          then_ok-elim Goal (st.finish s').0 _ _
            (λ e k. rw (sym same ∙ Concludes-err st s' (seen ++ output) (mid ++ next) _ e c k) refl)
            (λ k. Concludes-panic st s' (seen ++ output) (mid ++ next) _ c k)
            (λ more k.
              behind-Concludes st laws s _ ss (seen ++ output) (mid ++ (next ++ more)) out
                (finish_rest st (next ++ more) ss)
                (sym same
                  ∙ Concludes-ok st s' (seen ++ output) (mid ++ next) _ more c k
                  ∙ ap some (append_assoc mid next more))
                (finish_rest-conclude ss mid out (next ++ more) fs)))

  rest-extends :
      (ss : List S) (seen out future all : Bytes)
      → FollowsRest st ss seen out
      → one_shot_all st ss (seen ++ future) ≡ some all
      → (more : Bytes) × (all ≡ out ++ more)
  unfolding one_shot_all
  rest-extends [] seen out future all f e = (future, rw f (ground arith))
  rest-extends (s ∷ ss) seen out future all (mid, f, fs) e =
      elim (Option-cases (st.one_shot s (seen ++ future))) [
        | inl refused ↦ let e' = rw refused at e in cc
        | inr (m, accepted) ↦
            let (more, grown) = laws.extends s seen mid future m f accepted in
            rest-extends ss mid out more all fs (rw (accepted, grown) at e)
      ]

  finish_all-conclude :
      (ss : List S) (seen out : Bytes)
      → FollowsAll st ss seen out
      → Concludes (chain st) ss seen out (finish_all st ss)
  unfolding finish_all one_shot_all
  finish_all-conclude [] seen out (ne, f) = ne refl
  finish_all-conclude (s ∷ ss) seen out (ne, (mid, f, fs)) =
      let c = laws.conclude s seen mid f in
      then_ok-elim (Concludes (chain st) (s ∷ ss) seen out) (st.finish s).0 _ _
        (λ e k. rw (Concludes-err st s seen mid _ e c k) refl)
        (λ k. Concludes-panic st s seen mid _ c k)
        (λ output k.
          behind-Concludes st laws s _ ss seen (mid ++ output) out (finish_rest st output ss)
            (Concludes-ok st s seen mid _ output c k) (finish_rest-conclude ss mid out output fs))

  push_all-same :
      (ss : List S) (input text : Bytes)
      → one_shot_all st (push_all st ss input).1 text ≡ one_shot_all st ss text
  unfolding push_all
  push_all-same [] input text = refl
  push_all-same (s ∷ ss) input text = push_rest-same (s ∷ ss) input text

  push_rest-ne-nil : (s : S) (ss : List S) (input : Bytes) → (push_rest st (s ∷ ss) input).1 ≢ []
  unfolding push_rest
  push_rest-ne-nil s ss input =
      then_ok-elim (λ q. q.1 ≢ []) (st.push s input).0 _ _ (λ _ _ e. cc) (λ _ e. cc) (λ _ _ e. cc)

  Advances-chain :
      (ss : List S) (seen out : Bytes) (q : Result Bytes × List S)
      → q.1 ≢ []
      → Advances (rest st) ss seen out q
      → Advances (chain st) ss seen out q
  Advances-chain ss seen out (ok o, ss') ne a = (ne, a)
  Advances-chain ss seen out (err e, ss') ne a = a
  Advances-chain ss seen out (panic, ss') ne a = a

  push_all-advance :
      (ss : List S) (seen out input : Bytes)
      → FollowsAll st ss seen out
      → Advances (chain st) ss (seen ++ input) out (push_all st ss input)
  unfolding push_all
  push_all-advance [] seen out input (ne, f) = absurd (ne refl)
  push_all-advance (s ∷ ss) seen out input (ne, f) =
      Advances-chain (s ∷ ss) (seen ++ input) out _ (push_rest-ne-nil s ss input)
        (push_rest-advance (s ∷ ss) seen out input f)

  -- A chain with a stage at least is a stage.
  pub chain-IsStreaming : IsStreaming (chain st)
  chain-IsStreaming = record {
    push_same = push_all-same;
    advance = push_all-advance;
    conclude = finish_all-conclude;
    extends = λ ss seen out future all f. rest-extends ss seen out future all f.1;
  }
