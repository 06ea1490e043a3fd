-- ===== src/Run.antt =====
-- A stage over a whole stream: every chunk is pushed, and then the stage is finished, as
-- `response_body_filter` of src/proxy.rs does it over the chunks of one response.
use kse_static_rewrite_proxy.Base.{
  List, [], ◌∷◌, ◌++◌, ◌≡◌, ◌↔◌, sym, ap, ◌∙◌, some, append_assoc, append-nil, arith,
}
use kse_static_rewrite_proxy.Slice.{Bytes}
use kse_static_rewrite_proxy.Streaming.{
  Streaming, IsStreaming, Concludes, Advances-ok, Advances-err, Advances-panic,
}
use kse_static_rewrite_proxy.Literal.Result.{Result, ok, err, panic, then_ok, then_ok-elim}

abbrev pub flatten : List Bytes → Bytes
flatten [] = []
flatten (c ∷ cs) = c ++ flatten cs

-- The output of the earlier chunks stands in front.
abbrev pub prepended : {S : Type 0} → Bytes → Result Bytes × S → Result Bytes × S
prepended o (ok more, s) = (ok (o ++ more), s)
prepended o (err e, s) = (err e, s)
prepended o (panic, s) = (panic, s)

module _ {S : Type 0} (st : Streaming S) where
  unfoldable pub run : S → List Bytes → Result Bytes × S
  run s [] = st.finish s
  run s (c ∷ cs) = let (pushed, s') = st.push s c in then_ok pushed s' λ o. prepended o (run s' cs)

module _ {S : Type 0} (st : Streaming S) (laws : IsStreaming st) where
  prepended-Concludes :
      (s s' : S) (text out o : Bytes) (q : Result Bytes × S)
      → st.one_shot s' text ≡ st.one_shot s text
      → Concludes st s' text (out ++ o) q
      → Concludes st s text out (prepended o q)
  prepended-Concludes s s' text out o (ok more, t) same c =
      sym same ∙ c ∙ ap some (append_assoc out o more)
  prepended-Concludes s s' text out o (err e, t) same c = sym same ∙ c
  prepended-Concludes s s' text out o (panic, t) same c = c

  run-Concludes :
      (chunks : List Bytes) (s : S) (seen out : Bytes)
      → st.Follows s seen out
      → Concludes st s (seen ++ flatten chunks) out (run st s chunks)
  unfolding run
  run-Concludes [] s seen out f = rw append-nil (laws.conclude s seen out f)
  run-Concludes (c ∷ cs) s seen out f =
      let a = laws.advance s seen out c f in
      let text = append_assoc seen c (flatten cs) in
      then_ok-elim (Concludes st s (seen ++ (c ++ flatten cs)) out) (st.push s c).0 _ _
        (λ e h. rw (← text) (Advances-err st s (seen ++ c) out _ e a h (flatten cs)))
        (λ h. Advances-panic st s (seen ++ c) out _ a h)
        (λ o h.
          prepended-Concludes s (st.push s c).1 (seen ++ (c ++ flatten cs)) out o _
            (laws.push_same s c _)
            (rw text at (
              run-Concludes cs (st.push s c).1 (seen ++ c) (out ++ o)
                (Advances-ok st s (seen ++ c) out _ o a h))))

  Concludes-iff :
      (s : S) (text : Bytes) (q : Result Bytes × S)
      → Concludes st s text [] q
      → (out : Bytes) → (q.0 ≡ ok out) ↔ (st.one_shot s text ≡ some out)
  Concludes-iff s text (ok o, t) c out = rw c (ground arith)
  Concludes-iff s text (err e, t) c out = rw c (ground arith)
  Concludes-iff s text (panic, t) c out = absurd c

  -- However the text is cut into chunks, the stream gives the one-shot result, and it fails exactly
  -- if the text is refused.
  pub run_iff :
      (s : S) (chunks : List Bytes)
      → st.Follows s [] []
      → (out : Bytes) → ((run st s chunks).0 ≡ ok out) ↔ (st.one_shot s (flatten chunks) ≡ some out)
  run_iff s chunks f =
      Concludes-iff s (flatten chunks) (run st s chunks) (run-Concludes chunks s [] [] f)
