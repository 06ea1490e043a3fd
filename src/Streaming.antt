-- ===== src/Streaming.antt =====
-- The contract of one stage of a rewrite pipeline: pushed in any chunks, it gives what its one-shot
-- function gives for the whole text. Its clients take it as a parameter.
use kse_static_rewrite_proxy.Base.{◌++◌, ◌≡◌, ◌≢◌, Option, none, some, arith}
use kse_static_rewrite_proxy.Slice.{Bytes}
use kse_static_rewrite_proxy.Literal.Result.{RewriteError, Result, ok, err, panic}

pub record Streaming (S : Type 0) : Type 1 where
  pub push : S → Bytes → Result Bytes × S
  pub finish : S → Result Bytes × S
  -- The result for a whole text, by the configuration alone; `none` if the text is refused.
  pub one_shot : S → Bytes → Option Bytes
  -- The stage has read `seen` and has written `out`.
  pub Follows : S → Bytes → Bytes → Type 0

-- A push goes on, or refuses every text that begins like this. It does not panic.
abbrev pub Advances : {S : Type 0} → Streaming S → S → Bytes → Bytes → Result Bytes × S → Type 0
Advances st s seen out (ok o, s') = st.Follows s' seen (out ++ o)
Advances st s seen out (err e, s') = (future : Bytes) → st.one_shot s (seen ++ future) ≡ none
Advances st s seen out (panic, s') = ⊥

abbrev pub Concludes : {S : Type 0} → Streaming S → S → Bytes → Bytes → Result Bytes × S → Type 0
Concludes st s seen out (ok o, s') = st.one_shot s seen ≡ some (out ++ o)
Concludes st s seen out (err e, s') = st.one_shot s seen ≡ none
Concludes st s seen out (panic, s') = ⊥

pub record IsStreaming {S : Type 0} (st : Streaming S) : Type 0 where
  pub push_same :
      (s : S) (input text : Bytes) → st.one_shot (st.push s input).1 text ≡ st.one_shot s text
  pub advance :
      (s : S) (seen out input : Bytes)
      → st.Follows s seen out
      → Advances st s (seen ++ input) out (st.push s input)
  pub conclude :
      (s : S) (seen out : Bytes) → st.Follows s seen out → Concludes st s seen out (st.finish s)
  -- What is written is never taken back.
  pub extends :
      (s : S) (seen out future all : Bytes)
      → st.Follows s seen out
      → st.one_shot s (seen ++ future) ≡ some all
      → (more : Bytes) × (all ≡ out ++ more)

-- What the contract says of a result, read off its first part.
module _ {S : Type 0} (st : Streaming S) (s : S) (seen out : Bytes) where
  pub Advances-ok :
      (q : Result Bytes × S) (o : Bytes)
      → Advances st s seen out q
      → q.0 ≡ ok o
      → st.Follows q.1 seen (out ++ o)
  Advances-ok (ok x, s') o a e = let same : x ≡ o = ground arith in rw (← same) a
  Advances-ok (err x, s') o a e = cc
  Advances-ok (panic, s') o a e = cc

  pub Advances-err :
      (q : Result Bytes × S) (e : RewriteError)
      → Advances st s seen out q
      → q.0 ≡ err e
      → (future : Bytes) → st.one_shot s (seen ++ future) ≡ none
  Advances-err (ok x, s') y a e = cc
  Advances-err (err x, s') y a e = a
  Advances-err (panic, s') y a e = cc

  pub Advances-panic : (q : Result Bytes × S) → Advances st s seen out q → q.0 ≢ panic
  Advances-panic (ok x, s') a e = cc
  Advances-panic (err x, s') a e = cc
  Advances-panic (panic, s') a e = a

  pub Concludes-ok :
      (q : Result Bytes × S) (o : Bytes)
      → Concludes st s seen out q
      → q.0 ≡ ok o
      → st.one_shot s seen ≡ some (out ++ o)
  Concludes-ok (ok x, s') o a e = let same : x ≡ o = ground arith in rw (← same) a
  Concludes-ok (err x, s') o a e = cc
  Concludes-ok (panic, s') o a e = cc

  pub Concludes-err :
      (q : Result Bytes × S) (e : RewriteError)
      → Concludes st s seen out q
      → q.0 ≡ err e
      → st.one_shot s seen ≡ none
  Concludes-err (ok x, s') y a e = cc
  Concludes-err (err x, s') y a e = a
  Concludes-err (panic, s') y a e = cc

  pub Concludes-panic : (q : Result Bytes × S) → Concludes st s seen out q → q.0 ≢ panic
  Concludes-panic (ok x, s') a e = cc
  Concludes-panic (err x, s') a e = cc
  Concludes-panic (panic, s') a e = a
