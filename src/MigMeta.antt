-- ===== src/MigMeta.antt =====
-- src/rewrite.rs: `rewrite_mig_meta_base_uri`, with base64 and JSON as an interface.
use kse_static_rewrite_proxy.Base.{
  ℕ, zero, suc, ◌+◌, ◌-◌, Bool, ◌||◌, [], ◌∷◌, ◌++◌, Option, none, some, ◌==◌, if◌then◌else◌,
  length, take, drop,
}
use kse_static_rewrite_proxy.Slice.{Bytes, bytes, equal}
use kse_static_rewrite_proxy.Memmem.{Memmem}

-- The crates base64 and serde_json: `decode` and `encode` of the standard alphabet, `from_slice` and
-- `to_vec` of a JSON value, the string at its key `baseURI`, and the value with that string replaced.
pub record Codec : Type 1 where
  pub Value : Type 0
  pub decode : Bytes → Option Bytes
  pub encode : Bytes → Bytes
  pub from_slice : Bytes → Option Value
  pub to_vec : Value → Option Bytes
  pub base_uri : Value → Option Bytes
  pub with_base_uri : Value → Bytes → Value

unfoldable pub is_ascii_whitespace : ℕ → Bool
is_ascii_whitespace b = b == 32 || (b == 9 || (b == 10 || (b == 12 || b == 13)))

-- The input behind the white space.
unfoldable pub skip_ascii_whitespace : Bytes → Bytes
unfolding is_ascii_whitespace
skip_ascii_whitespace [] = []
skip_ascii_whitespace (b ∷ bs) = if is_ascii_whitespace b then skip_ascii_whitespace bs else b ∷ bs

-- `memchr::memchr`: the place of a byte.
unfoldable pub find_byte : ℕ → Bytes → Option ℕ
find_byte b [] = none
find_byte b (c ∷ cs) =
    let behind = elim (find_byte b cs) as (λ _. Option ℕ) [ none ↦ none | some n ↦ some (suc n) ] in
    if c == b then some 0 else behind

-- What follows the opening quote of an assignment, with the quote.
abbrev quoted : Bytes → Option (ℕ × Bytes)
quoted [] = none
quoted (b ∷ bs) = if b == 39 || b == b'"' then some (b, bs) else none

unfoldable pub assigned : Bytes → Option (ℕ × Bytes)
assigned [] = none
assigned (b ∷ bs) = if b == b'=' then quoted (skip_ascii_whitespace bs) else none

-- The local variables of the loop.
pub record Cursor : Type 0 where
  pub output : Bytes
  pub search_from : ℕ
  pub copied_until : ℕ

abbrev assignment : Bytes
assignment = bytes "window._mig_meta"

module _ (memmem : Memmem) (codec : Codec) (desired_base_uri : Bytes) where
  unfoldable pub rewrite_mig_meta_payload : Bytes → Option Bytes
  rewrite_mig_meta_payload encoded = elim (codec.decode encoded) [
    | none ↦ none
    | some decoded ↦ elim (codec.from_slice decoded) [
      | none ↦ none
      | some metadata ↦ elim (codec.base_uri metadata) [
        | none ↦ none
        | some current ↦
            if equal current (bytes "/proxy/ys1000")
            then (elim (codec.to_vec (codec.with_base_uri metadata desired_base_uri)) [
              | none ↦ none
              | some text ↦ some (codec.encode text)
            ])
            else none
      ]
    ]
  ]

  -- A payload from `encoded_start` to `encoded_end`: both bounds are set, and a rewritten payload is
  -- written behind what stands before it.
  unfoldable pub write_payload : Bytes → ℕ → ℕ → Cursor → Cursor
  write_payload input encoded_start encoded_end c =
      elim (rewrite_mig_meta_payload
        (take (encoded_end - encoded_start) (drop encoded_start input))) [
          | none ↦ record c { search_from = encoded_end + 1 }
          | some rewritten ↦ record {
            output =
                c.output
                ++ (take (encoded_start - c.copied_until) (drop c.copied_until input) ++ rewritten);
            search_from = encoded_end + 1;
            copied_until = encoded_end;
          }
        ]

  -- The loop. Each round searches behind an assignment.
  unfoldable pub rewrite_payloads : ℕ → Bytes → Cursor → Cursor
  rewrite_payloads zero input c = c
  rewrite_payloads (suc fuel) input c = elim (memmem.find assignment (drop c.search_from input)) [
    | none ↦ c
    | some relative_start ↦
        let behind = c.search_from + relative_start + length assignment in
        elim (assigned (skip_ascii_whitespace (drop behind input))) [
          | none ↦ rewrite_payloads fuel input (record c { search_from = behind })
          | some (quote, rest) ↦ elim (find_byte quote rest) [
            | none ↦ c
            | some relative_end ↦
                let encoded_start = length input - length rest in
                rewrite_payloads fuel input
                  (write_payload input encoded_start (encoded_start + relative_end) c)
          ]
        ]
  ]

  unfoldable pub rewrite_mig_meta_base_uri : Bytes → Bytes
  rewrite_mig_meta_base_uri input =
      let start : Cursor = record { output = []; search_from = 0; copied_until = 0 } in
      let c = rewrite_payloads (suc (length input)) input start in
      if c.copied_until == 0 then input else c.output ++ drop c.copied_until input
