-- ===== src/Slice/Items.antt =====
-- Lists in the value of a header: items between separators, each with a space behind it.
use kse_static_rewrite_proxy.Base.{
  ℕ, true, false, List, [], ◌∷◌, ◌++◌, map, ◌≡◌, ◌≢◌, refl, ap, ◌∙◌, ◌==◌, Each,
}
use kse_static_rewrite_proxy.Slice.{Bytes}
use kse_static_rewrite_proxy.Slice.Text.{all_bytes, contains_byte}
use kse_static_rewrite_proxy.Slice.Split.{
  split, join, trim, longer_first, split-append, split-single, split-ne-nil, all_bytes-append,
}
use kse_static_rewrite_proxy.Slice.Trim.{trim-space}
use kse_static_rewrite_proxy.Http.{all_visible, is_visible}

-- A trimmed item without the separator, and visible ASCII.
abbrev pub IsListItem : ℕ → Bytes → Type 0
IsListItem b item = (contains_byte b item ≡ false) × (trim item ≡ item) × (all_visible item ≡ true)

module _ (b : ℕ) where
  parts-space :
      (text : Bytes) → (32 == b) ≡ false → map trim (split b (32 ∷ text)) ≡ map trim (split b text)
  unfolding split
  parts-space text differs = rw differs (go (split b text) (split-ne-nil b text))
    where
      go : (parts : List Bytes) → parts ≢ [] → map trim (longer_first 32 parts) ≡ map trim parts
      go [] ne = absurd (ne refl)
      go (part ∷ parts) ne = rw (trim-space part) refl

  parts-separator :
      (item rest : Bytes)
      → IsListItem b item
      → map trim (split b (item ++ (b ∷ rest))) ≡ item ∷ map trim (split b rest)
  parts-separator item rest (free, trimmed, shown) =
      rw (split-append b item rest, split-single b item free, trimmed) refl

  -- Splitting a joined list and trimming the parts gives the items back.
  pub parts-join :
      (item : Bytes) (items : List Bytes)
      → (32 == b) ≡ false
      → IsListItem b item
      → Each (IsListItem b) items
      → map trim (split b (join (b ∷ (32 ∷ [])) (item ∷ items))) ≡ item ∷ items
  unfolding join
  parts-join item [] differs (free, trimmed, shown) k = rw (split-single b item free, trimmed) refl
  parts-join item (next ∷ items) differs h k =
      parts-separator item (32 ∷ join (b ∷ (32 ∷ [])) (next ∷ items)) h
      ∙ ap (◌∷◌ item) (
          parts-space (join (b ∷ (32 ∷ [])) (next ∷ items)) differs
          ∙ parts-join next items differs k.0 k.1)

  visible_separator :
      (item text : Bytes)
      → is_visible b ≡ true
      → all_visible item ≡ true
      → all_visible text ≡ true
      → all_visible (item ++ (b ∷ (32 ∷ text))) ≡ true
  unfolding all_bytes
  visible_separator item text shown h k =
      rw (all_bytes-append is_visible item (b ∷ (32 ∷ text)), h, shown) k

  pub join-visible :
      (item : Bytes) (items : List Bytes)
      → is_visible b ≡ true
      → IsListItem b item
      → Each (IsListItem b) items
      → all_visible (join (b ∷ (32 ∷ [])) (item ∷ items)) ≡ true
  unfolding join
  join-visible item [] shown h k = h.2
  join-visible item (next ∷ items) shown h k =
      visible_separator item (join (b ∷ (32 ∷ [])) (next ∷ items)) shown h.2
        (join-visible next items shown k.0 k.1)
