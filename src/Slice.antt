-- ===== src/Slice.antt =====
-- The operations on byte slices and strings that the source takes from Rust's standard library.
-- A string is the list of its UTF-8 bytes.
pub mod Prefix
pub mod Text
pub mod Split
pub mod Trim
pub mod Items
use Prim.Native.Char.{code}
use Prim.Native.String.{String}
use kse_static_rewrite_proxy.Base.{
  ℕ, ◌-◌, Bool, true, false, ◌&&◌, List, [], ◌∷◌, Option, none, some, ◌==◌, leb, length, drop,
  if◌then◌else◌,
}

abbrev pub Bytes : Type 0
Bytes = List ℕ

-- The bytes of an ASCII literal.
abbrev pub bytes : String → Bytes
bytes String.[] = []
bytes (String.◌∷◌ c s) = code c ∷ bytes s

-- `a == b` on slices.
unfoldable pub equal : (first second : Bytes) → Bool
equal [] [] = true
equal [] (_ ∷ _) = false
equal (_ ∷ _) [] = false
equal (u ∷ us) (v ∷ vs) = (u == v) && equal us vs

-- `slice.starts_with(needle)`, with the needle first.
unfoldable pub starts_with : Bytes → Bytes → Bool
starts_with [] xs = true
starts_with (n ∷ ns) [] = false
starts_with (n ∷ ns) (x ∷ xs) = n == x && starts_with ns xs

-- `slice.ends_with(needle)`, with the needle first.
unfoldable pub ends_with : Bytes → Bytes → Bool
ends_with needle xs =
    leb (length needle) (length xs) && equal (drop (length xs - length needle) xs) needle
