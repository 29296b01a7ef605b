-- ===== src/Bytes.antt =====
-- Byte strings, `Vec<u8>` and `&[u8]`: the lexicographic order that Rust's `Ord` gives them, and
-- the prefix test. A byte is a native number, and `IsBytes` says that each lies below 256.
pub mod Order
pub mod Prefix
use Prim.Native.Nat.{compare, Ordering}
use Prim.Native.Nat.Ordering.{lt, eq, gt}
use cosmwasm.Base.{
  ℕ, ◌/◌, ◌%◌, ◌^◌, ◌<◌, ◌≡◌, Bool, true, false, ◌&&◌, Option, none, some, List, [], ◌∷◌, All, ◌==◌,
  if◌then◌else◌,
}

abbrev pub Bytes : Type 0
Bytes = List ℕ

abbrev pub IsByte : ℕ → Type 0
IsByte b = b < 256

abbrev pub IsBytes : Bytes → Type 0
IsBytes = All IsByte

-- `Ord::cmp` of two byte vectors.
unfoldable pub cmp : Bytes → Bytes → Ordering
cmp [] [] = eq
cmp [] (y ∷ ys) = lt
cmp (x ∷ xs) [] = gt
cmp (x ∷ xs) (y ∷ ys) = elim (compare x y) [ lt ↦ lt | eq ↦ cmp xs ys | gt ↦ gt ]

-- What is left of a key behind a prefix.
unfoldable pub strip : Bytes → Bytes → Option Bytes
strip [] k = some k
strip (x ∷ p) [] = none
strip (x ∷ p) (y ∷ k) = if x == y then strip p k else none

-- The bounds of a range: `Bound::Included(start)` and `Bound::Excluded(end)`.
abbrev pub not_below : Option Bytes → Bytes → Bool
not_below none k = true
not_below (some a) k = elim (cmp k a) [ lt ↦ false | _ ↦ true ]

abbrev pub is_below : Option Bytes → Bytes → Bool
is_below none k = true
is_below (some b) k = elim (cmp k b) [ lt ↦ true | _ ↦ false ]

abbrev pub within : Option Bytes → Option Bytes → Bytes → Bool
within a b k = not_below a k && is_below b k

-- `u32::to_be_bytes`
unfoldable pub to_be_bytes32 : ℕ → Bytes
to_be_bytes32 n = n / 2 ^ 24 % 256 ∷ n / 2 ^ 16 % 256 ∷ n / 2 ^ 8 % 256 ∷ n % 256 ∷ []
