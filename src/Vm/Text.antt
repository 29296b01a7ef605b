-- ===== src/Vm/Text.antt =====
-- What the checks of wasm code use of strings: sets of them, `Display` of a `usize`, and
-- `String::truncate`.
pub mod Laws
use Prim.Native.String.{String, len, compare, slice}
use Prim.Native.String
use Prim.Native.Nat.Ordering.{lt, eq, gt}
use text.Mathlib.Text.{◌==◌, is_char_boundary}
use cosmwasm.Base.{
  ℕ, zero, suc, ◌+◌, ◌/◌, ◌%◌, Bool, true, false, ◌||◌, ◌&&◌, List, [], ◌∷◌, Outcome, returns,
  panics, ltb, if◌then◌else◌,
}

-- `BTreeSet<String>`: its elements in ascending order. A `HashSet<String>` is one too; no caller
-- reads the order of its elements.
abbrev pub StringSet : Type 0
StringSet = List String

unfoldable pub insert : String → StringSet → StringSet
insert s [] = s ∷ []
insert s (t ∷ ts) = elim (compare s t) [ lt ↦ s ∷ t ∷ ts | eq ↦ t ∷ ts | gt ↦ t ∷ insert s ts ]

unfoldable pub collect : List String → StringSet
collect [] = []
collect (s ∷ ss) = insert s (collect ss)

unfoldable pub contains : StringSet → String → Bool
contains [] s = false
contains (t ∷ ts) s = t == s || contains ts s

unfoldable pub is_subset : StringSet → StringSet → Bool
is_subset [] other = true
is_subset (s ∷ ss) other = contains other s && is_subset ss other

-- The elements of the first set that the second one lacks.
unfoldable pub difference : StringSet → StringSet → StringSet
difference [] other = []
difference (s ∷ ss) other =
    if contains other s then difference ss other else s ∷ difference ss other

abbrev pub digit : ℕ → String
digit d = slice "0123456789" d (d + 1)

-- The digits of a number, on as much fuel as it may have digits.
unfoldable pub digits : ℕ → ℕ → String
digits zero n = ""
digits (suc fuel) n =
    let rest = digits fuel (n / 10) in
    if ltb n 10 then digit n else String.◌++◌ rest (digit (n % 10))

-- A `usize` has twenty digits at most.
abbrev pub to_decimal : ℕ → String
to_decimal n = digits 20 n

-- `String::truncate`
unfoldable pub truncate : String → ℕ → Outcome String
truncate s n =
    if ltb (len s) n
    then returns s
    else if is_char_boundary s n
    then returns (slice s 0 n)
    else panics
