-- ===== src/BTreeMap.antt =====
-- `BTreeMap<Vec<u8>, Vec<u8>>` of the standard library, as its entries in ascending key order.
pub mod Laws
pub mod Range
use Prim.Native.Nat.Ordering.{lt, eq, gt}
use cosmwasm.Base.{◌≡◌, Option, none, some, List, [], ◌∷◌, All, select, if◌then◌else◌}
use cosmwasm.Bytes.{Bytes, cmp, within}

-- A pair of key and value: `Record` of cosmwasm_std.
abbrev pub Record : Type 0
Record = Bytes × Bytes

abbrev pub BTreeMap : Type 0
BTreeMap = List Record

unfoldable pub get : Bytes → BTreeMap → Option Bytes
get k [] = none
get k ((j, v) ∷ m) = elim (cmp k j) [ eq ↦ some v | _ ↦ get k m ]

unfoldable pub insert : Bytes → Bytes → BTreeMap → BTreeMap
insert k v [] = (k, v) ∷ []
insert k v ((j, w) ∷ m) = elim (cmp k j) [
  | lt ↦ (k, v) ∷ (j, w) ∷ m
  | eq ↦ (k, v) ∷ m
  | gt ↦ (j, w) ∷ insert k v m
]

unfoldable pub erase : Bytes → BTreeMap → BTreeMap
erase k [] = []
erase k ((j, w) ∷ m) = elim (cmp k j) [ eq ↦ m | _ ↦ (j, w) ∷ erase k m ]

-- The entries within the bounds, in key order.
unfoldable pub range : Option Bytes → Option Bytes → BTreeMap → List Record
range a b m = select (λ r. within a b r.0) m

-- Every key of the map lies above `k`.
abbrev pub Above : Bytes → BTreeMap → Type 0
Above k = All (λ r. cmp k r.0 ≡ lt)

abbrev pub IsSorted : BTreeMap → Type 0
IsSorted [] = Unit
IsSorted ((k, v) ∷ m) = Above k m × IsSorted m
