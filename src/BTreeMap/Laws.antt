-- ===== src/BTreeMap/Laws.antt =====
-- The map of packages/std/src/storage.rs: the order of the keys, and lookups after writes.
use Prim.Native.Nat.Ordering.{lt}
use cosmwasm.Base.{◌≡◌, refl, ◌≢◌, some, none, [], ◌∷◌, All, arith}
use cosmwasm.Bytes.{Bytes, cmp}
use cosmwasm.Bytes.Order.{cmp_refl, eq_of_cmp, lt_of_gt, lt_trans}
use cosmwasm.BTreeMap.{Record, BTreeMap, get, insert, erase, Above, IsSorted}

pub Above-trans : (a b : Bytes) (m : BTreeMap) → cmp a b ≡ lt → Above b m → Above a m
Above-trans a b [] h s = tt
Above-trans a b (r ∷ m) h s = (lt_trans a b r.0 h s.0, Above-trans a b m h s.1)

-- A property of all entries is kept by a write of an entry that has it.
pub All-insert :
    (P : Record → Type 0) (k v : Bytes) (m : BTreeMap) → P (k, v) → All P m → All P (insert k v m)
unfolding insert
All-insert P k v [] p h = (p, tt)
All-insert P k v (r ∷ m) p h = ground (arith, All-insert P k v m p h.1)

pub All-erase : (P : Record → Type 0) (k : Bytes) (m : BTreeMap) → All P m → All P (erase k m)
unfolding erase
All-erase P k [] h = tt
All-erase P k (r ∷ m) h = ground (arith, All-erase P k m h.1)

pub insert-IsSorted : (k v : Bytes) (m : BTreeMap) → IsSorted m → IsSorted (insert k v m)
unfolding insert
insert-IsSorted k v [] s = (tt, tt)
insert-IsSorted k v ((j, w) ∷ m) s = ground (
  arith,
  insert-IsSorted k v m s.1,
  Above-trans k j m,
  lt_of_gt k j,
  eq_of_cmp k j,
  All-insert (λ r. cmp j r.0 ≡ lt) k v m,
)

pub erase-IsSorted : (k : Bytes) (m : BTreeMap) → IsSorted m → IsSorted (erase k m)
unfolding erase
erase-IsSorted k [] s = tt
erase-IsSorted k ((j, w) ∷ m) s =
    ground (arith, erase-IsSorted k m s.1, All-erase (λ r. cmp j r.0 ≡ lt) k m s.0)

pub get-insert_self : (k v : Bytes) (m : BTreeMap) → get k (insert k v m) ≡ some v
unfolding get insert
get-insert_self k v [] = ground (arith, cmp_refl k)
get-insert_self k v ((j, w) ∷ m) = ground (arith, cmp_refl k, get-insert_self k v m)

pub get-insert_ne : (j k v : Bytes) (m : BTreeMap) → j ≢ k → get j (insert k v m) ≡ get j m
unfolding get insert
get-insert_ne j k v [] h = ground (arith, eq_of_cmp j k)
get-insert_ne j k v ((i, w) ∷ m) h =
    ground (arith, eq_of_cmp j k, eq_of_cmp k i, eq_of_cmp j i, get-insert_ne j k v m h)

pub get-erase_ne : (j k : Bytes) (m : BTreeMap) → j ≢ k → get j (erase k m) ≡ get j m
unfolding get erase
get-erase_ne j k [] h = refl
get-erase_ne j k ((i, w) ∷ m) h =
    ground (arith, eq_of_cmp j k, eq_of_cmp k i, eq_of_cmp j i, get-erase_ne j k m h)

pub get-Above : (k : Bytes) (m : BTreeMap) → Above k m → get k m ≡ none
unfolding get
get-Above k [] h = refl
get-Above k ((j, w) ∷ m) h = ground (arith, get-Above k m h.1)

pub get-erase_self : (k : Bytes) (m : BTreeMap) → IsSorted m → get k (erase k m) ≡ none
unfolding get erase
get-erase_self k [] s = refl
get-erase_self k ((j, w) ∷ m) s =
    ground (arith, eq_of_cmp k j, get-Above k m, get-erase_self k m s.1)
