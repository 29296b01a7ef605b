-- ===== src/Memory.antt =====
-- `MemoryStorage` of packages/std/src/storage.rs, the storage of unit tests, as an instance of the
-- storage interface.
use Prim.Native.Nat.Ordering.{gt}
use cosmwasm.Base.{
  ◌≡◌, refl, ◌≢◌, Bool, true, false, Option, none, some, List, [], ◌∷◌, map, Outcome, returns,
  panics, if◌then◌else◌, arith,
}
use cosmwasm.Bytes.{Bytes, cmp}
use cosmwasm.BTreeMap
use cosmwasm.BTreeMap.{Record, BTreeMap, IsSorted}
use cosmwasm.BTreeMap.Laws.{insert-IsSorted, erase-IsSorted}
use cosmwasm.BTreeMap.Range.{range_empty}
use cosmwasm.Storage.{Order, ascending, descending, Storage, IsStorage, in_order}

pub record MemoryStorage : Type 0 where
  pub entries : BTreeMap

pub new : MemoryStorage
new = record { entries = [] }

unfoldable pub get : MemoryStorage → Bytes → Option Bytes
get s key = BTreeMap.get key s.entries

-- `value.is_empty()` panics.
unfoldable pub set : MemoryStorage → Bytes → Bytes → Outcome MemoryStorage
set s key [] = panics
set s key (b ∷ value) = returns (record { entries = BTreeMap.insert key (b ∷ value) s.entries })

pub remove : MemoryStorage → Bytes → MemoryStorage
remove s key = record { entries = BTreeMap.erase key s.entries }

-- `(Bound::Included(start), Bound::Excluded(end)) if start > end`
is_inverted : Option Bytes → Option Bytes → Bool
is_inverted (some start) (some end) = elim (cmp start end) [ gt ↦ true | _ ↦ false ]
is_inverted _ _ = false

pub range : MemoryStorage → Option Bytes → Option Bytes → Order → List (Outcome Record)
unfolding is_inverted
range s start end order =
    if is_inverted start end
    then []
    else map returns (in_order order (BTreeMap.range start end s.entries))

unfoldable pub memory_storage : Storage MemoryStorage
memory_storage = record { get = get; range = range; set = set; remove = remove }

pub record IsValid (s : MemoryStorage) : Type 0 where
  pub sorted : IsSorted s.entries

pub new-IsValid : IsValid new
unfolding new
new-IsValid = record { sorted = tt }

pub set_lem :
    (s : MemoryStorage) (k v : Bytes)
    → IsValid s
    → v ≢ []
    → (s' : MemoryStorage) × (set s k v ≡ returns s')
      × IsValid s'
      × (s'.entries ≡ BTreeMap.insert k v s.entries)
unfolding set
set_lem s k [] h n = absurd (n refl)
set_lem s k (c ∷ v) h n = (
  record { entries = BTreeMap.insert k (c ∷ v) s.entries },
  refl,
  record { sorted = insert-IsSorted k (c ∷ v) s.entries h.sorted },
  refl,
)

pub remove-IsValid : (s : MemoryStorage) (k : Bytes) → IsValid s → IsValid (remove s k)
unfolding remove
remove-IsValid s k h = record { sorted = erase-IsSorted k s.entries h.sorted }

empty_iterator : (o : Order) → map {A = Record} returns (in_order o []) ≡ []
empty_iterator ascending = refl
empty_iterator descending = refl

-- An iterator gives the entries between the bounds, in order, without a panic: the guard against an
-- inverted range does not change what is iterated over.
pub memory_range_lem :
    (s : MemoryStorage) (a b : Option Bytes) (o : Order)
    → range s a b o ≡ map returns (in_order o (BTreeMap.range a b s.entries))
unfolding range
memory_range_lem s none b o = refl
memory_range_lem s (some a) none o = refl
memory_range_lem s (some a) (some b) o = ground (arith, range_empty a b s.entries, empty_iterator o)

-- `MemoryStorage` keeps the storage interface.
unfoldable pub memory_storage-IsStorage : IsStorage memory_storage
unfolding memory_storage get remove
memory_storage-IsStorage = record {
  IsValid = IsValid;
  view = λ s. s.entries;
  view-IsSorted = λ s h. h.sorted;
  get-view = λ s k. refl;
  range-view = λ s a b o h. memory_range_lem s a b o;
  set-view = set_lem;
  remove-view = λ s k h. (remove-IsValid s k h, refl);
}
