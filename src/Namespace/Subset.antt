-- ===== src/Namespace/Subset.antt =====
-- The part of a map that lies under a key prefix, as a map of its own.
use Prim.Native.Nat.Ordering.{eq}
use cosmwasm.Base.{◌≡◌, refl, ◌∙◌, sym, inl, inr, none, some, [], ◌∷◌, ◌++◌, Option-cases, arith}
use cosmwasm.Bytes.{Bytes, cmp, strip}
use cosmwasm.Bytes.Order.{cmp-append, eq_of_cmp}
use cosmwasm.Bytes.Prefix.{strip-append, eq_of_strip, strip-strip, strip-none}
use cosmwasm.BTreeMap
use cosmwasm.BTreeMap.{Record, BTreeMap, Above, IsSorted}
use cosmwasm.BTreeMap.Laws.{Above-trans}

-- The entries whose keys begin with `p`, by what follows it.
unfoldable pub under : Bytes → BTreeMap → BTreeMap
under p [] = []
under p ((j, v) ∷ m) = elim (strip p j) [ none ↦ under p m | some k ↦ (k, v) ∷ under p m ]

pub cmp-strip : (p k j r : Bytes) → strip p j ≡ some r → cmp (p ++ k) j ≡ cmp k r
cmp-strip p k j r h = rw (eq_of_strip p j r h) (cmp-append p k r)

pub strip-cmp : (p k j r : Bytes) → strip p j ≡ some r → cmp j (p ++ k) ≡ cmp r k
strip-cmp p k j r h = rw (eq_of_strip p j r h) (cmp-append p r k)

-- A key under the prefix is not equal to one that is not.
cmp-other : (p k j : Bytes) → strip p j ≡ none → cmp (p ++ k) j ≡ eq → some k ≡ none
cmp-other p k j h e = sym (strip-append p k) ∙ cc (eq_of_cmp (p ++ k) j e)

pub get-under : (p k : Bytes) (m : BTreeMap) → BTreeMap.get (p ++ k) m ≡ BTreeMap.get k (under p m)
unfolding under BTreeMap.get
get-under p k [] = refl
get-under p k ((j, v) ∷ m) = elim (Option-cases (strip p j)) [
  | inl e ↦ ground (arith, e, cmp-other p k j, get-under p k m)
  | inr (r, e) ↦ ground (arith, e, cmp-strip p k j r, get-under p k m)
]

insert-Above :
    (p k v : Bytes) (m : BTreeMap)
    → Above (p ++ k) m
    → BTreeMap.insert k v (under p m) ≡ (k, v) ∷ under p m
unfolding under BTreeMap.insert
insert-Above p k v [] h = refl
insert-Above p k v ((j, w) ∷ m) h = elim (Option-cases (strip p j)) [
  | inl e ↦ rw (e, under) (insert-Above p k v m h.1)
  | inr (r, e) ↦ ground (arith, e, cmp-strip p k j r)
]

pub under-insert :
    (p k v : Bytes) (m : BTreeMap)
    → IsSorted m
    → under p (BTreeMap.insert (p ++ k) v m) ≡ BTreeMap.insert k v (under p m)
unfolding under BTreeMap.insert
under-insert p k v [] s = rw (strip-append p k, under)
under-insert p k v ((j, w) ∷ m) s = elim (Option-cases (strip p j)) [
  | inl e ↦ ground (
    arith,
    e,
    strip-append p k,
    cmp-other p k j,
    insert-Above p k v m,
    Above-trans (p ++ k) j m,
    under-insert p k v m s.1,
  )
  | inr (r, e) ↦ ground (arith, e, strip-append p k, cmp-strip p k j r, under-insert p k v m s.1)
]

pub under-erase :
    (p k : Bytes) (m : BTreeMap)
    → under p (BTreeMap.erase (p ++ k) m) ≡ BTreeMap.erase k (under p m)
unfolding under BTreeMap.erase
under-erase p k [] = refl
under-erase p k ((j, w) ∷ m) = elim (Option-cases (strip p j)) [
  | inl e ↦ ground (arith, e, cmp-other p k j, under-erase p k m)
  | inr (r, e) ↦ ground (arith, e, cmp-strip p k j r, under-erase p k m)
]

under-Above : (p k j : Bytes) (m : BTreeMap) → strip p j ≡ some k → Above j m → Above k (under p m)
unfolding under
under-Above p k j [] h a = tt
under-Above p k j ((i, w) ∷ m) h a = elim (Option-cases (strip p i)) [
  | inl e ↦ rw (e, under) (under-Above p k j m h a.1)
  | inr (r, e) ↦
      rw (e, under)
        (sym (cmp-strip p k i r e) ∙ cc (eq_of_strip p j k h, a.0), under-Above p k j m h a.1)
]

pub under-IsSorted : (p : Bytes) (m : BTreeMap) → IsSorted m → IsSorted (under p m)
unfolding under
under-IsSorted p [] s = tt
under-IsSorted p ((j, w) ∷ m) s = elim (Option-cases (strip p j)) [
  | inl e ↦ rw (e, under) (under-IsSorted p m s.1)
  | inr (r, e) ↦ rw (e, under) (under-Above p r j m e s.0, under-IsSorted p m s.1)
]

-- Two prefixes in turn are their concatenation.
pub under-under : (p q : Bytes) (m : BTreeMap) → under q (under p m) ≡ under (p ++ q) m
unfolding under
under-under p q [] = refl
under-under p q ((j, w) ∷ m) = elim (Option-cases (strip p j)) [
  | inl e ↦ ground (arith, e, strip-none p q j e, under-under p q m)
  | inr (r, e) ↦ ground (arith, e, strip-strip p q j r e, under-under p q m)
]

-- A write under another prefix does not show.
pub under-insert_other :
    (p j v : Bytes) (m : BTreeMap) → strip p j ≡ none → under p (BTreeMap.insert j v m) ≡ under p m
unfolding under BTreeMap.insert
under-insert_other p j v [] h = rw (h, under)
under-insert_other p j v ((i, w) ∷ m) h =
    ground (arith, eq_of_cmp j i, under-insert_other p j v m h)

pub under-erase_other :
    (p j : Bytes) (m : BTreeMap) → strip p j ≡ none → under p (BTreeMap.erase j m) ≡ under p m
unfolding under BTreeMap.erase
under-erase_other p j [] h = refl
under-erase_other p j ((i, w) ∷ m) h = ground (arith, eq_of_cmp j i, under-erase_other p j m h)
