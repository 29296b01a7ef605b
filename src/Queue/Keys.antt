-- ===== src/Queue/Keys.antt =====
-- Entries under keys of one byte that count up.
use Prim.Native.Nat.Ordering.{gt}
use mathlib.Core.List.{reverse-append}
use cosmwasm.Base.{
  ℕ, suc, ◌+◌, ◌<◌, ◌≡◌, refl, ap, none, some, List, [], ◌∷◌, ◌++◌, map, reverse, length, returns,
  arith,
}
use cosmwasm.Bytes.{Bytes, cmp}
use cosmwasm.Bytes.Order.{cmp_refl}
use cosmwasm.BTreeMap
use cosmwasm.BTreeMap.{Record, BTreeMap}
use cosmwasm.Queue.Items.{next, items}

abbrev pub entries : ℕ → List Bytes → List Record
entries a [] = []
entries a (v ∷ vs) = (a ∷ [], v) ∷ entries (suc a) vs

pub range_all : (m : BTreeMap) → BTreeMap.range none none m ≡ m
unfolding BTreeMap.range
range_all [] = refl
range_all (r ∷ m) = ap (λ t. r ∷ t) (range_all m)

cmp_of_lt : (j n : ℕ) → j < n → cmp (n ∷ []) (j ∷ []) ≡ gt
unfolding cmp
cmp_of_lt j n h = ground arith

insert-entries :
    (a n : ℕ) (v : Bytes) (vs : List Bytes)
    → n ≡ a + length vs
    → BTreeMap.insert (n ∷ []) v (entries a vs) ≡ entries a (vs ++ (v ∷ []))
unfolding BTreeMap.insert
insert-entries a n v [] h = let e : n ≡ a = omega arith in ap (λ k. (k ∷ [], v) ∷ []) e
insert-entries a n v (w ∷ ws) h =
    rw (BTreeMap.insert, cmp_of_lt a n (omega arith))
      (ap (λ t. (a ∷ [], w) ∷ t) (insert-entries (suc a) n v ws (omega arith)))

pub insert_last :
    (a : ℕ) (v : Bytes) (vs : List Bytes)
    → BTreeMap.insert ((a + length vs) ∷ []) v (entries a vs) ≡ entries a (vs ++ (v ∷ []))
insert_last a v vs = insert-entries a (a + length vs) v vs refl

pub erase_first : (k v : Bytes) (m : BTreeMap) → BTreeMap.erase k ((k, v) ∷ m) ≡ m
unfolding BTreeMap.erase
erase_first k v m = rw (BTreeMap.erase, cmp_refl k) refl

-- The last entry, and those before it.
split_last :
    (a : ℕ) (v : Bytes) (vs : List Bytes)
    → (l : List Record) × (w : Bytes) × (entries a (v ∷ vs) ≡ l ++ (((a + length vs) ∷ [], w) ∷ []))
split_last a v [] = let e : a ≡ a + 0 = omega arith in ([], v, ap (λ k. (k ∷ [], v) ∷ []) e)
split_last a v (w ∷ ws) =
    let (l, x, h) = split_last (suc a) w ws in
    let e : suc a + length ws ≡ a + suc (length ws) = omega arith in
    ((a ∷ [], v) ∷ l, x, ap (λ t. (a ∷ [], v) ∷ t) (rw e at h))

pub next_last :
    (a : ℕ) (v : Bytes) (vs : List Bytes)
    → (w : Bytes) × (next (map returns (reverse (entries a (v ∷ vs))))
        ≡ returns (some ((a + length vs) ∷ [], w)))
unfolding next
next_last a v vs = let (l, w, h) = split_last a v vs in (w, rw (h, reverse-append) refl)

pub items-returns : (l : List Record) → items (map returns l) ≡ returns l
unfolding items
items-returns [] = refl
items-returns (r ∷ rs) = rw (items-returns rs) refl
