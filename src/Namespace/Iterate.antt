-- ===== src/Namespace/Iterate.antt =====
-- `range_with_prefix` of packages/storage/src/namespace_helpers.rs where the prefix is not empty and
-- does not end in 255, and where it is empty. The other case is `Namespace/Carry.antt`.
use mathlib.Core.List.{append-nil, reverse-cons, map-append, map-map}
use cosmwasm.Base.{
  ◌≡◌, refl, ◌∙◌, sym, ap, true, false, Option, none, some, List, [], ◌∷◌, ◌++◌, map, reverse,
  returns, length-append, drop-append, length, ge→ltb, arith, inl, inr, Bool-cases, Option-cases,
}
use cosmwasm.Bytes.{Bytes, cmp, strip, within, is_below, not_below}
use cosmwasm.Bytes.Prefix.{eq_of_strip}
use cosmwasm.BTreeMap
use cosmwasm.BTreeMap.{Record, BTreeMap}
use cosmwasm.Storage.{Storage, IsStorage, Order, ascending, descending, in_order}
use cosmwasm.Namespace.{
  trim, trim_item, range_start, range_end, range_with_prefix, namespace_upper_bound,
}
use cosmwasm.Namespace.Subset.{under, strip-cmp}
use cosmwasm.Namespace.UpperBound.{
  ends_low, ends_low-all_255, cmp-upper_bound, cmp-other_upper_bound, cmp-other_append, not-cmp-nil,
}

pub trim-append : (p k : Bytes) → trim p (p ++ k) ≡ returns k
unfolding trim
trim-append p k =
    rw (ge→ltb (length (p ++ k)) (length p) (omega (arith, length-append {0} p k)), drop-append p k)

trim_item-strip :
    (p : Bytes) (r : Record) (k : Bytes)
    → strip p r.0 ≡ some k
    → trim_item p (returns r) ≡ returns (k, r.1)
unfolding trim_item
trim_item-strip p r k h = rw (eq_of_strip p r.0 k h, trim-append p k)

module _ (p j k : Bytes) (h : strip p j ≡ some k) where
  cmp_prefix : cmp j p ≡ cmp k []
  cmp_prefix = ap (cmp j) (sym (append-nil p)) ∙ strip-cmp p [] j k h

  not_below_strip : (a : Option Bytes) → not_below (some (range_start p a)) j ≡ not_below a k
  not_below_strip none = ground (arith, cmp_prefix, not-cmp-nil k)
  not_below_strip (some a) = ground (arith, strip-cmp p a j k h)

  is_below_strip :
      (b : Option Bytes) → ends_low p ≡ true → is_below (some (range_end p b)) j ≡ is_below b k
  is_below_strip none e = ground (arith, cmp-upper_bound p j k (ends_low-all_255 p e) h)
  is_below_strip (some b) e = ground (arith, strip-cmp p b j k h)

  within_strip :
      (a b : Option Bytes)
      → ends_low p ≡ true
      → within (some (range_start p a)) (some (range_end p b)) j ≡ within a b k
  within_strip a b e = rw (not_below_strip a, is_below_strip b e)

within_other :
    (p j : Bytes) (a b : Option Bytes)
    → ends_low p ≡ true
    → strip p j ≡ none
    → within (some (range_start p a)) (some (range_end p b)) j ≡ false
within_other p j none none e h = ground (arith, cmp-other_upper_bound p j e h)
within_other p j none (some b) e h = ground (arith, cmp-other_append p j b h)
within_other p j (some a) none e h =
    ground (arith, cmp-other_append p j a h, cmp-other_upper_bound p j e h)
within_other p j (some a) (some b) e h =
    ground (arith, cmp-other_append p j a h, cmp-other_append p j b h)

-- Cutting the prefix off the records in range gives the records in range of the part under it.
range_under :
    (p : Bytes) (a b : Option Bytes) (m : BTreeMap)
    → ends_low p ≡ true
    → map
        (λ r. trim_item p (returns r))
        (BTreeMap.range (some (range_start p a)) (some (range_end p b)) m)
      ≡ map returns (BTreeMap.range a b (under p m))
unfolding under BTreeMap.range
range_under p a b [] e = refl
range_under p a b (r ∷ m) e = elim (Option-cases (strip p r.0)) [
  | inl h ↦ rw (within_other p r.0 a b e h, h, under) (range_under p a b m e)
  | inr (k, h) ↦
      rw (within_strip p r.0 k h a b e, h, under)
        (elim (Bool-cases (within a b k)) [
          | inl t ↦
              rw (t, trim_item-strip p r k h)
                (ap (λ l. returns (k, r.1) ∷ l) (range_under p a b m e))
          | inr f ↦ rw f (range_under p a b m e)
        ])
]

map-reverse : {A B : Type 0} (f : A → B) (l : List A) → map f (reverse l) ≡ reverse (map f l)
map-reverse f [] = refl
map-reverse f (x ∷ l) = simp (reverse-cons, map-append, map-reverse f l)

in_order-map :
    {A : Type 0} (f : Record → A) (g : Record → A) (o : Order) (l m : List Record)
    → map f l ≡ map g m
    → map f (in_order o l) ≡ map g (in_order o m)
in_order-map f g ascending l m h = h
in_order-map f g descending l m h = map-reverse f l ∙ ap reverse h ∙ sym (map-reverse g m)

-- Over a valid storage that keeps its interface, iterating behind a prefix that is not empty and does
-- not end in 255 gives the records under the prefix between the bounds, with the prefix cut off, in order, and no
-- item panics.
pub range_with_prefix_lem :
    {S : Type 0} {ops : Storage S} (law : IsStorage ops) (s : S) (p : Bytes) (a b : Option Bytes)
    (o : Order)
    → law.IsValid s
    → ends_low p ≡ true
    → range_with_prefix ops s p a b o
      ≡ map returns (in_order o (BTreeMap.range a b (under p (law.view s))))
unfolding range_with_prefix
range_with_prefix_lem {ops = ops} law s p a b o valid e =
    ap (map (trim_item p))
      (law.range-view s (some (range_start p a)) (some (range_end p b)) o valid)
    ∙ map-map (trim_item p) returns _
    ∙ in_order-map (λ r. trim_item p (returns r)) returns o
        (BTreeMap.range (some (range_start p a)) (some (range_end p b)) (law.view s))
        (BTreeMap.range a b (under p (law.view s))) (range_under p a b (law.view s) e)

range_nothing : (m : BTreeMap) → BTreeMap.range (some []) (some []) m ≡ []
unfolding BTreeMap.range
range_nothing [] = refl
range_nothing (r ∷ m) =
    let e : within (some []) (some []) r.0 ≡ false = ground (arith, not-cmp-nil r.0) in
    rw (BTreeMap.range, e) (range_nothing m)

in_order-nil : (o : Order) → in_order o [] ≡ []
in_order-nil ascending = refl
in_order-nil descending = refl

-- Over a valid storage that keeps its interface, iterating behind the empty prefix without bounds gives
-- nothing, whatever is in the storage.
pub range_with_prefix_nothing :
    {S : Type 0} {ops : Storage S} (law : IsStorage ops) (s : S) (o : Order)
    → law.IsValid s
    → range_with_prefix ops s [] none none o ≡ []
unfolding range_with_prefix namespace_upper_bound
range_with_prefix_nothing law s o valid =
    ap (map (trim_item [])) (law.range-view s (some []) (some []) o valid)
    ∙ ap (λ l. map (trim_item []) (map returns (in_order o l))) (range_nothing (law.view s))
    ∙ ap (λ l. map (trim_item []) (map returns l)) (in_order-nil o)
