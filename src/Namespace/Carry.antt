-- ===== src/Namespace/Carry.antt =====
-- `range_with_prefix` of packages/storage/src/namespace_helpers.rs where the prefix ends in 255.
use Prim.Native.Nat.Ordering.{lt, gt}
use cosmwasm.Base.{
  ℕ, ◌+◌, ◌<◌, ◌≡◌, refl, ap, sym, ◌∙◌, true, false, none, some, List, [], ◌∷◌, ◌++◌, Outcome,
  returns, panics, lt→ltb, Any, Any-reverse, Any-select, Any-map, length, length-append, arith,
}
use cosmwasm.Bytes.{Bytes, cmp, within}
use cosmwasm.Bytes.Order.{cmp-append, eq_of_cmp}
use cosmwasm.BTreeMap
use cosmwasm.BTreeMap.{Record, BTreeMap}
use cosmwasm.Storage.{Storage, IsStorage, Order, ascending, descending, in_order}
use cosmwasm.Namespace.{trim, trim_item, namespace_upper_bound, range_with_prefix}
use cosmwasm.Namespace.UpperBound.{all_255, upper_bound-cons, upper_bound-nil}

abbrev pub carrying : Bytes → ℕ → Bytes
carrying q b = q ++ b ∷ 255 ∷ []

abbrev between : Bytes → ℕ → Bytes
between q b = q ++ (b + 1) ∷ []

not-all_255-carrying : (q : Bytes) (b : ℕ) → b < 255 → all_255 (carrying q b) ≡ false
unfolding all_255
not-all_255-carrying [] b h = ground arith
not-all_255-carrying (c ∷ q) b h = ground (arith, not-all_255-carrying q b h)

upper_bound-carrying :
    (q : Bytes) (b : ℕ) → b < 255 → namespace_upper_bound (carrying q b) ≡ q ++ (b + 1) ∷ 0 ∷ []
unfolding all_255
upper_bound-carrying [] b h =
    rw (upper_bound-cons b (255 ∷ []), upper_bound-cons 255 [], upper_bound-nil) (ground arith)
upper_bound-carrying (c ∷ q) b h =
    rw (upper_bound-cons c (carrying q b), not-all_255-carrying q b h)
      (ap (λ r. c ∷ r) (upper_bound-carrying q b h))

between_above : (q : Bytes) (b : ℕ) → cmp (between q b) (carrying q b) ≡ gt
unfolding cmp
between_above q b = cmp-append q ((b + 1) ∷ []) (b ∷ 255 ∷ []) ∙ ground arith

between_below :
    (q : Bytes) (b : ℕ) → b < 255 → cmp (between q b) (namespace_upper_bound (carrying q b)) ≡ lt
unfolding cmp
between_below q b h =
    ap (cmp (between q b)) (upper_bound-carrying q b h)
    ∙ cmp-append q ((b + 1) ∷ []) ((b + 1) ∷ 0 ∷ [])
    ∙ ground arith

within-between :
    (q : Bytes) (b : ℕ)
    → b < 255
    → within (some (carrying q b)) (some (namespace_upper_bound (carrying q b))) (between q b)
      ≡ true
within-between q b h = ground (arith, between_above q b, between_below q b h)

Any-get : (k : Bytes) (m : BTreeMap) {v : Bytes} → BTreeMap.get k m ≡ some v → Any (λ r. r.0 ≡ k) m
unfolding BTreeMap.get
Any-get k [] h = cc
Any-get k (r ∷ m) {v} h = ground (arith, eq_of_cmp k r.0, Any-get k m {v = v})

trim-short : (q : Bytes) (b : ℕ) → trim (carrying q b) (between q b) ≡ panics
unfolding trim
trim-short q b = rw (
    lt→ltb (length (between q b)) (length (carrying q b))
      (omega (arith, length-append {0} q (b ∷ 255 ∷ []), length-append {0} q ((b + 1) ∷ []))))

trim_item-short :
    (q : Bytes) (b : ℕ) (r : Record)
    → r.0 ≡ between q b
    → trim_item (carrying q b) (returns r) ≡ panics
unfolding trim_item
trim_item-short q b r h = rw (h, trim-short q b)

abbrev pub IsPanic : Outcome Record → Type 0
IsPanic i = i ≡ panics

Any-in_order : (o : Order) (P : Record → Type 0) (l : List Record) → Any P l → Any P (in_order o l)
Any-in_order ascending P l h = h
Any-in_order descending P l h = Any-reverse P l h

-- Iterating without bounds behind the prefix q, b, 255 (b below 255) over a valid storage that holds
-- the key q, b + 1 reaches an item that panics, in both orders.
pub range_with_prefix_panics :
    {S : Type 0} {ops : Storage S} (law : IsStorage ops) (s : S) (q : Bytes) (b : ℕ) (o : Order)
    {v : Bytes}
    → law.IsValid s
    → b < 255
    → ops.get s (between q b) ≡ some v
    → Any IsPanic (range_with_prefix ops s (carrying q b) none none o)
unfolding range_with_prefix BTreeMap.range
range_with_prefix_panics {ops = ops} law s q b o valid h e =
    let p = carrying q b in
    let hit = λ (r : Record). r.0 ≡ between q b in
    let found =
      Any-select hit (λ r. within (some p) (some (namespace_upper_bound p)) r.0)
        (λ r t. rw t (within-between q b h)) (law.view s)
        (Any-get (between q b) (law.view s) (sym (law.get-view s (between q b)) ∙ e)) in
    rw (law.range-view s (some p) (some (namespace_upper_bound p)) o valid) (
      Any-map (λ (i : Outcome Record). (r : Record) × hit r × (i ≡ returns r)) IsPanic (trim_item p)
        (λ i t. rw t.2 (trim_item-short q b t.0 t.1)) _
        (Any-map hit _ returns (λ r t. (r, t, refl)) _ (Any-in_order o hit _ found)))
