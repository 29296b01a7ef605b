-- ===== src/Prefixed/NoNamespaces.antt =====
-- packages/storage/src/prefixed_storage.rs: `multilevel` with an empty list of namespaces.
use cosmwasm.Base.{◌≡◌, refl, sym, ap, ◌∙◌, none, [], Outcome, returns}
use cosmwasm.Bytes.{Bytes}
use cosmwasm.Storage.{Storage, IsStorage, Order}
use cosmwasm.LengthPrefixed.{to_length_prefixed_nested, extend_prefixes}
use cosmwasm.Namespace.Iterate.{range_with_prefix_nothing}
use cosmwasm.Prefixed.{PrefixedStorage, multilevel, get, range}

abbrev whole : {S : Type 0} → S → PrefixedStorage S
whole s = record { storage = s; prefix = [] }

multilevel-nil : {S : Type 0} (s : S) → multilevel s [] ≡ returns (whole s)
unfolding multilevel to_length_prefixed_nested extend_prefixes
multilevel-nil s = refl

returns-inj : {A : Type 0} {a b : A} → Path (Outcome A) (returns a) (returns b) → a ≡ b
returns-inj h = cc

-- Over a valid storage that keeps its interface, the storage for an empty list of namespaces reads
-- every key as the storage below does, and yet an iterator without bounds gives nothing, whatever
-- there is below.
pub multilevel_lists_nothing :
    {S : Type 0} {ops : Storage S} (law : IsStorage ops) (s : S) (a : PrefixedStorage S) (k : Bytes)
    (o : Order)
    → law.IsValid s
    → multilevel s [] ≡ returns a
    → (get ops a k ≡ ops.get s k) × (range ops a none none o ≡ [])
unfolding get range
multilevel_lists_nothing {ops = ops} law s a k o valid h =
    let e = returns-inj (sym (multilevel-nil s) ∙ h) in
    (
      ap (λ p. get ops p k) (sym e),
      ap (λ p. range ops p none none o) (sym e) ∙ range_with_prefix_nothing law s o valid,
    )
