-- ===== src/Prefixed/Isolation.antt =====
-- packages/storage/src/prefixed_storage.rs: two namespaces over one storage, and a namespace inside
-- another.
use mathlib.Core.Path.{ap₂}
use mathlib.Core.List.{append_assoc, append-nil}
use cosmwasm.Base.{◌≡◌, ◌≢◌, refl, sym, ◌∙◌, ap, List, [], ◌∷◌, ◌++◌, returns, map_outcome, arith}
use cosmwasm.Bytes.{Bytes}
use cosmwasm.Storage.{Storage, IsStorage}
use cosmwasm.Storage.Access.{view-set}
use cosmwasm.LengthPrefixed.{to_length_prefixed, to_length_prefixed_nested}
use cosmwasm.LengthPrefixed.Decode.{
  strip-other, eq_of_to_length_prefixed, prefix_of, eq_of_to_length_prefixed_nested,
}
use cosmwasm.Namespace.Subset.{under, under-insert_other, under-erase_other}
use cosmwasm.Prefixed.{PrefixedStorage, new, multilevel, get, set, remove, prefixed_storage}

eq_of_new :
    {S : Type 0} (s : S) (ns : Bytes) {a : PrefixedStorage S}
    → new s ns ≡ returns a
    → (a.storage ≡ s) × (to_length_prefixed ns ≡ returns a.prefix)
unfolding new
eq_of_new s ns {a} h = ground arith

eq_of_set :
    {S : Type 0} (ops : Storage S) (a : PrefixedStorage S) (k v : Bytes) {a' : PrefixedStorage S}
    → set ops a k v ≡ returns a'
    → (ops.set a.storage (a.prefix ++ k) v ≡ returns a'.storage) × (a'.prefix ≡ a.prefix)
unfolding set
eq_of_set ops a k v h = ground arith

module _ {S : Type 0} {ops : Storage S} (law : IsStorage ops) where
  -- Over a valid storage, a successful write of a value that is not empty behind the namespace m, and
  -- a removal behind it, leave the map behind another namespace n as it was, where both namespaces
  -- have a prefix.
  pub writes_are_isolated :
      (s : S) (m n k v : Bytes) (a a' b : PrefixedStorage S)
      → law.IsValid s
      → m ≢ n
      → v ≢ []
      → new s m ≡ returns a
      → new s n ≡ returns b
      → set ops a k v ≡ returns a'
      → (under b.prefix (law.view a'.storage) ≡ under b.prefix (law.view s))
        × (under b.prefix (law.view (remove ops a k).storage) ≡ under b.prefix (law.view s))
  unfolding remove
  writes_are_isolated s m n k v a a' b valid ne nonempty ha hb hs =
      let (ea, pa) = eq_of_new s m ha in
      let (eb, pb) = eq_of_new s n hb in
      let (es, _) = eq_of_set ops a k v hs in
      let away = strip-other n m k (λ e. ne (sym e)) pb pa in
      let valid_a : law.IsValid a.storage = rw ea valid in
      (
        ap (under b.prefix)
              (view-set law a.storage (a.prefix ++ k) v valid_a nonempty a'.storage es)
            ∙ under-insert_other b.prefix (a.prefix ++ k) v (law.view a.storage) away
            ∙ ap (λ t. under b.prefix (law.view t)) ea,
        ap (under b.prefix) (law.remove-view a.storage (a.prefix ++ k) valid_a).1
            ∙ under-erase_other b.prefix (a.prefix ++ k) (law.view a.storage) away
            ∙ ap (λ t. under b.prefix (law.view t)) ea,
      )

eq_of_multilevel :
    {S : Type 0} (s : S) (nss : List Bytes) {a : PrefixedStorage S}
    → multilevel s nss ≡ returns a
    → (a.storage ≡ s) × (to_length_prefixed_nested nss ≡ returns a.prefix)
unfolding multilevel
eq_of_multilevel s nss {a} h = ground arith

-- The calls on the storage below that each makes.
raw_flat :
    {S : Type 0} (ops : Storage S) (a : PrefixedStorage S) (k v : Bytes)
    → (get ops a k ≡ ops.get a.storage (a.prefix ++ k))
      × ((remove ops a k).storage ≡ ops.remove a.storage (a.prefix ++ k))
      × (map_outcome (λ (t : PrefixedStorage S). t.storage) (set ops a k v)
          ≡ ops.set a.storage (a.prefix ++ k) v)
unfolding get remove set
raw_flat ops a k v = (refl, refl, ground arith)

raw_inner :
    {S : Type 0} (ops : Storage S) (a : PrefixedStorage (PrefixedStorage S)) (k v : Bytes)
    → (get (prefixed_storage ops) a k
        ≡ ops.get a.storage.storage (a.storage.prefix ++ (a.prefix ++ k)))
      × ((remove (prefixed_storage ops) a k).storage.storage
          ≡ ops.remove a.storage.storage (a.storage.prefix ++ (a.prefix ++ k)))
      × (map_outcome
            (λ (t : PrefixedStorage (PrefixedStorage S)). t.storage.storage)
            (set (prefixed_storage ops) a k v)
          ≡ ops.set a.storage.storage (a.storage.prefix ++ (a.prefix ++ k)) v)
unfolding get remove set prefixed_storage
raw_inner ops a k v = (refl, refl, ground arith)

module _ {S : Type 0} (ops : Storage S) (s : S) (m n k : Bytes) where
  module _ (outer flat : PrefixedStorage S) (inner : PrefixedStorage (PrefixedStorage S))
      (ho : new s m ≡ returns outer) (hi : new outer n ≡ returns inner)
      (hf : multilevel s (m ∷ n ∷ []) ≡ returns flat) where
    same_raw_key : outer.prefix ++ (inner.prefix ++ k) ≡ flat.prefix ++ k
    same_raw_key =
        let po = (eq_of_to_length_prefixed m (eq_of_new s m ho).1).1 in
        let pi = (eq_of_to_length_prefixed n (eq_of_new outer n hi).1).1 in
        let pf =
          (eq_of_to_length_prefixed_nested (m ∷ n ∷ []) (eq_of_multilevel s (m ∷ n ∷ []) hf).1).1 in
        rw (po, pi, pf)
          (sym (append_assoc (prefix_of m) (prefix_of n) k)
            ∙ ap (λ q. (prefix_of m ++ q) ++ k) (sym (append-nil (prefix_of n))))

    same_storage : inner.storage.storage ≡ flat.storage
    same_storage =
        ap (λ (t : PrefixedStorage S). t.storage) (eq_of_new outer n hi).0
        ∙ (eq_of_new s m ho).0
        ∙ sym (eq_of_multilevel s (m ∷ n ∷ []) hf).0

    same_outer_prefix : inner.storage.prefix ≡ outer.prefix
    same_outer_prefix = ap (λ (t : PrefixedStorage S). t.prefix) (eq_of_new outer n hi).0

    -- Where all three are made, the storage of the nested namespaces m, n and the storage of n inside
    -- that of m read the same value at a key, and write and remove the same in the storage below.
    pub multilevel_is_nested :
        (v : Bytes)
        → (get (prefixed_storage ops) inner k ≡ get ops flat k)
          × ((remove (prefixed_storage ops) inner k).storage.storage ≡ (remove ops flat k).storage)
          × (map_outcome
                (λ (t : PrefixedStorage (PrefixedStorage S)). t.storage.storage)
                (set (prefixed_storage ops) inner k v)
              ≡ map_outcome (λ (t : PrefixedStorage S). t.storage) (set ops flat k v))
    multilevel_is_nested v =
        let (get_inner, remove_inner, set_inner) = raw_inner ops inner k v in
        let (get_flat, remove_flat, set_flat) = raw_flat ops flat k v in
        let key : inner.storage.prefix ++ (inner.prefix ++ k) ≡ flat.prefix ++ k =
          ap (λ p. p ++ (inner.prefix ++ k)) same_outer_prefix ∙ same_raw_key in
        (
          get_inner ∙ ap₂ ops.get same_storage key ∙ sym get_flat,
          remove_inner ∙ ap₂ ops.remove same_storage key ∙ sym remove_flat,
          set_inner ∙ ap₂ (λ s k. ops.set s k v) same_storage key ∙ sym set_flat,
        )
