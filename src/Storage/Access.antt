-- ===== src/Storage/Access.antt =====
-- The trait `Storage` of packages/std/src/traits.rs: reads after writes.
use cosmwasm.Base.{◌≡◌, ◌≢◌, sym, ◌∙◌, ap, some, none, [], Outcome, returns}
use cosmwasm.Bytes.{Bytes}
use cosmwasm.BTreeMap
use cosmwasm.BTreeMap.Laws.{get-insert_self, get-insert_ne, get-erase_self, get-erase_ne}
use cosmwasm.Storage.{Storage, IsStorage}

returns-inj : {S : Type 0} {s t : S} {r : Outcome S} → r ≡ returns s → r ≡ returns t → s ≡ t
returns-inj h k = cc

module _ {S : Type 0} {ops : Storage S} (law : IsStorage ops) where
  module _ (s : S) (k v : Bytes) (valid : law.IsValid s) (nonempty : v ≢ []) where
    pub set_returns : (s' : S) × (ops.set s k v ≡ returns s')
    set_returns = let (t, done, _, _) = law.set-view s k v valid nonempty in (t, done)

    module _ (s' : S) (done : ops.set s k v ≡ returns s') where
      pub set-IsValid : law.IsValid s'
      set-IsValid =
          let (t, e, ok, _) = law.set-view s k v valid nonempty in rw (returns-inj done e) ok

      pub view-set : law.view s' ≡ BTreeMap.insert k v (law.view s)
      view-set = let (t, e, _, h) = law.set-view s k v valid nonempty in rw (returns-inj done e) h

      pub get-set_self : ops.get s' k ≡ some v
      get-set_self =
          law.get-view s' k ∙ ap (BTreeMap.get k) view-set ∙ get-insert_self k v (law.view s)

      pub get-set_ne : (j : Bytes) → j ≢ k → ops.get s' j ≡ ops.get s j
      get-set_ne j n =
          law.get-view s' j
          ∙ ap (BTreeMap.get j) view-set
          ∙ get-insert_ne j k v (law.view s) n
          ∙ sym (law.get-view s j)

  module _ (s : S) (k : Bytes) (valid : law.IsValid s) where
    pub get-remove_self : ops.get (ops.remove s k) k ≡ none
    get-remove_self =
        law.get-view (ops.remove s k) k
        ∙ ap (BTreeMap.get k) (law.remove-view s k valid).1
        ∙ get-erase_self k (law.view s) (law.view-IsSorted s valid)

    pub get-remove_ne : (j : Bytes) → j ≢ k → ops.get (ops.remove s k) j ≡ ops.get s j
    get-remove_ne j n =
        law.get-view (ops.remove s k) j
        ∙ ap (BTreeMap.get j) (law.remove-view s k valid).1
        ∙ get-erase_ne j k (law.view s) n
        ∙ sym (law.get-view s j)
