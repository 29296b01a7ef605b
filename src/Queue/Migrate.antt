-- ===== src/Queue/Migrate.antt =====
-- The migration of the contract, which begins anew from any storage.
use cosmwasm.Base.{◌≡◌, refl, ap, ◌∙◌, none, List, [], ◌∷◌, map, ok, returns, arith}
use cosmwasm.Base.Call.{success}
use cosmwasm.Bytes.{Bytes}
use cosmwasm.BTreeMap
use cosmwasm.BTreeMap.{Record}
use cosmwasm.Storage.{Storage, IsStorage, ascending}
use cosmwasm.Serde.{Serde, IsSerde}
use cosmwasm.Queue.Int32.{ℤ, pos}
use cosmwasm.Queue.Items.{Item, items}
use cosmwasm.Queue.{remove_all, migrate}
use cosmwasm.Queue.Keys.{range_all, erase_first, items-returns}
use cosmwasm.Queue.Refine.{Holds, enqueue_empty, enqueue_more}

module _ {S : Type 0} (ops : Storage S) (law : IsStorage ops) (json : Serde Item)
    (codec : IsSerde json) (enc : ℤ → Bytes)
    (encodes : (v : ℤ) → json.to_vec (record { value = v }) ≡ ok (enc v)) where
  remove_all_lem :
      (l : List Record) (s : S)
      → law.IsValid s
      → law.view s ≡ l
      → law.IsValid (remove_all ops json l s) × (law.view (remove_all ops json l s) ≡ [])
  unfolding remove_all
  remove_all_lem [] s valid e = (valid, e)
  remove_all_lem ((k, v) ∷ l) s valid e =
      let (valid', view') = law.remove-view s k valid in
      remove_all_lem l (ops.remove s k) valid' (view' ∙ ap (BTreeMap.erase k) e ∙ erase_first k v l)

  -- From any valid storage, whatever is in it, the migration succeeds and leaves the queue of 100,
  -- 101 and 102 and nothing else.
  pub migrate_lem :
      (s : S)
      → law.IsValid s
      → (s' : S) × (migrate ops json s ≡ success s')
        × Holds ops law json codec enc encodes s'
            (record { first = 0; values = pos 100 ∷ pos 101 ∷ pos 102 ∷ [] })
  unfolding migrate
  migrate_lem s valid =
      let l = law.view s in
      let read : items (ops.range s none none ascending) ≡ returns l =
        ap items (law.range-view s none none ascending valid ∙ ap (map returns) (range_all l))
        ∙ items-returns l in
      let (valid', view') = remove_all_lem l s valid refl in
      let cleared : Holds ops law json codec enc encodes (remove_all ops json l s)
          (record { first = 0; values = [] }) =
        record { valid = valid'; view = view'; bound = omega arith } in
      let (s1, e1, h1) =
        enqueue_empty ops law json codec enc encodes (remove_all ops json l s) 0 (pos 100)
          cleared in
      let (s2, e2, h2) =
        enqueue_more ops law json codec enc encodes s1 0 (pos 100) [] (pos 101) h1 (omega arith) in
      let (s3, e3, h3) =
        enqueue_more ops law json codec enc encodes s2 0 (pos 100) (pos 101 ∷ []) (pos 102) h2
          (omega arith) in
      (s3, rw (migrate, read, e1, e2, e3) refl, h3)
