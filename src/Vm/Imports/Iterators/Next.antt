-- ===== src/Vm/Imports/Iterators/Next.antt =====
-- An item on its way from the storage's iterator to the contract's.
use cosmwasm.Base.{
  ℕ, ◌+◌, ◌^◌, ◌≤◌, ◌<◌, ◌≡◌, ◌≢◌, refl, Option, none, some, [], ◌∷◌, ok, returns, le→leb, arith,
}
use cosmwasm.Bytes.{Bytes}
use cosmwasm.BTreeMap.{Record}
use cosmwasm.External
use cosmwasm.External.{unless_empty}
use cosmwasm.Sections.{vm_encode_sections}
use cosmwasm.Sections.RoundTrip.{FitsU32}
use cosmwasm.Sections.SplitTail.{decode_sections2-encode_sections}
use cosmwasm.Vm.Gas.{GasInfo}
use cosmwasm.Vm.Environment.{Environment, Host, with_storage_from_context}
use cosmwasm.Vm.Environment.Accounting.{IsMetered, charged, process_gas_info_lem}
use cosmwasm.Vm.Imports.{write_to_contract}
use cosmwasm.Vm.Imports.Iterators.{Iterators, do_db_next, or_empty}

-- A record that the sections can carry, with a key.
abbrev pub IsItem : Option Record → Type 0
IsItem none = Unit
IsItem (some (key, value)) = (key ≢ []) × FitsU32 key × FitsU32 value

-- The sections of an item are read by the contract's iterator as the item.
carried :
    (item : Option Record)
    → IsItem item
    → (d : Bytes) × (vm_encode_sections (or_empty item) ≡ ok d) × (External.next d ≡ returns item)
unfolding External.next
carried none h =
    let (d, e, back) = decode_sections2-encode_sections [] [] (omega arith) (omega arith) in
    (d, e, rw back refl)
carried (some ([], value)) h = absurd (h.0 refl)
carried (some (b ∷ key, value)) h =
    let (d, e, back) = decode_sections2-encode_sections (b ∷ key) value h.1 h.2 in
    (d, e, rw back refl)

module _ {W S Q : Type 0} {host : Host W S Q} (metered : IsMetered host) (iterators : Iterators S)
    (e : Environment W S Q) (w : W) (s s' : S) (info : GasInfo) (iterator_id : ℕ)
    (item : Option Record) (running : e.wasm_instance ≡ some w) (stored : e.storage ≡ some s)
    (small : info.externally_used + info.cost < 2 ^ 64)
    (given : iterators.next s iterator_id ≡ ((ok item, info), s')) where
  -- In a running instance with a storage whose iterator gives an item, or its end, for an amount
  -- within a `u64` that the gas left covers: the storage is the one after that step, the gas is
  -- charged, and what is written to the contract is read by the contract's iterator as the item. A
  -- key is not empty, and key and value are shorter than 2^32.
  pub do_db_next_lem :
      IsItem item
      → info.externally_used + info.cost ≤ host.gas_left w
      → (d : Bytes) × (do_db_next host iterators iterator_id e
          ≡ write_to_contract host d
              (charged metered (record e { storage = some s' }) w info running))
        × (External.next d ≡ returns item)
  unfolding do_db_next with_storage_from_context
  do_db_next_lem fits enough =
      let (d, enc, back) = carried item fits in
      let paid =
        process_gas_info_lem metered (record e { storage = some s' }) w info running small in
      (
        d,
        ground
            (arith, paid, enc, le→leb (info.externally_used + info.cost) (host.gas_left w) enough),
        back,
      )
