-- ===== src/Vm/Imports/Iterators/Scan.antt =====
-- What the import that opens an iterator does to the environment of a contract.
use cosmwasm.Base.{ℕ, ◌+◌, ◌^◌, ◌<◌, ◌≡◌, Option, some, Result, ok, err, leb, if◌then◌else◌, arith}
use cosmwasm.Base.Call.{Call, success, failure}
use cosmwasm.Bytes.{Bytes}
use cosmwasm.Storage.{Order, InvalidOrder, order_of_i32}
use cosmwasm.Vm.Errors.{VmError, BackendError, gas_depletion, from_backend, invalid_order}
use cosmwasm.Vm.Gas.{GasInfo}
use cosmwasm.Vm.Environment.{Environment, Host, with_storage_from_context}
use cosmwasm.Vm.Environment.Accounting.{charged, IsMetered, process_gas_info_lem}
use cosmwasm.Vm.Imports.{max_length_db_key}
use cosmwasm.Vm.Imports.Iterators.{Iterators, maybe_read_region, do_db_scan}

abbrev pub answered : Result BackendError ℕ → Call VmError ℕ
answered (ok id) = success id
answered (err x) = failure (from_backend x)

module _ {W S Q : Type 0} {host : Host W S Q} (metered : IsMetered host) (iterators : Iterators S)
    (e : Environment W S Q) (w : W) (s s' : S) (info : GasInfo) (start_ptr end_ptr order : ℕ)
    (start end : Option Bytes) (running : e.wasm_instance ≡ some w) (stored : e.storage ≡ some s)
    (small : info.externally_used + info.cost < 2 ^ 64)
    (from : maybe_read_region host iterators start_ptr max_length_db_key e ≡ (success start, e))
    (to : maybe_read_region host iterators end_ptr max_length_db_key e ≡ (success end, e)) where
  -- With bounds that can be read, a number that is no order is that error, and nothing changes.
  pub do_db_scan_refuses :
      (x : InvalidOrder)
      → order_of_i32 order ≡ err x
      → do_db_scan host iterators start_ptr end_ptr order e ≡ (failure (invalid_order order), e)
  unfolding do_db_scan
  do_db_scan_refuses x h = ground (arith, from, to)

  -- With an order, a running instance, a storage and amounts whose sum is a `u64`: the storage
  -- becomes what the scan makes of it and the gas is charged, also where it does not suffice, which
  -- is a gas depletion; else the result is the storage's.
  pub do_db_scan_lem :
      (o : Order) (r : Result BackendError ℕ)
      → order_of_i32 order ≡ ok o
      → iterators.scan s start end o ≡ ((r, info), s')
      → do_db_scan host iterators start_ptr end_ptr order e ≡ (
        (if leb (info.externally_used + info.cost) (host.gas_left w)
            then answered r
            else failure gas_depletion),
        charged metered (record e { storage = some s' }) w info running,
      )
  unfolding do_db_scan with_storage_from_context
  do_db_scan_lem o r ho hs = ground (
    arith,
    from,
    to,
    process_gas_info_lem metered (record e { storage = some s' }) w info running small,
  )
