-- ===== src/Tests/Iterators.antt =====
-- The theorems on iterators, over the mock storage and a host that meters by a number.
use cosmwasm.Base.{ℕ, ◌≡◌, ◌≢◌, refl, true, none, some, [], ◌∷◌, ok, err, returns, panics, arith}
use cosmwasm.Base.Call.{success}
use cosmwasm.Bytes.{Bytes}
use cosmwasm.BTreeMap
use cosmwasm.BTreeMap.{Record}
use cosmwasm.Storage.{descending}
use cosmwasm.External
use cosmwasm.Vm.Errors.{foreign_panic}
use cosmwasm.Vm.Gas.{GasInfo, free, default_config, with_limit}
use cosmwasm.Vm.Environment.{Environment, Host}
use cosmwasm.Vm.Environment.Accounting.{IsMetered, charged}
use cosmwasm.Vm.Imports.{write_to_contract}
use cosmwasm.Vm.Imports.Iterators.{Iterators, do_db_next}
use cosmwasm.Vm.Imports.Iterators.Next.{do_db_next_lem}
use cosmwasm.Vm.Testing.{MockStorage, scan, next, next_of, all, find}
use cosmwasm.Vm.Testing.View.{left, IsValid}
use cosmwasm.Vm.Testing.Iterate.{all-scan}

-- Two entries, and an iterator that has the second left.
abbrev store : MockStorage
store = record {
  entries = (1 ∷ [], 5 ∷ []) ∷ (2 ∷ [], 6 ∷ 7 ∷ []) ∷ [];
  iterators =
      (1, record { records = (1 ∷ [], 5 ∷ []) ∷ (2 ∷ [], 6 ∷ 7 ∷ []) ∷ []; position = 1 }) ∷ [];
}

store-IsValid : IsValid store
store-IsValid = record { numbered = omega arith }

all-scan_example :
    (id : ℕ) × (s1 : MockStorage) × (s2 : MockStorage) × (g : GasInfo) × (g' : GasInfo) × (scan
        store none none descending
      ≡ returns ((ok id, g), s1))
    × (all 3 s1 id ≡ returns ((ok ((2 ∷ [], 6 ∷ 7 ∷ []) ∷ (1 ∷ [], 5 ∷ []) ∷ []), g'), s2))
    × (left store id ≡ none)
    × (s2.entries ≡ store.entries)
    × ((j : ℕ) → j ≢ id → left s2 j ≡ left store j)
unfolding BTreeMap.range
all-scan_example = all-scan store none none descending 3 store-IsValid (omega arith) (omega arith)

abbrev iterators : Iterators MockStorage
iterators = record {
  scan = λ s a b o. elim (scan s a b o) [
    | returns answer ↦ answer
    | panics ↦ ((err foreign_panic, free), s)
  ];
  next = next;
}

abbrev host : Host ℕ MockStorage (Unit {0})
host = record {
  gas_left = λ w. w;
  set_gas = λ w n. n;
  read_region = λ w ptr max. ok (ptr ∷ []);
  write_region = λ w ptr bytes. ok w;
  call_function = λ name args e. (success (some 8 ∷ []), e);
  get = λ s k. (ok none, free);
  set = λ s k v. ((ok tt, free), s);
  remove = λ s k. ((ok tt, free), s);
  query_raw = λ q request gas. ((ok request, free), q);
}

host-IsMetered : IsMetered host
host-IsMetered = record { read_back = λ w n. refl }

abbrev running : Environment ℕ MockStorage (Unit {0})
running = record {
  gas_config = default_config;
  gas_state = with_limit 500;
  storage = some store;
  storage_readonly = true;
  querier = none;
  wasm_instance = some 100;
}

abbrev stepped : MockStorage
stepped = record store {
  iterators =
      (1, record { records = (1 ∷ [], 5 ∷ []) ∷ (2 ∷ [], 6 ∷ 7 ∷ []) ∷ []; position = 2 }) ∷ [];
}

do_db_next_lem_example :
    (d : Bytes) × (do_db_next host iterators 1 running
      ≡ write_to_contract host d (
          charged host-IsMetered
            (record running { storage = some stepped })
            100
            (record { cost = 3; externally_used = 0 })
            refl))
    × (External.next d ≡ returns (some (2 ∷ [], 6 ∷ 7 ∷ [])))
unfolding next next_of find
do_db_next_lem_example =
    do_db_next_lem host-IsMetered iterators running 100 store stepped
      (record { cost = 3; externally_used = 0 }) 1 (some (2 ∷ [], 6 ∷ 7 ∷ [])) refl refl
      (omega arith) refl (λ z. cc, omega arith, omega arith) (omega arith)
