-- ===== src/Tests/Addresses.antt =====
-- The theorems on addresses, for the bytes of "abc" and a host that meters by a number.
use cosmwasm.Base.{ℕ, ◌≡◌, ◌==◌, refl, true, none, some, [], ◌∷◌, length, ok, if◌then◌else◌, arith}
use cosmwasm.Base.Call.{success}
use cosmwasm.Bytes.{Bytes}
use cosmwasm.Utf8.{is_utf8}
use cosmwasm.Mock.{addr_canonicalize, addr_humanize}
use cosmwasm.Mock.RoundTrip.{canonical_of, addr_humanize-addr_canonicalize}
use cosmwasm.Vm.Gas.{free, default_config, with_limit, with_cost}
use cosmwasm.Vm.Environment.{Environment, Host}
use cosmwasm.Vm.Environment.Accounting.{IsMetered}
use cosmwasm.Vm.Imports.Addresses.{do_addr_canonicalize, do_addr_humanize}
use cosmwasm.Vm.Imports.Addresses.RoundTrip.{mock_api, do_addr_humanize-do_addr_canonicalize}

abbrev abc : Bytes
abc = 97 ∷ 98 ∷ 99 ∷ []

abc_utf8 : is_utf8 abc ≡ true
unfolding is_utf8
abc_utf8 = refl

addr_humanize-addr_canonicalize_example :
    (c : Bytes) × (addr_canonicalize 54 abc ≡ success c)
    × (length c ≡ 54)
    × (addr_humanize 54 c ≡ success abc)
addr_humanize-addr_canonicalize_example =
    addr_humanize-addr_canonicalize abc abc_utf8 (omega arith, (omega arith, (omega arith, tt)))
      (omega arith) (omega arith)

-- The region at 8 holds "abc", all others its canonical address.
abbrev host : Host ℕ (Unit {0}) (Unit {0})
host = record {
  gas_left = λ w. w;
  set_gas = λ w n. n;
  read_region = λ w ptr max. if ptr == 8 then ok abc else ok (canonical_of abc);
  write_region = λ w ptr bytes. ok w;
  call_function = λ name args e. (success (some 8 ∷ []), e);
  get = λ s k. (ok none, free);
  set = λ s k v. ((ok tt, free), s);
  remove = λ s k. ((ok tt, free), s);
  query_raw = λ q request gas. ((ok request, free), q);
}

host-IsMetered : IsMetered host
host-IsMetered = record { read_back = λ w n. refl }

abbrev running : Environment ℕ (Unit {0}) (Unit {0})
running = record {
  gas_config = default_config;
  gas_state = with_limit 500;
  storage = none;
  storage_readonly = true;
  querier = none;
  wasm_instance = some 100;
}

do_addr_humanize-do_addr_canonicalize_example :
    (do_addr_canonicalize host mock_api 8 9 running
      ≡ (success 0, record running { wasm_instance = some 45 }))
    × (do_addr_humanize host mock_api 9 10 running
        ≡ (success 0, record running { wasm_instance = some 56 }))
unfolding with_limit with_cost
do_addr_humanize-do_addr_canonicalize_example =
    do_addr_humanize-do_addr_canonicalize host-IsMetered running running 100 100 refl refl 8 9 9 10
      abc abc_utf8 (omega arith, (omega arith, (omega arith, tt))) (omega arith) (omega arith) refl
      refl (omega arith) (omega arith)
