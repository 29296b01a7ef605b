-- ===== src/Tests/Fixtures.antt =====
-- Instances of the interfaces: a codec, 256-bit words, and a host that meters by a number.
use cosmwasm.Base.{
  ℕ, zero, suc, ◌*◌, ◌/◌, ◌^◌, ◌≡◌, ◌≢◌, refl, none, some, [], ◌∷◌, returns, panics, ok, err,
  and_then, ltb, ◌==◌, if◌then◌else◌, arith,
}
use cosmwasm.Bytes.{Bytes}
use cosmwasm.Errors.{StdResult, not_found}
use cosmwasm.Serde.{Serde, IsSerde}
use cosmwasm.Memory
use cosmwasm.Memory.{MemoryStorage}
use cosmwasm.Math.Uint256.{U256, IsU256}
use cosmwasm.Vm.Gas.{GasInfo}
use cosmwasm.Vm.Environment.{Host, pure}
use cosmwasm.Vm.Environment.Accounting.{IsMetered}

-- A number in base one, with a zero at its end.
abbrev pub unary : ℕ → Bytes
unary zero = 0 ∷ []
unary (suc n) = 1 ∷ unary n

abbrev pub from_unary : Bytes → StdResult ℕ
from_unary [] = err (not_found "u64")
from_unary (zero ∷ rest) = ok 0
from_unary (suc b ∷ rest) = and_then (from_unary rest) (λ n. ok (suc n))

abbrev pub codec : Serde ℕ
codec = record { type_name = "u64"; to_vec = λ n. ok (unary n); from_slice = from_unary }

pub from_unary-unary : (n : ℕ) → from_unary (unary n) ≡ ok n
from_unary-unary zero = refl
from_unary-unary (suc n) = rw (from_unary-unary n)

pub unary-nonempty : (n : ℕ) → unary n ≢ []
unary-nonempty zero = λ e. cc
unary-nonempty (suc n) = λ e. cc

pub codec-IsSerde : IsSerde codec
codec-IsSerde = record {
  read_back = λ t b e. cc (from_unary-unary t);
  nonempty = λ t b e n. unary-nonempty t (cc);
}

-- Words that are the numbers themselves.
abbrev pub words : U256
words = record {
  Word = ℕ;
  value = λ n. n;
  from_u128 = λ n. n;
  checked_mul = λ x y. if ltb (x * y) (2 ^ 256) then some (x * y) else none;
  checked_div = λ x y. if y == 0 then none else some (x / y);
  to_u128 = λ x. if ltb x (2 ^ 128) then some x else none;
}

pub words-IsU256 : IsU256 words
words-IsU256 = record {
  value-from_u128 = λ n h. refl;
  checked_mul_fits = λ x y h. (x * y, ground arith, refl);
  checked_mul_overflows = λ x y h. ground arith;
  checked_div_lem = λ x y h. (x / y, ground arith, refl);
  checked_div_zero = λ x y h. ground arith;
  to_u128_fits = λ x h. ground arith;
  to_u128_overflows = λ x h. ground arith;
}

abbrev pub cost : GasInfo
cost = record { cost = 3; externally_used = 4 }

-- The instance is its gas left; the byte at an address is the address.
abbrev pub host : Host ℕ MemoryStorage (Unit {0})
host = record {
  gas_left = λ w. w;
  set_gas = λ w n. n;
  read_region = λ w ptr max. ok (ptr ∷ []);
  write_region = λ w ptr bytes. ok w;
  call_function = λ name args. pure [];
  get = λ s k. (ok (Memory.get s k), cost);
  set = λ s k v. elim (Memory.set s k v) [
    | returns s' ↦ ((ok tt, cost), s')
    | panics ↦ ((ok tt, cost), s)
  ];
  remove = λ s k. ((ok tt, cost), Memory.remove s k);
  query_raw = λ q request gas. ((ok request, cost), q);
}

pub host-IsMetered : IsMetered host
host-IsMetered = record { read_back = λ w n. refl }
