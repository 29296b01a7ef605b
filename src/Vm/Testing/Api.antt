-- ===== src/Vm/Testing/Api.antt =====
-- packages/vm/src/testing/mock.rs: the addresses of the backend for tests. A string is its bytes.
use Prim.Native.String.{String}
use cosmwasm.Base.{
  ℕ, ◌≡◌, ◌≢◌, ◌≤◌, refl, Option, none, some, not, true, All, length, Outcome, returns, ◌>>=◌,
  Result, ok, err, ltb, ge→ltb, ◌==◌, if◌then◌else◌,
}
use cosmwasm.Bytes.{Bytes}
use cosmwasm.Utf8.{is_utf8}
use cosmwasm.Mock.{to_canonical, to_human}
use cosmwasm.Mock.RoundTrip.{canonical_of, to_human-to_canonical}
use cosmwasm.Vm.Errors.{BackendError, unknown, user_err, invalid_utf8}
use cosmwasm.Vm.Gas.{GasInfo, with_cost}

abbrev pub gas_cost_humanize : ℕ
gas_cost_humanize = 44

abbrev pub gas_cost_canonicalize : ℕ
gas_cost_canonicalize = 55

pub record MockApi : Type 0 where
  pub canonical_length : ℕ
  pub backend_error : Option String

unfoldable pub default_api : MockApi
default_api = record { canonical_length = 54; backend_error = none }

unfoldable pub new_failing : String → MockApi
unfolding default_api
new_failing backend_error = record default_api { backend_error = some backend_error }

-- A result of the backend, and the gas that it took.
abbrev pub Reply : Type 0
Reply = Result BackendError Bytes × GasInfo

abbrev refuse : String → ℕ → Outcome Reply
refuse msg cost = returns (err (user_err msg), with_cost cost)

unfoldable pub canonical_address : MockApi → Bytes → Outcome Reply
unfolding with_cost
canonical_address api human = elim api.backend_error [
  | some msg ↦ returns (err (unknown (some msg)), with_cost gas_cost_canonicalize)
  | none ↦
      if ltb (length human) 3
      then refuse "Invalid input: human address too short" gas_cost_canonicalize
      else if ltb api.canonical_length (length human)
      then refuse "Invalid input: human address too long" gas_cost_canonicalize
      else (to_canonical api.canonical_length human >>= λ out.
          returns (ok out, with_cost gas_cost_canonicalize))
]

abbrev from_utf8 : Bytes → Result BackendError Bytes
from_utf8 trimmed = if is_utf8 trimmed then ok trimmed else err invalid_utf8

unfoldable pub human_address : MockApi → Bytes → Outcome Reply
unfolding with_cost is_utf8
human_address api canonical = elim api.backend_error [
  | some msg ↦ returns (err (unknown (some msg)), with_cost gas_cost_humanize)
  | none ↦
      if not (length canonical == api.canonical_length)
      then refuse "Invalid input: canonical address length not correct" gas_cost_humanize
      else (to_human api.canonical_length canonical >>= λ trimmed.
          returns (from_utf8 trimmed, with_cost gas_cost_humanize))
]

-- The default API gives a string of three to 54 bytes without NUL back for its canonical address.
pub human_address-canonical_address :
    (human : Bytes)
    → is_utf8 human ≡ true
    → All (λ b. b ≢ 0) human
    → 3 ≤ length human
    → length human ≤ 54
    → (canonical_address default_api human
        ≡ returns (ok (canonical_of human), with_cost gas_cost_canonicalize))
      × (human_address default_api (canonical_of human)
          ≡ returns (ok human, with_cost gas_cost_humanize))
unfolding canonical_address human_address default_api
human_address-canonical_address human utf8 nonzero least most =
    let (e, long, back) = to_human-to_canonical human most nonzero in
    (
      rw (canonical_address, ge→ltb (length human) 3 least, ge→ltb 54 (length human) most, e) refl,
      rw (human_address, long, back, utf8) refl,
    )
