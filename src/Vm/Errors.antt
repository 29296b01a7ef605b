-- ===== src/Vm/Errors.antt =====
-- packages/vm/src/errors and `BackendError` of packages/vm/src/backend.rs: the errors that the
-- modelled calls raise. A message is kept where the code reads it.
use Prim.Native.String.{String}
use cosmwasm.Base.{ℕ, Option}

pub data BackendError : Type 0 where
  foreign_panic bad_argument invalid_utf8 out_of_gas : BackendError
  iterator_does_not_exist : ℕ → BackendError
  unknown : Option String → BackendError
  user_err : String → BackendError

pub data VmError : Type 0 where
  gas_depletion write_access_denied zero_address : VmError
  invalid_order : ℕ → VmError
  backend_err : BackendError → VmError
  conversion_err : ℕ → VmError
  result_mismatch : ℕ → ℕ → VmError
  uninitialized_context_data : String → VmError
  region_err : VmError
  runtime_err : String → VmError
  cache_err : String → VmError
  integrity_err : VmError
  static_validation_err : String → VmError

-- `impl From<BackendError> for VmError`
unfoldable pub from_backend : BackendError → VmError
from_backend out_of_gas = gas_depletion
from_backend foreign_panic = backend_err foreign_panic
from_backend bad_argument = backend_err bad_argument
from_backend invalid_utf8 = backend_err invalid_utf8
from_backend (iterator_does_not_exist id) = backend_err (iterator_does_not_exist id)
from_backend (unknown msg) = backend_err (unknown msg)
from_backend (user_err msg) = backend_err (user_err msg)
