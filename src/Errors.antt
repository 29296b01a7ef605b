-- ===== src/Errors.antt =====
-- packages/std/src/errors/std_error.rs: the errors of contract code. The operands of an
-- arithmetic error are kept as numbers, where the source keeps their decimal digits; the text of a
-- generic error is its format string, without the values put in.
use Prim.Native.String.{String}
use cosmwasm.Base.{ℕ, Result}

pub data OverflowOperation : Type 0 where
  add sub mul pow shr shl : OverflowOperation

pub record OverflowError : Type 0 where
  pub operation : OverflowOperation
  pub operand1 : ℕ
  pub operand2 : ℕ

pub record DivideByZeroError : Type 0 where
  pub operand : ℕ

pub record ConversionOverflowError : Type 0 where
  pub source_type : String
  pub target_type : String
  pub value : ℕ

-- The variants that the modelled code raises or passes on. `other` is any of the variants that
-- wrap a failed verification or decoding.
pub data StdError : Type 0 where
  generic_err : String → StdError
  not_found : String → StdError
  parse_err : String → StdError
  serialize_err : String → StdError
  overflow : OverflowError → StdError
  divide_by_zero : DivideByZeroError → StdError
  conversion_overflow : ConversionOverflowError → StdError
  other : String → StdError

abbrev pub StdResult : Type 0 → Type 0
StdResult = Result StdError
