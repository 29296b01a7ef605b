-- ===== src/Serde.antt =====
-- The JSON encoding of a stored type. `serde_json_wasm` is another package, so `to_vec` and
-- `from_slice` of packages/std/src/serde.rs enter as an interface; what the storage code relies on
-- is that a value reads back from its encoding, and that JSON text is never empty.
use cosmwasm.Base.{◌≡◌, ◌≢◌, [], ok}
use cosmwasm.Bytes.{Bytes}
use cosmwasm.Errors.{StdResult}
use Prim.Native.String.{String}

pub record Serde (T : Type 0) : Type 0 where
  pub type_name : String
  pub to_vec : T → StdResult Bytes
  pub from_slice : Bytes → StdResult T

pub record IsSerde {T : Type 0} (c : Serde T) : Type 0 where
  pub read_back : (t : T) (b : Bytes) → c.to_vec t ≡ ok b → c.from_slice b ≡ ok t
  pub nonempty : (t : T) (b : Bytes) → c.to_vec t ≡ ok b → b ≢ []
