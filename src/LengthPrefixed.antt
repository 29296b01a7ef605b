-- ===== src/LengthPrefixed.antt =====
-- packages/storage/src/length_prefixed.rs: the raw key prefix of a namespace, its length in two
-- bytes and then the namespace. `usize` is read as unbounded, so the capacity that is computed for
-- the vector is left out: it changes no result.
pub mod Decode
use cosmwasm.Base.{
  ℕ, ◌%◌, ◌^◌, List, [], ◌∷◌, ◌++◌, Outcome, returns, panics, ◌>>=◌, ltb, length, if◌then◌else◌,
}
use cosmwasm.Bytes.{Bytes, to_be_bytes32}

-- `[length_bytes[2], length_bytes[3]]`
unfoldable pub low_half : Bytes → Bytes
low_half (b0 ∷ b1 ∷ b2 ∷ b3 ∷ rest) = b2 ∷ b3 ∷ []
low_half short = []

unfoldable pub encode_length : Bytes → Outcome Bytes
unfolding low_half to_be_bytes32
encode_length namespace =
    if ltb 0xffff (length namespace)
    then panics
    else returns (low_half (to_be_bytes32 (length namespace % 2 ^ 32)))

unfoldable pub to_length_prefixed : Bytes → Outcome Bytes
to_length_prefixed namespace = do
  length_bytes ← encode_length namespace
  returns (length_bytes ++ namespace)

-- The loop over the namespaces, with what is written to `out` so far.
unfoldable pub extend_prefixes : Bytes → List Bytes → Outcome Bytes
extend_prefixes out [] = returns out
extend_prefixes out (namespace ∷ rest) = do
  length_bytes ← encode_length namespace
  extend_prefixes ((out ++ length_bytes) ++ namespace) rest

unfoldable pub to_length_prefixed_nested : List Bytes → Outcome Bytes
to_length_prefixed_nested namespaces = extend_prefixes [] namespaces
