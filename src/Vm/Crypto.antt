-- ===== src/Vm/Crypto.antt =====
-- `CryptoError` of packages/crypto/src/errors.rs, and how the imports of packages/vm/src/imports.rs
-- pass the result of a verification to the contract. The verifications themselves are those of the
-- package cosmwasm-crypto over other packages; here they are functions that the imports are given.
use Prim.Native.String.{String}
use cosmwasm.Base.{ℕ, ◌*◌, ◌^◌, Bool, true, false, Result, ok, err, Outcome, returns, panics}

pub data CryptoError : Type 0 where
  invalid_hash_format invalid_signature_format invalid_pubkey_format : CryptoError
  invalid_recovery_param : CryptoError
  batch_err generic_err : String → CryptoError

unfoldable pub code : CryptoError → ℕ
code invalid_hash_format = 3
code invalid_signature_format = 4
code invalid_pubkey_format = 5
code invalid_recovery_param = 6
code (batch_err msg) = 7
code (generic_err msg) = 10

-- `if valid { 0 } else { 1 }`
abbrev verdict : Bool → ℕ
verdict true = 0
verdict false = 1

unfoldable pub secp256k1_verify_code : Result CryptoError Bool → Outcome ℕ
unfolding code
secp256k1_verify_code (ok valid) = returns (verdict valid)
secp256k1_verify_code (err (batch_err msg)) = panics
secp256k1_verify_code (err invalid_recovery_param) = panics
secp256k1_verify_code (err e) = returns (code e)

unfoldable pub ed25519_verify_code : Result CryptoError Bool → Outcome ℕ
unfolding code
ed25519_verify_code (ok valid) = returns (verdict valid)
ed25519_verify_code (err (batch_err msg)) = panics
ed25519_verify_code (err invalid_hash_format) = panics
ed25519_verify_code (err invalid_recovery_param) = panics
ed25519_verify_code (err e) = returns (code e)

unfoldable pub ed25519_batch_verify_code : Result CryptoError Bool → Outcome ℕ
unfolding code
ed25519_batch_verify_code (ok valid) = returns (verdict valid)
ed25519_batch_verify_code (err invalid_hash_format) = panics
ed25519_batch_verify_code (err invalid_recovery_param) = panics
ed25519_batch_verify_code (err e) = returns (code e)

-- The error half of what `do_secp256k1_recover_pubkey` returns.
unfoldable pub recover_pubkey_code : CryptoError → Outcome ℕ
unfolding code
recover_pubkey_code (batch_err msg) = panics
recover_pubkey_code invalid_pubkey_format = panics
recover_pubkey_code e = returns (code e)

-- `(data as u64) << 32`
unfoldable pub to_high_half : ℕ → ℕ
to_high_half data' = data' * 2 ^ 32

unfoldable pub to_low_half : ℕ → ℕ
to_low_half data' = data'
