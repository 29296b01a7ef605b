-- ===== src/Mock.antt =====
-- packages/std/src/mock.rs: the addresses of the API for tests. A string is its bytes.
pub mod Shuffle
pub mod RoundTrip
use cosmwasm.Base.{
  ℕ, zero, suc, ◌+◌, ◌-◌, ◌/◌, ◌%◌, Bool, not, List, [], ◌∷◌, ◌++◌, length, take, drop, select,
  Outcome, returns, panics, ◌>>=◌, ltb, ◌==◌, if◌then◌else◌,
}
use cosmwasm.Base.Call
use cosmwasm.Base.Call.{Call, success, failure, run}
use cosmwasm.Bytes.{Bytes}
use cosmwasm.Errors.{StdError, generic_err, other}
use cosmwasm.Utf8.{is_utf8}

abbrev pub default_length : ℕ
default_length = 54

abbrev pub shuffles_encode : ℕ
shuffles_encode = 18

abbrev pub shuffles_decode : ℕ
shuffles_decode = 2

-- The loop of `riffle_shuffle` over the two halves.
unfoldable pub interleave {ℓ} : {A : Type ℓ} → List A → List A → List A
interleave (r ∷ rs) (l ∷ ls) = r ∷ l ∷ interleave rs ls
interleave _ _ = []

unfoldable pub riffle_shuffle {ℓ} : {A : Type ℓ} → List A → Outcome (List A)
unfolding interleave
riffle_shuffle input =
    if length input % 2 == 0
    then returns (interleave (drop (length input / 2) input) (take (length input / 2) input))
    else panics

unfoldable pub shuffles {ℓ} : {A : Type ℓ} → ℕ → List A → Outcome (List A)
unfolding riffle_shuffle
shuffles zero out = returns out
shuffles (suc n) out = riffle_shuffle out >>= shuffles n

-- `fold(0, |sum, val| sum + val)`, from a sum on.
unfoldable pub digit_sum_from : ℕ → Bytes → ℕ
digit_sum_from sum [] = sum
digit_sum_from sum (val ∷ input) = digit_sum_from (sum + val) input

unfoldable pub digit_sum : Bytes → ℕ
unfolding digit_sum_from
digit_sum input = digit_sum_from 0 input

abbrev pub zeros : ℕ → Bytes
zeros zero = []
zeros (suc n) = 0 ∷ zeros n

-- `Vec::resize(len, 0x00)`
abbrev pub resize : ℕ → Bytes → Bytes
resize len out = take len out ++ zeros (len - length out)

abbrev pub rotate_left : ℕ → Bytes → Bytes
rotate_left k out = drop k out ++ take k out

abbrev pub rotate_right : ℕ → Bytes → Bytes
rotate_right k out = drop (length out - k) out ++ take (length out - k) out

-- A remainder by zero panics.
abbrev pub rotate_by : ℕ → Bytes → Outcome ℕ
rotate_by len out = if len == 0 then panics else returns (digit_sum out % len)

-- The address that a human one becomes, without the checks in front.
unfoldable pub to_canonical : ℕ → Bytes → Outcome Bytes
unfolding digit_sum shuffles
to_canonical canonical_length human = do
  k ← rotate_by canonical_length (resize canonical_length human)
  shuffles shuffles_encode (rotate_left k (resize canonical_length human))

-- The bytes that a canonical address stands for, without the checks in front.
unfoldable pub to_human : ℕ → Bytes → Outcome Bytes
unfolding digit_sum shuffles
to_human canonical_length canonical = do
  tmp ← shuffles shuffles_decode canonical
  k ← rotate_by canonical_length tmp
  returns (select (λ x. not (x == 0)) (rotate_right k tmp))

abbrev check_utf8 : Bytes → Call StdError Bytes
check_utf8 trimmed = if is_utf8 trimmed then success trimmed else failure (other "invalid utf-8")

-- `MockApi` has the length alone.
unfoldable pub addr_canonicalize : ℕ → Bytes → Call StdError Bytes
addr_canonicalize canonical_length human =
    if ltb (length human) 3
    then failure (generic_err "Invalid input: human address too short")
    else if ltb canonical_length (length human)
    then failure (generic_err "Invalid input: human address too long")
    else run (to_canonical canonical_length human)

unfoldable pub addr_validate : ℕ → Bytes → Call StdError Bytes
unfolding addr_canonicalize
addr_validate canonical_length human =
    Call.◌>>=◌ (addr_canonicalize canonical_length human) (λ _. success human)

unfoldable pub addr_humanize : ℕ → Bytes → Call StdError Bytes
addr_humanize canonical_length canonical =
    if not (length canonical == canonical_length)
    then failure (generic_err "Invalid input: canonical address length not correct")
    else Call.◌>>=◌ (run (to_human canonical_length canonical)) check_utf8
