-- ===== src/Sections.antt =====
-- packages/std/src/sections.rs and packages/vm/src/sections.rs: several byte strings in one, each
-- followed by its length in four bytes, big endian. `usize` has 64 bits.
pub mod RoundTrip
pub mod SplitTail
pub mod Malformed
use cosmwasm.Base.{
  ℕ, zero, suc, ◌+◌, ◌-◌, ◌*◌, ◌^◌, ◌<◌, Option, none, some, List, [], ◌∷◌, ◌++◌, reverse, Outcome,
  returns, panics, ◌>>=◌, Result, ok, err, and_then, length, take, drop, ltb, leb, ◌==◌,
  if◌then◌else◌, true, false,
}
use cosmwasm.Bytes.{Bytes, to_be_bytes32}

-- `u32::from_be_bytes`
unfoldable pub from_be_bytes32 : Bytes → ℕ
from_be_bytes32 (a ∷ b ∷ c ∷ d ∷ rest) = a * 2 ^ 24 + b * 2 ^ 16 + c * 2 ^ 8 + d
from_be_bytes32 short = 0

-- The last four bytes of `data[..len]`, as a number.
unfoldable pub tail_length : Bytes → ℕ → ℕ
unfolding from_be_bytes32
tail_length data' len = from_be_bytes32 (take 4 (drop (len - 4) data'))

-- `VmError::ConversionErr`, with the input that does not fit in a `u32`.
pub record ConversionErr : Type 0 where
  pub input : ℕ

-- packages/vm/src/conversion.rs
unfoldable pub to_u32 : ℕ → Result ConversionErr ℕ
to_u32 input = if ltb input (2 ^ 32) then ok input else err (record { input = input })

-- packages/std/src/conversion.rs, on a target whose pointers are wider than 32 bits.
unfoldable pub force_to_u32 : ℕ → Outcome ℕ
force_to_u32 input = if ltb input (2 ^ 32) then returns input else panics

-- The loop of the VM's `encode_sections`, with what `out_data` holds so far.
unfoldable pub vm_encode_from : Bytes → List Bytes → Result ConversionErr Bytes
unfolding to_u32
vm_encode_from out [] = ok out
vm_encode_from out (section ∷ rest) =
    and_then (to_u32 (length section))
      (λ n. vm_encode_from ((out ++ section) ++ to_be_bytes32 n) rest)

unfoldable pub vm_encode_sections : List Bytes → Result ConversionErr Bytes
unfolding vm_encode_from
vm_encode_sections sections = vm_encode_from [] sections

-- The loop of the contract's `encode_sections`.
unfoldable pub encode_from : Bytes → List Bytes → Outcome Bytes
unfolding force_to_u32
encode_from out [] = returns out
encode_from out (section ∷ rest) = do
  n ← force_to_u32 (length section)
  encode_from ((out ++ section) ++ to_be_bytes32 n) rest

unfoldable pub encode_sections : List Bytes → Outcome Bytes
unfolding encode_from
encode_sections sections = encode_from [] sections

-- The loop of `decode_sections`, on fuel: the sections found so far, the last one first. A length
-- that reaches over the start of the data makes the subtraction panic.
unfoldable pub decode_from : ℕ → Bytes → ℕ → List Bytes → Outcome (List Bytes)
unfolding tail_length
decode_from zero data' remaining result = panics
decode_from (suc fuel) data' remaining result =
    let tail_len = tail_length data' remaining in
    let section = take tail_len (drop (remaining - 4 - tail_len) data') in
    let next = decode_from fuel data' (remaining - (4 + tail_len)) (result ++ section ∷ []) in
    if leb 4 remaining
    then if leb (4 + tail_len) remaining then next else panics
    else returns result

-- Each round takes four bytes at least, so the length of the data is fuel enough.
unfoldable pub decode_sections : Bytes → Outcome (List Bytes)
unfolding decode_from
decode_sections data' =
    decode_from (length data' + 1) data' (length data') [] >>= λ result. returns (reverse result)

-- `split_tail`: what stands before the last section, and the section without its length.
unfoldable pub split_tail : Bytes → Outcome (Bytes × Bytes)
unfolding tail_length
split_tail data' =
    let len = length data' in
    let tail_len = tail_length data' len in
    let rest_len_end = len - 4 - tail_len in
    if leb 4 len
    then if leb (4 + tail_len) len
      then returns (
          if rest_len_end == 0
          then ([], take tail_len data')
          else (take rest_len_end data', take tail_len (drop rest_len_end data')))
      else panics
    else panics

unfoldable pub decode_sections2 : Bytes → Outcome (Bytes × Bytes)
unfolding split_tail
decode_sections2 data' = do
  tail ← split_tail data'
  front ← split_tail tail.0
  returns (front.1, tail.1)
