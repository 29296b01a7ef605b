-- ===== src/Sections/Malformed.antt =====
-- The decoders of packages/std/src/sections.rs and packages/vm/src/sections.rs on data whose last
-- four bytes name a length that the data does not have.
use cosmwasm.Base.{
  ℕ, suc, ◌+◌, ◌-◌, ◌^◌, ◌<◌, ◌≡◌, ap, ◌∙◌, sym, [], ◌++◌, reverse, panics, returns, length,
  length-append, drop-append, take, drop, le→leb, gt→leb, arith, ◌>>=◌,
}
use mathlib.Core.List.{append-nil}
use cosmwasm.Bytes.{Bytes, to_be_bytes32}
use cosmwasm.Sections.{from_be_bytes32, tail_length, decode_from, decode_sections, split_tail}
use cosmwasm.Sections.RoundTrip.{from_be-to_be, length-to_be}

module _ (front : Bytes) (n : ℕ) (fits : n < 2 ^ 32) (beyond : length front < n) where
  abbrev pub malformed : Bytes
  malformed = front ++ to_be_bytes32 n

  length-malformed : length malformed ≡ length front + 4
  length-malformed = omega (arith, length-append {0} front (to_be_bytes32 n), length-to_be n)

  tail_length-malformed : tail_length malformed (length malformed) ≡ n
  unfolding tail_length
  tail_length-malformed =
      let start : length malformed - 4 ≡ length front = omega (arith, length-malformed) in
      ap (λ k. from_be_bytes32 (take 4 (drop k malformed))) start
      ∙ ap (λ d. from_be_bytes32 (take 4 d))
          (drop-append front (to_be_bytes32 n) ∙ sym (append-nil (to_be_bytes32 n)))
      ∙ from_be-to_be n [] fits

  decode_from-malformed :
      (fuel : ℕ) → decode_from (suc fuel) malformed (length malformed) [] ≡ panics
  unfolding decode_from
  decode_from-malformed fuel = rw (
    tail_length-malformed,
    le→leb 4 (length malformed) (omega (arith, length-malformed)),
    gt→leb (4 + n) (length malformed) (omega (arith, length-malformed)),
  )

  -- Data that ends in the four bytes of a number above the count of the bytes before them makes both
  -- `decode_sections` and `split_tail` panic.
  pub decoders_panic : (decode_sections malformed ≡ panics) × (split_tail malformed ≡ panics)
  unfolding decode_sections split_tail
  decoders_panic =
      let next : length malformed + 1 ≡ suc (length malformed) = omega arith in
      (
        ap (λ f. decode_from f malformed (length malformed) [] >>= λ r. returns (reverse r)) next
            ∙ ap (λ d. d >>= λ r. returns (reverse r)) (decode_from-malformed (length malformed)),
        rw (
          tail_length-malformed,
          le→leb 4 (length malformed) (omega (arith, length-malformed)),
          gt→leb (4 + n) (length malformed) (omega (arith, length-malformed)),
        ),
      )
