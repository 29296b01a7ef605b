-- ===== src/Sections/SplitTail.antt =====
-- `encode_sections` of packages/vm/src/sections.rs with `decode_sections2` of
-- packages/std/src/sections.rs.
use mathlib.Core.Path.{ap₂}
use mathlib.Core.List.{append_assoc, append-nil}
use cosmwasm.Base.{
  ℕ, zero, suc, ◌+◌, ◌-◌, ◌^◌, ◌≡◌, refl, sym, ◌∙◌, ap, List, [], ◌∷◌, ◌++◌, Outcome, returns,
  ◌>>=◌, ok, length, take, drop, lt→ltb, le→leb, take-append, drop-append, arith, false,
  if◌then◌else◌, ◌==◌,
}
use cosmwasm.Bytes.{Bytes, to_be_bytes32}
use cosmwasm.Sections.{tail_length, vm_encode_sections, split_tail, decode_sections2}
use cosmwasm.Sections.RoundTrip.{FitsU32, encoded, length-encoded, tail_length_lem}

suc_ne_zero : (n : ℕ) → (suc n == 0) ≡ false
suc_ne_zero n = ground arith

nil_of_length : (d : Bytes) → length d ≡ 0 → d ≡ []
nil_of_length [] h = refl
nil_of_length (b ∷ d) h = absurd (omega arith)

module _ (s : Bytes) (before : List Bytes) (fits : FitsU32 s) where
  abbrev data' : Bytes
  data' = encoded (s ∷ before)

  abbrev front : ℕ
  front = length (encoded before)

  same : data' ++ [] ≡ data'
  same = append-nil data'

  tail : tail_length data' (length data') ≡ length s
  tail = ap (λ d. tail_length d (length data')) (sym same) ∙ tail_length_lem s before [] fits

  pieces : (take front data' ≡ encoded before) × (take (length s) (drop front data') ≡ s)
  pieces =
      let whole = append_assoc (encoded before) s (to_be_bytes32 (length s)) in
      (
        ap (take front) whole ∙ take-append (encoded before) (s ++ to_be_bytes32 (length s)),
        ap (λ d. take (length s) (drop front d)) whole
            ∙ ap (take (length s)) (drop-append (encoded before) (s ++ to_be_bytes32 (length s)))
            ∙ take-append s (to_be_bytes32 (length s)),
      )

  split_choice :
      (n : ℕ)
      → n ≡ front
      → ◌≡◌ {A = Bytes × Bytes}
          (if n == 0
            then ([], take (length s) data')
            else (take n data', take (length s) (drop n data')))
          (encoded before, s)
  split_choice zero e =
      let empty = nil_of_length (encoded before) (sym e) in
      ap₂ (λ a b. (a, b)) (sym empty) (ap (λ n. take (length s) (drop n data')) e ∙ pieces.1)
  split_choice (suc n) e = rw (suc_ne_zero n) (
      ap₂ (λ a b. (a, b)) (ap (λ n. take n data') e ∙ pieces.0)
        (ap (λ n. take (length s) (drop n data')) e ∙ pieces.1))

  split_tail-encoded : split_tail data' ≡ returns (encoded before, s)
  unfolding split_tail
  split_tail-encoded =
      rw
        (
          tail,
          le→leb 4 (length data') (omega (arith, length-encoded s before)),
          le→leb (4 + length s) (length data') (omega (arith, length-encoded s before)),
        )
        (ap returns
          (split_choice (length data' - 4 - length s) (omega (arith, length-encoded s before))))

-- Two sections of less than 2 ^ 32 bytes each that the VM encodes are split again by the contract's decoder for two.
pub decode_sections2-encode_sections :
    (first second : Bytes)
    → FitsU32 first
    → FitsU32 second
    → (d : Bytes) × (vm_encode_sections (first ∷ second ∷ []) ≡ ok d)
      × (decode_sections2 d ≡ returns (first, second))
unfolding decode_sections2 vm_encode_sections
decode_sections2-encode_sections first second hf hs = (
  encoded (second ∷ first ∷ []),
  rw (lt→ltb (length first) (2 ^ 32) hf, lt→ltb (length second) (2 ^ 32) hs),
  ap
        (λ (t : Outcome (Bytes × Bytes)).
          t >>= λ tail. split_tail tail.0 >>= λ f. returns (f.1, tail.1))
        (split_tail-encoded second (first ∷ []) hs)
      ∙ ap (λ (t : Outcome (Bytes × Bytes)). t >>= λ f. returns (f.1, second))
          (split_tail-encoded first [] hf),
)
