-- ===== src/Sections/RoundTrip.antt =====
-- The encoders of packages/std/src/sections.rs and packages/vm/src/sections.rs, each with the decoder
-- on the other side of the wasm boundary.
use mathlib.Core.List.{append_assoc, append-nil, reverse-cons, reverse-reverse}
use cosmwasm.Base.{
  ℕ, zero, suc, ◌+◌, ◌-◌, ◌^◌, ◌≤◌, ◌<◌, ◌≡◌, refl, sym, ◌∙◌, ap, List, [], ◌∷◌, ◌++◌, reverse,
  Outcome, returns, ◌>>=◌, ok, All, length, take, drop, lt→ltb, le→leb, All-append, length-append,
  take-append, drop-append, arith,
}
use cosmwasm.Bytes.{Bytes, to_be_bytes32}
use cosmwasm.Sections.{
  from_be_bytes32, tail_length, decode_from, decode_sections, encode_from, encode_sections,
  vm_encode_from, vm_encode_sections,
}

abbrev pub FitsU32 : Bytes → Type 0
FitsU32 s = length s < 2 ^ 32

-- The encoding of sections that are listed from the last to the first.
abbrev pub encoded : List Bytes → Bytes
encoded [] = []
encoded (s ∷ before) = (encoded before ++ s) ++ to_be_bytes32 (length s)

pub from_be-to_be :
    (n : ℕ) (rest : Bytes) → n < 2 ^ 32 → from_be_bytes32 (take 4 (to_be_bytes32 n ++ rest)) ≡ n
unfolding from_be_bytes32 to_be_bytes32
from_be-to_be n rest h = omega arith

pub length-to_be : (n : ℕ) → length (to_be_bytes32 n) ≡ 4
unfolding to_be_bytes32
length-to_be n = refl

pub length-encoded :
    (s : Bytes) (before : List Bytes)
    → length (encoded (s ∷ before)) ≡ length (encoded before) + length s + 4
length-encoded s before = omega (
  arith,
  length-append {0} (encoded before ++ s) (to_be_bytes32 (length s)),
  length-append {0} (encoded before) s,
  length-to_be (length s),
)

module _ (s : Bytes) (before : List Bytes) (junk : Bytes) (fits : FitsU32 s) where
  abbrev whole : Bytes
  whole = encoded (s ∷ before) ++ junk

  abbrev end : ℕ
  end = length (encoded (s ∷ before))

  whole_split : whole ≡ (encoded before ++ s) ++ (to_be_bytes32 (length s) ++ junk)
  whole_split = append_assoc (encoded before ++ s) (to_be_bytes32 (length s)) junk

  whole_front : whole ≡ encoded before ++ (s ++ (to_be_bytes32 (length s) ++ junk))
  whole_front = whole_split ∙ append_assoc (encoded before) s (to_be_bytes32 (length s) ++ junk)

  pub tail_length_lem : tail_length whole end ≡ length s
  unfolding tail_length
  tail_length_lem =
      let at : end - 4 ≡ length (encoded before ++ s) =
        omega (arith, length-encoded s before, length-append {0} (encoded before) s) in
      ap (λ d. from_be_bytes32 (take 4 d))
        (ap (λ n. drop n whole) at
          ∙ ap (drop (length (encoded before ++ s))) whole_split
          ∙ drop-append (encoded before ++ s) (to_be_bytes32 (length s) ++ junk))
      ∙ from_be-to_be (length s) junk fits

  section_lem : take (length s) (drop (end - 4 - length s) whole) ≡ s
  section_lem =
      let at : end - 4 - length s ≡ length (encoded before) =
        omega (arith, length-encoded s before) in
      ap (take (length s)) (
        ap (λ n. drop n whole) at
        ∙ ap (drop (length (encoded before))) whole_front
        ∙ drop-append (encoded before) (s ++ (to_be_bytes32 (length s) ++ junk)))
      ∙ take-append s (to_be_bytes32 (length s) ++ junk)

  -- One round of the decoder takes one section.
  decode_round :
      (fuel : ℕ) (result : List Bytes)
      → decode_from (suc fuel) whole end result
        ≡ decode_from fuel whole (length (encoded before)) (result ++ s ∷ [])
  unfolding decode_from
  decode_round fuel result =
      rw (tail_length_lem, section_lem)
        (rw
          (
            le→leb 4 end (omega (arith, length-encoded s before)),
            le→leb (4 + length s) end (omega (arith, length-encoded s before)),
          )
          (ap (λ n. decode_from fuel whole n (result ++ s ∷ []))
            (omega (arith, length-encoded s before))))

decode_end :
    (junk : Bytes) (fuel : ℕ) (result : List Bytes)
    → decode_from (suc fuel) junk 0 result ≡ returns result
unfolding decode_from
decode_end junk fuel result = refl

decode_from_lem :
    (before : List Bytes) (junk : Bytes) (fuel : ℕ) (result : List Bytes)
    → All FitsU32 before
    → length before < fuel
    → decode_from fuel (encoded before ++ junk) (length (encoded before)) result
      ≡ returns (result ++ before)
decode_from_lem before junk zero result h lt = absurd (omega arith)
decode_from_lem [] junk (suc fuel) result h lt =
    decode_end junk fuel result ∙ ap returns (sym (append-nil result))
decode_from_lem (s ∷ before) junk (suc fuel) result h lt =
    decode_round s before junk h.0 fuel result
    ∙ ap (λ d. decode_from fuel d (length (encoded before)) (result ++ s ∷ []))
        (whole_front s before junk h.0)
    ∙ decode_from_lem before (s ++ (to_be_bytes32 (length s) ++ junk)) fuel (result ++ s ∷ []) h.1
        (omega arith)
    ∙ ap returns (append_assoc result (s ∷ []) before)

length-le-encoded : (before : List Bytes) → length before ≤ length (encoded before)
length-le-encoded [] = omega arith
length-le-encoded (s ∷ before) = omega (arith, length-encoded s before, length-le-encoded before)

All-reverse : (P : Bytes → Type 0) (ss : List Bytes) → All P ss → All P (reverse ss)
All-reverse P [] h = tt
All-reverse P (s ∷ ss) h =
    rw reverse-cons (All-append P (reverse ss) (s ∷ []) (All-reverse P ss h.1) (h.0, tt))

decode_encoded :
    (before : List Bytes)
    → All FitsU32 before
    → decode_sections (encoded before) ≡ returns (reverse before)
unfolding decode_sections
decode_encoded before h =
    ap (λ (r : Outcome (List Bytes)). r >>= λ result. returns (reverse result))
      (ap (λ d. decode_from (length (encoded before) + 1) d (length (encoded before)) [])
          (sym (append-nil (encoded before)))
        ∙ decode_from_lem before [] (length (encoded before) + 1) [] h
            (omega (arith, length-le-encoded before)))

reverse_step :
    (s : Bytes) (ss before : List Bytes) → reverse ss ++ s ∷ before ≡ reverse (s ∷ ss) ++ before
reverse_step s ss before = rw reverse-cons (sym (append_assoc (reverse ss) (s ∷ []) before))

encode_from_lem :
    (before ss : List Bytes)
    → All FitsU32 ss
    → encode_from (encoded before) ss ≡ returns (encoded (reverse ss ++ before))
unfolding encode_from
encode_from_lem before [] h = refl
encode_from_lem before (s ∷ ss) h =
    rw (lt→ltb (length s) (2 ^ 32) h.0) (
      encode_from_lem (s ∷ before) ss h.1
      ∙ ap (λ t. returns (encoded t)) (reverse_step s ss before))

encode_sections_lem :
    (ss : List Bytes) → All FitsU32 ss → encode_sections ss ≡ returns (encoded (reverse ss))
unfolding encode_sections
encode_sections_lem ss h =
    encode_from_lem [] ss h ∙ ap (λ t. returns (encoded t)) (append-nil (reverse ss))

vm_encode_from_lem :
    (before ss : List Bytes)
    → All FitsU32 ss
    → vm_encode_from (encoded before) ss ≡ ok (encoded (reverse ss ++ before))
unfolding vm_encode_from
vm_encode_from_lem before [] h = refl
vm_encode_from_lem before (s ∷ ss) h =
    rw (lt→ltb (length s) (2 ^ 32) h.0)
      (vm_encode_from_lem (s ∷ before) ss h.1 ∙ ap (λ t. ok (encoded t)) (reverse_step s ss before))

-- Sections of less than 2 ^ 32 bytes each, encoded by the contract, are decoded by the VM to the
-- same sections; the VM's own encoder gives the same bytes.
pub decode_sections-encode_sections :
    (ss : List Bytes)
    → All FitsU32 ss
    → (d : Bytes) × (encode_sections ss ≡ returns d)
      × (vm_encode_sections ss ≡ ok d)
      × (decode_sections d ≡ returns ss)
unfolding vm_encode_sections
decode_sections-encode_sections ss h = (
  encoded (reverse ss),
  encode_sections_lem ss h,
  vm_encode_from_lem [] ss h ∙ ap (λ t. ok (encoded t)) (append-nil (reverse ss)),
  decode_encoded (reverse ss) (All-reverse FitsU32 ss h) ∙ ap returns (reverse-reverse ss),
)
