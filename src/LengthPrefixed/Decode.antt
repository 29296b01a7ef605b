-- ===== src/LengthPrefixed/Decode.antt =====
-- packages/storage/src/length_prefixed.rs read as a code: which namespaces a raw key begins with.
use mathlib.Core.List.{append_assoc, append-nil}
use cosmwasm.Base.{
  ◌/◌, ◌%◌, ◌≤◌, ◌≡◌, refl, ◌≢◌, ap, List, [], ◌∷◌, ◌++◌, none, All, returns, panics, length, ltb,
  arith, inl, inr, Option-cases, Bool-cases, ltb→lt, ltb→ge, sym, ◌∙◌,
}
use cosmwasm.Bytes.{Bytes, strip}
use cosmwasm.Bytes.Prefix.{eq_of_strip}
use cosmwasm.LengthPrefixed.{
  encode_length, to_length_prefixed, extend_prefixes, to_length_prefixed_nested,
}

-- The prefix of a namespace that is short enough.
abbrev pub prefix_of : Bytes → Bytes
prefix_of ns = length ns / 256 ∷ length ns % 256 ∷ ns

abbrev pub prefix_of_all : List Bytes → Bytes
prefix_of_all [] = []
prefix_of_all (ns ∷ rest) = prefix_of ns ++ prefix_of_all rest

abbrev pub IsShort : Bytes → Type 0
IsShort ns = length ns ≤ 65535

encode_length_lem :
    (ns : Bytes) → IsShort ns → encode_length ns ≡ returns (length ns / 256 ∷ length ns % 256 ∷ [])
unfolding encode_length
encode_length_lem ns h = ground arith

encode_length_long : (ns : Bytes) → ¬ (IsShort ns) → encode_length ns ≡ panics
unfolding encode_length
encode_length_long ns h = ground arith

pub to_length_prefixed_lem :
    (ns : Bytes) → IsShort ns → to_length_prefixed ns ≡ returns (prefix_of ns)
unfolding to_length_prefixed
to_length_prefixed_lem ns h = rw (encode_length_lem ns h)

-- A prefix is returned only for a namespace of at most 0xFFFF bytes.
pub eq_of_to_length_prefixed :
    (ns : Bytes) {p : Bytes} → to_length_prefixed ns ≡ returns p → IsShort ns × (p ≡ prefix_of ns)
unfolding to_length_prefixed
eq_of_to_length_prefixed ns h = ground (arith, encode_length_lem ns, encode_length_long ns)

append_inj : (a b x y : Bytes) → length a ≡ length b → a ++ x ≡ b ++ y → (a ≡ b) × (x ≡ y)
append_inj [] [] x y l h = (refl, h)
append_inj [] (c ∷ b) x y l h = absurd (omega arith)
append_inj (c ∷ a) [] x y l h = absurd (omega arith)
append_inj (c ∷ a) (d ∷ b) x y l h = let (e, f) = append_inj a b x y (omega arith) (cc) in (cc, f)

pub prefix_of_inj : (a b x y : Bytes) → prefix_of a ++ x ≡ prefix_of b ++ y → (a ≡ b) × (x ≡ y)
prefix_of_inj a b x y h =
    let hi : length a / 256 ≡ length b / 256 = cc in
    let lo : length a % 256 ≡ length b % 256 = cc in append_inj a b x y (omega arith) (cc)

pub prefix_of_all_inj :
    (ks ls : List Bytes) (x y : Bytes)
    → length ks ≡ length ls
    → prefix_of_all ks ++ x ≡ prefix_of_all ls ++ y
    → (ks ≡ ls) × (x ≡ y)
prefix_of_all_inj [] [] x y n h = (refl, h)
prefix_of_all_inj [] (l ∷ ls) x y n h = absurd (omega arith)
prefix_of_all_inj (k ∷ ks) [] x y n h = absurd (omega arith)
prefix_of_all_inj (k ∷ ks) (l ∷ ls) x y n h =
    let (e, rest) = prefix_of_inj k l (prefix_of_all ks ++ x) (prefix_of_all ls ++ y) (
      sym (append_assoc (prefix_of k) (prefix_of_all ks) x)
      ∙ h
      ∙ append_assoc (prefix_of l) (prefix_of_all ls) y) in
    let (es, f) = prefix_of_all_inj ks ls x y (omega arith) rest in (cc, f)

extend_prefixes_lem :
    (out : Bytes) (nss : List Bytes)
    → All IsShort nss
    → extend_prefixes out nss ≡ returns (out ++ prefix_of_all nss)
unfolding extend_prefixes
extend_prefixes_lem out [] h = rw (append-nil out)
extend_prefixes_lem out (ns ∷ nss) h =
    rw
      (
        encode_length_lem ns h.0,
        extend_prefixes_lem ((out ++ length ns / 256 ∷ length ns % 256 ∷ []) ++ ns) nss h.1,
      )
      (ap returns (
        append_assoc (out ++ length ns / 256 ∷ length ns % 256 ∷ []) ns (prefix_of_all nss)
        ∙ append_assoc out (length ns / 256 ∷ length ns % 256 ∷ []) (ns ++ prefix_of_all nss)))

extend_prefixes-IsShort :
    (out : Bytes) (nss : List Bytes) {p : Bytes}
    → extend_prefixes out nss ≡ returns p
    → All IsShort nss
unfolding extend_prefixes
extend_prefixes-IsShort out [] h = tt
extend_prefixes-IsShort out (ns ∷ nss) {p} h = elim (Bool-cases (ltb 65535 (length ns))) [
  | inl long ↦ cc (rw (encode_length_long ns (omega (arith, ltb→lt 65535 (length ns) long))) at h)
  | inr fits ↦
      let short : IsShort ns = omega (arith, ltb→ge 65535 (length ns) fits) in
      (
        short,
        extend_prefixes-IsShort ((out ++ length ns / 256 ∷ length ns % 256 ∷ []) ++ ns) nss
            (rw (encode_length_lem ns short) at h),
      )
]

-- The nested prefix is returned exactly for namespaces of at most 0xFFFF bytes each.
pub eq_of_to_length_prefixed_nested :
    (nss : List Bytes) {p : Bytes}
    → to_length_prefixed_nested nss ≡ returns p
    → All IsShort nss × (p ≡ prefix_of_all nss)
unfolding to_length_prefixed_nested
eq_of_to_length_prefixed_nested nss h =
    let short = extend_prefixes-IsShort [] nss h in (short, cc (extend_prefixes_lem [] nss short))

pub to_length_prefixed_nested_lem :
    (nss : List Bytes)
    → All IsShort nss
    → to_length_prefixed_nested nss ≡ returns (prefix_of_all nss)
unfolding to_length_prefixed_nested
to_length_prefixed_nested_lem nss h = extend_prefixes_lem [] nss h

-- Where the prefixes of two lists of namespaces, of the same length, begin one raw key, the lists are
-- the same, and so is the rest of the key.
pub nested_prefix_unique :
    (ks ls : List Bytes) (x y : Bytes) {p q : Bytes}
    → length ks ≡ length ls
    → to_length_prefixed_nested ks ≡ returns p
    → to_length_prefixed_nested ls ≡ returns q
    → p ++ x ≡ q ++ y
    → (ks ≡ ls) × (x ≡ y)
nested_prefix_unique ks ls x y {p} {q} n hk hl e =
    let ep = (eq_of_to_length_prefixed_nested ks hk).1 in
    let eq = (eq_of_to_length_prefixed_nested ls hl).1 in prefix_of_all_inj ks ls x y n (cc)

-- No raw key lies under the prefixes of two different namespaces.
pub strip-other :
    (k l y : Bytes) {p q : Bytes}
    → k ≢ l
    → to_length_prefixed k ≡ returns p
    → to_length_prefixed l ≡ returns q
    → strip p (q ++ y) ≡ none
strip-other k l y {p} {q} n hk hl =
    let ep = (eq_of_to_length_prefixed k hk).1 in
    let eq = (eq_of_to_length_prefixed l hl).1 in
    elim (Option-cases (strip p (q ++ y))) [
      | inl e ↦ e
      | inr (r, e) ↦
          absurd (n (sym (prefix_of_inj l k y r (let f = eq_of_strip p (q ++ y) r e in cc)).0))
    ]
