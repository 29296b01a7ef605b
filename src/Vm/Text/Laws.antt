-- ===== src/Vm/Text/Laws.antt =====
-- What is in a set of strings, and lengths of texts.
use Prim.Native.String.{String, len, compare, slice}
use Prim.Native.String
use Prim.Native.Nat.{Ordering}
use Prim.Native.Nat.Ordering.{lt, eq, gt}
use text.Mathlib.TextEquality.{eq_iff, path_by_compare}
use text.Mathlib.TextPositions.{compare_refl, len-append, boundary-append, slice-append_left}
use cosmwasm.Base.{
  ℕ, zero, suc, ◌/◌, ◌%◌, ◌≤◌, ◌<◌, ◌≡◌, refl, sym, ◌∙◌, ◌↔◌, ◌⊎◌, inl, inr, Bool, true, false,
  List, [], ◌∷◌, length, Any, Bool-cases, returns, ltb, ge→ltb, arith,
}
use cosmwasm.Vm.Text.{
  insert, collect, contains, is_subset, difference, digit, digits, to_decimal, truncate,
}

abbrev pub In : String → List String → Type 0
In s = Any (λ t. t ≡ s)

pub contains_iff : (l : List String) (s : String) → (contains l s ≡ true) ↔ In s l
unfolding contains
contains_iff [] s = (λ h. cc, λ h. absurd h)
contains_iff (t ∷ ts) s = ground (arith, contains_iff ts s, eq_iff t s)

pub In-insert : (s : String) (l : List String) (x : String) → In x (insert s l) ↔ ((s ≡ x) ⊎ In x l)
unfolding insert
In-insert s [] x = (λ h. h, λ h. h)
In-insert s (t ∷ ts) x = go (In-insert s ts x) (compare s t) refl
  where
    go :
        In x (insert s ts) ↔ ((s ≡ x) ⊎ In x ts)
        → (o : Ordering) → compare s t ≡ o
        → In x (insert s (t ∷ ts)) ↔ ((s ≡ x) ⊎ ((t ≡ x) ⊎ In x ts))
    go ih lt e = rw (insert, e) (λ h. h, λ h. h)
    go ih eq e =
        let p : s ≡ t = path_by_compare s t e in
        rw (insert, e) (λ h. inr h, λ h. elim h [ inl q ↦ inl (sym p ∙ q) | inr q ↦ q ])
    go ih gt e = rw (insert, e) (ground (arith, ih))

pub In-collect : (l : List String) (x : String) → In x (collect l) ↔ In x l
unfolding collect
In-collect [] x = (λ h. h, λ h. h)
In-collect (s ∷ ss) x = ground (arith, In-collect ss x, In-insert s (collect ss) x)

pub is_subset_iff : (a b : List String) → (is_subset a b ≡ true) ↔ ((x : String) → In x a → In x b)
unfolding is_subset
is_subset_iff [] b = (λ h x p. absurd p, λ h. refl)
is_subset_iff (s ∷ ss) b = (
  λ h x p. elim (Bool-cases (contains b s)) [
    | inl t ↦ (elim p [
      | inl q ↦ rw (← q) ((contains_iff b s).0 t)
      | inr q ↦ (is_subset_iff ss b).0 (rw t at h) x q
    ])
    | inr f ↦ let e : Path Bool false true = rw f at h in cc
  ],
  λ h.
      let t : contains b s ≡ true = (contains_iff b s).1 (h s (inl refl)) in
      rw (t, (is_subset_iff ss b).1 (λ x p. h x (inr p))) refl,
)

-- A set of one element is made of copies of it.
pub collect_one :
    (v : String) (l : List String)
    → ((x : String) → In x l → x ≡ v)
    → (collect l ≡ []) ⊎ (collect l ≡ v ∷ [])
unfolding collect insert
collect_one v [] h = inl refl
collect_one v (s ∷ ss) h =
    let e : s ≡ v = h s (inl refl) in
    elim (collect_one v ss (λ x p. h x (inr p))) [
      | inl n ↦ inr (rw (n, e) refl)
      | inr n ↦ inr (rw (n, e, insert, compare_refl v) refl)
    ]

pub collect_one_iff :
    (v : String) (l : List String)
    → (collect l ≡ v ∷ []) ↔ (In v l × ((x : String) → In x l → x ≡ v))
collect_one_iff v l = (
  λ e. (
    (In-collect l v).0 (rw e (inl refl)),
    λ x p. elim (rw e at ((In-collect l x).1 p)) [ inl q ↦ sym q | inr q ↦ absurd q ],
  ),
  λ h. elim (collect_one v l h.1) [ inl e ↦ absurd (rw e at ((In-collect l v).1 h.0)) | inr e ↦ e ],
)

pub length-insert : (s : String) (l : List String) → length (insert s l) ≤ suc (length l)
unfolding insert
length-insert s [] = omega arith
length-insert s (t ∷ ts) = go (length-insert s ts) (compare s t) refl
  where
    go :
        length (insert s ts) ≤ suc (length ts)
        → (o : Ordering) → compare s t ≡ o
        → length (insert s (t ∷ ts)) ≤ suc (suc (length ts))
    go ih lt e = rw (insert, e) (omega arith)
    go ih eq e = rw (insert, e) (omega arith)
    go ih gt e = rw (insert, e) (omega arith)

pub length-collect : (l : List String) → length (collect l) ≤ length l
unfolding collect
length-collect [] = omega arith
length-collect (s ∷ ss) = omega (arith, length-collect ss, length-insert s (collect ss))

pub length-difference : (a b : List String) → length (difference a b) ≤ length a
unfolding difference
length-difference [] b = omega arith
length-difference (s ∷ ss) b = elim (Bool-cases (contains b s)) [
  | inl t ↦ rw t (omega (arith, length-difference ss b))
  | inr f ↦ rw f (omega (arith, length-difference ss b))
]

len-digit : (d : ℕ) → d < 10 → len (digit d) ≡ 1
len-digit zero h = refl
len-digit (suc zero) h = refl
len-digit (suc (suc zero)) h = refl
len-digit (suc (suc (suc zero))) h = refl
len-digit (suc (suc (suc (suc zero)))) h = refl
len-digit (suc (suc (suc (suc (suc zero))))) h = refl
len-digit (suc (suc (suc (suc (suc (suc zero)))))) h = refl
len-digit (suc (suc (suc (suc (suc (suc (suc zero))))))) h = refl
len-digit (suc (suc (suc (suc (suc (suc (suc (suc zero)))))))) h = refl
len-digit (suc (suc (suc (suc (suc (suc (suc (suc (suc zero))))))))) h = refl
len-digit (suc (suc (suc (suc (suc (suc (suc (suc (suc (suc n)))))))))) h = omega arith

len-digits : (fuel n : ℕ) → len (digits fuel n) ≤ fuel
unfolding digits
len-digits zero n = omega arith
len-digits (suc fuel) n = elim (Bool-cases (ltb n 10)) [
  | inl t ↦ rw t (omega (arith, len-digit n (ground arith)))
  | inr f ↦
      rw (f, len-append) (omega (arith, len-digits fuel (n / 10), len-digit (n % 10) (omega arith)))
]

pub len-to_decimal : (n : ℕ) → len (to_decimal n) ≤ 20
len-to_decimal n = len-digits 20 n

pub truncate-append : (s t : String) → truncate (String.◌++◌ s t) (len s) ≡ returns s
unfolding truncate
truncate-append s t =
    rw
      (
        ge→ltb (len (String.◌++◌ s t)) (len s) (rw len-append (omega arith)),
        boundary-append s t,
        slice-append_left s t,
      )
      refl
