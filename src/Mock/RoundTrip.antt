-- ===== src/Mock/RoundTrip.antt =====
-- A human address comes back from its canonical one.
use cosmwasm.Base.{
  ℕ, zero, suc, ◌+◌, ◌-◌, ◌%◌, ◌≤◌, ◌≡◌, ◌≢◌, refl, ap, ◌∙◌, true, false, not, [], ◌∷◌, ◌++◌, All,
  length, take, drop, select, select-append, take-append, drop-append, length-append, returns,
  ge→ltb, ◌==◌, arith,
}
use mathlib.Core.List.{append-nil}
use cosmwasm.Base.Call.{success}
use cosmwasm.Bytes.{Bytes}
use cosmwasm.Utf8.{is_utf8}
use cosmwasm.Mock.{
  digit_sum_from, digit_sum, zeros, resize, rotate_left, rotate_right, to_canonical, to_human,
  addr_canonicalize, addr_humanize,
}
use cosmwasm.Mock.Shuffle.{times, length-take, length-times, shuffles_lem, times_restored}

take-drop : (k : ℕ) (l : Bytes) → take k l ++ drop k l ≡ l
take-drop zero l = refl
take-drop (suc k) [] = refl
take-drop (suc k) (x ∷ xs) = ap (λ t. x ∷ t) (take-drop k xs)

length-zeros : (n : ℕ) → length (zeros n) ≡ n
length-zeros zero = refl
length-zeros (suc n) = ap suc (length-zeros n)

digit_sum_from-append :
    (s : ℕ) (a b : Bytes) → digit_sum_from s (a ++ b) ≡ digit_sum_from (digit_sum_from s a) b
unfolding digit_sum_from
digit_sum_from-append s [] b = refl
digit_sum_from-append s (x ∷ xs) b = digit_sum_from-append (s + x) xs b

digit_sum_from-add : (s t : ℕ) (l : Bytes) → digit_sum_from (s + t) l ≡ s + digit_sum_from t l
unfolding digit_sum_from
digit_sum_from-add s t [] = refl
digit_sum_from-add s t (x ∷ xs) =
    let e : s + t + x ≡ s + (t + x) = omega arith in
    ap (λ n. digit_sum_from n xs) e ∙ digit_sum_from-add s (t + x) xs

digit_sum-append : (a b : Bytes) → digit_sum (a ++ b) ≡ digit_sum a + digit_sum b
unfolding digit_sum
digit_sum-append a b =
    let e : digit_sum_from 0 a ≡ digit_sum_from 0 a + 0 = omega arith in
    digit_sum_from-append 0 a b
    ∙ ap (λ n. digit_sum_from n b) e
    ∙ digit_sum_from-add (digit_sum_from 0 a) 0 b

-- A rotation keeps the sum, and is undone.
digit_sum-rotate_left : (k : ℕ) (l : Bytes) → digit_sum (rotate_left k l) ≡ digit_sum l
digit_sum-rotate_left k l =
    let e = digit_sum-append (take k l) (drop k l) in
    omega (arith, digit_sum-append (drop k l) (take k l), e, ap digit_sum (take-drop k l))

rotate_right-rotate_left : (k : ℕ) (l : Bytes) → k ≤ length l → rotate_right k (rotate_left k l) ≡ l
rotate_right-rotate_left k l h =
    let m : length (drop k l ++ take k l) - k ≡ length (drop k l) =
      omega (arith, length-append (drop k l) (take k l), length-take k l h) in
    rw (m, drop-append (drop k l) (take k l), take-append (drop k l) (take k l)) (take-drop k l)

select-zeros : (n : ℕ) → select (λ x. not (x == 0)) (zeros n) ≡ []
select-zeros zero = refl
select-zeros (suc n) = select-zeros n

select_nonzero : (l : Bytes) → All (λ b. b ≢ 0) l → select (λ x. not (x == 0)) l ≡ l
select_nonzero [] h = refl
select_nonzero (x ∷ xs) h =
    let e : (x == 0) ≡ false = ground arith in
    rw (select, e) (ap (λ t. x ∷ t) (select_nonzero xs h.1))

take_all : (n : ℕ) (l : Bytes) → length l ≤ n → take n l ≡ l
take_all zero [] h = refl
take_all zero (x ∷ xs) h = absurd (omega arith)
take_all (suc n) [] h = refl
take_all (suc n) (x ∷ xs) h = ap (λ t. x ∷ t) (take_all n xs (omega arith))

length-resize : (l : Bytes) → length l ≤ 54 → length (resize 54 l) ≡ 54
length-resize l h = omega (
  arith,
  length-append (take 54 l) (zeros (54 - length l)),
  ap length (take_all 54 l h),
  length-zeros (54 - length l),
)

-- The address with its padding, rotated, and then shuffled.
abbrev turn : Bytes → ℕ
turn human = digit_sum (resize 54 human) % 54

abbrev rotated : Bytes → Bytes
rotated human = rotate_left (turn human) (resize 54 human)

length-rotated : (l : Bytes) → length l ≤ 54 → length (rotated l) ≡ 54
length-rotated l h = omega (
  arith,
  length-resize l h,
  length-append (drop (turn l) (resize 54 l)) (take (turn l) (resize 54 l)),
  length-append (take (turn l) (resize 54 l)) (drop (turn l) (resize 54 l)),
  ap length (take-drop (turn l) (resize 54 l)),
)

pub to_canonical_lem :
    (human : Bytes) → length human ≤ 54 → to_canonical 54 human ≡ returns (times 18 (rotated human))
unfolding to_canonical
to_canonical_lem human h = shuffles_lem 18 (rotated human) (length-rotated human h)

to_human_lem :
    (human : Bytes)
    → length human ≤ 54
    → All (λ b. b ≢ 0) human
    → to_human 54 (times 18 (rotated human)) ≡ returns human
unfolding to_human
to_human_lem human h nonzero =
    let long = length-rotated human h in
    let back =
      shuffles_lem 2 (times 18 (rotated human)) (length-times 18 (rotated human) long)
      ∙ ap returns (times_restored (rotated human) long) in
    let same : digit_sum (rotated human) % 54 ≡ turn human =
      ap (λ n. n % 54) (digit_sum-rotate_left (turn human) (resize 54 human)) in
    let straight =
      rotate_right-rotate_left (turn human) (resize 54 human)
        (omega (arith, length-resize human h)) in
    let padded : select (λ x. not (x == 0)) (resize 54 human) ≡ human =
      select-append (λ x. not (x == 0)) (take 54 human) (zeros (54 - length human))
      ∙ rw (take_all 54 human h, select_nonzero human nonzero, select-zeros (54 - length human))
          (append-nil human) in
    rw (to_human, back, same, straight, padded) refl

-- The canonical address of a string of at most 54 bytes.
unfoldable pub canonical_of : Bytes → Bytes
canonical_of human = times 18 (rotated human)

-- The canonical address of a string of at most 54 bytes without NUL comes about, has 54 bytes, and
-- stands for the string.
pub to_human-to_canonical :
    (human : Bytes)
    → length human ≤ 54
    → All (λ b. b ≢ 0) human
    → (to_canonical 54 human ≡ returns (canonical_of human))
      × (length (canonical_of human) ≡ 54)
      × (to_human 54 (canonical_of human) ≡ returns human)
unfolding canonical_of
to_human-to_canonical human h nonzero = (
  to_canonical_lem human h,
  length-times 18 (rotated human) (length-rotated human h),
  to_human_lem human h nonzero,
)

-- For a string of three to 54 bytes without NUL, the API for tests gives a canonical address of 54
-- bytes, and gives the string back for that address.
pub addr_humanize-addr_canonicalize :
    (human : Bytes)
    → is_utf8 human ≡ true
    → All (λ b. b ≢ 0) human
    → 3 ≤ length human
    → length human ≤ 54
    → (c : Bytes) × (addr_canonicalize 54 human ≡ success c)
      × (length c ≡ 54)
      × (addr_humanize 54 c ≡ success human)
unfolding addr_canonicalize addr_humanize
addr_humanize-addr_canonicalize human utf8 nonzero least most =
    let (e, long, back) = to_human-to_canonical human most nonzero in
    (
      canonical_of human,
      rw (addr_canonicalize, ge→ltb (length human) 3 least, ge→ltb 54 (length human) most, e) refl,
      long,
      rw (addr_humanize, long, back, utf8) refl,
    )
