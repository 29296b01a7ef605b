-- ===== src/Mock/Shuffle.antt =====
-- Twenty shuffles of 54 elements put them back in order.
use cosmwasm.Base.{
  ℕ, zero, suc, ◌+◌, ◌≤◌, ◌≡◌, refl, sym, ap, ◌∙◌, List, [], ◌∷◌, map, length, take, drop, returns,
  arith, length-drop,
}
use cosmwasm.Bytes.{Bytes}
use cosmwasm.Mock.{interleave, riffle_shuffle, shuffles}

module _ {A B : Type 0} (f : A → B) where
  interleave-map : (a b : List A) → interleave (map f a) (map f b) ≡ map f (interleave a b)
  unfolding interleave
  interleave-map [] b = refl
  interleave-map (x ∷ xs) [] = refl
  interleave-map (x ∷ xs) (y ∷ ys) = ap (λ t. f x ∷ f y ∷ t) (interleave-map xs ys)

  take-map : (n : ℕ) (l : List A) → take n (map f l) ≡ map f (take n l)
  take-map zero l = refl
  take-map (suc n) [] = refl
  take-map (suc n) (x ∷ xs) = ap (λ t. f x ∷ t) (take-map n xs)

  drop-map : (n : ℕ) (l : List A) → drop n (map f l) ≡ map f (drop n l)
  drop-map zero l = refl
  drop-map (suc n) [] = refl
  drop-map (suc n) (x ∷ xs) = drop-map n xs

-- One shuffle of 54 elements.
abbrev shuffled {ℓ} : {A : Type ℓ} → List A → List A
shuffled l = interleave (drop 27 l) (take 27 l)

unfoldable pub times {ℓ} : {A : Type ℓ} → ℕ → List A → List A
unfolding interleave
times zero l = l
times (suc n) l = times n (shuffled l)

times-map : {A B : Type 0} (f : A → B) (n : ℕ) (l : List A) → times n (map f l) ≡ map f (times n l)
unfolding times
times-map f zero l = refl
times-map f (suc n) l =
    ap (times n) (
      ap (λ t. interleave t (take 27 (map f l))) (drop-map f 27 l)
      ∙ ap (interleave (map f (drop 27 l))) (take-map f 27 l)
      ∙ interleave-map f (drop 27 l) (take 27 l))
    ∙ times-map f n (shuffled l)

upto : ℕ → List ℕ
upto zero = []
upto (suc n) = 0 ∷ map suc (upto n)

back_in_order : times 20 (upto 54) ≡ upto 54
unfolding times upto interleave
back_in_order = refl

-- The element at an index.
abbrev at : Bytes → ℕ → ℕ
at [] i = 0
at (x ∷ xs) zero = x
at (x ∷ xs) (suc i) = at xs i

map-map : (f : ℕ → ℕ) (g : ℕ → ℕ) (l : List ℕ) → map f (map g l) ≡ map (λ i. f (g i)) l
map-map f g [] = refl
map-map f g (x ∷ xs) = ap (λ t. f (g x) ∷ t) (map-map f g xs)

by_index : (l : Bytes) → map (at l) (upto (length l)) ≡ l
unfolding upto
by_index [] = refl
by_index (x ∷ xs) = ap (λ t. x ∷ t) (map-map (at (x ∷ xs)) suc (upto (length xs)) ∙ by_index xs)

pub times_twenty : (l : Bytes) → length l ≡ 54 → times 20 l ≡ l
times_twenty l h =
    let e : map (at l) (upto 54) ≡ l = rw h at (by_index l) in
    ap (times 20) (sym e) ∙ times-map (at l) 20 (upto 54) ∙ ap (map (at l)) back_in_order ∙ e

length-interleave :
    (a b : Bytes) → length a ≡ length b → length (interleave a b) ≡ length a + length b
unfolding interleave
length-interleave [] [] h = refl
length-interleave [] (y ∷ ys) h = absurd (omega arith)
length-interleave (x ∷ xs) [] h = absurd (omega arith)
length-interleave (x ∷ xs) (y ∷ ys) h = omega (arith, length-interleave xs ys (omega arith))

pub length-take : (n : ℕ) (l : Bytes) → n ≤ length l → length (take n l) ≡ n
length-take zero l h = refl
length-take (suc n) [] h = omega arith
length-take (suc n) (x ∷ xs) h = omega (arith, length-take n xs (omega arith))

length-shuffled : (l : Bytes) → length l ≡ 54 → length (shuffled l) ≡ 54
length-shuffled l h = omega (
  arith,
  length-interleave (drop 27 l) (take 27 l)
      (omega (arith, length-drop 27 l, length-take 27 l (omega arith))),
  length-drop 27 l,
  length-take 27 l (omega arith),
)

pub length-times : (n : ℕ) (l : Bytes) → length l ≡ 54 → length (times n l) ≡ 54
unfolding times
length-times zero l h = h
length-times (suc n) l h = length-times n (shuffled l) (length-shuffled l h)

-- No shuffle of 54 elements panics.
pub shuffles_lem : (n : ℕ) (l : Bytes) → length l ≡ 54 → shuffles n l ≡ returns (times n l)
unfolding shuffles riffle_shuffle times
shuffles_lem zero l h = refl
shuffles_lem (suc n) l h =
    rw (shuffles, riffle_shuffle, h) (shuffles_lem n (shuffled l) (length-shuffled l h))

times-add : (m n : ℕ) (l : Bytes) → times n (times m l) ≡ times (m + n) l
unfolding times
times-add zero n l = let e : n ≡ 0 + n = omega arith in ap (λ k. times k l) e
times-add (suc m) n l =
    let e : suc (m + n) ≡ suc m + n = omega arith in
    times-add m n (shuffled l) ∙ ap (λ k. times k l) e

-- Eighteen shuffles and two more.
pub times_restored : (l : Bytes) → length l ≡ 54 → times 2 (times 18 l) ≡ l
times_restored l h = times-add 18 2 l ∙ times_twenty l h
