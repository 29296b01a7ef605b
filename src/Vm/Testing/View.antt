-- ===== src/Vm/Testing/View.antt =====
-- What each iterator has still to give, and how the calls change that.
use cosmwasm.Base.{
  ℕ, suc, ◌≤◌, ◌<◌, ◌≡◌, refl, Option, none, some, List, [], ◌∷◌, length, drop, ◌==◌, if◌then◌else◌,
  arith,
}
use cosmwasm.BTreeMap.{Record}
use cosmwasm.Vm.Testing.{Iter, MockStorage, find, put}

abbrev pub rest_of : Option Iter → Option (List Record)
rest_of none = none
rest_of (some it) = some (drop it.position it.records)

-- The records that the iterator of this number has not given yet, if there is one.
unfoldable pub left : MockStorage → ℕ → Option (List Record)
unfolding find
left s id = rest_of (find id s.iterators)

pub find-put :
    (id j : ℕ) (it : Iter) (l : List (ℕ × Iter))
    → find j (put id it l) ≡ (if id == j then some it else find j l)
unfolding find put
find-put id j it [] = refl
find-put id j it ((i, x) ∷ l) = ground (arith, find-put id j it l)

-- Numbers are given out from 1 on, and no iterator is ever dropped.
abbrev pub Below : ℕ → List (ℕ × Iter) → Type 0
Below n [] = Unit
Below n ((i, it) ∷ l) = (0 < i) × (i ≤ n) × Below n l

pub find-Below : (n j : ℕ) (l : List (ℕ × Iter)) → Below n l → n < j → find j l ≡ none
unfolding find
find-Below n j [] h lt = refl
find-Below n j ((i, it) ∷ l) h lt = ground (arith, find-Below n j l h.2 lt)

pub Below-put_same :
    (n id : ℕ) (it : Iter) (l : List (ℕ × Iter))
    → Below n l
    → 0 < id
    → id ≤ n
    → Below n (put id it l)
unfolding put
Below-put_same n id it [] h pos le = (pos, le, tt)
Below-put_same n id it ((i, x) ∷ l) h pos le = ground (arith, Below-put_same n id it l h.2 pos le)

pub Below-weaken : (n m : ℕ) (l : List (ℕ × Iter)) → n ≤ m → Below n l → Below m l
Below-weaken n m [] le h = tt
Below-weaken n m ((i, x) ∷ l) le h = (h.0, omega arith, Below-weaken n m l le h.2)

pub length-put_fresh :
    (id : ℕ) (it : Iter) (l : List (ℕ × Iter))
    → find id l ≡ none
    → length (put id it l) ≡ suc (length l)
unfolding find put
length-put_fresh id it [] h = refl
length-put_fresh id it ((i, x) ∷ l) h = ground (arith, length-put_fresh id it l)

pub length-put_found :
    (id : ℕ) (it x : Iter) (l : List (ℕ × Iter))
    → find id l ≡ some x
    → length (put id it l) ≡ length l
unfolding find put
length-put_found id it x [] h = cc
length-put_found id it x ((i, y) ∷ l) h = ground (arith, length-put_found id it x l)

pub find-bounds :
    (n id : ℕ) (x : Iter) (l : List (ℕ × Iter))
    → Below n l
    → find id l ≡ some x
    → (0 < id) × (id ≤ n)
unfolding find
find-bounds n id x [] h e = cc
find-bounds n id x ((i, y) ∷ l) h e = ground (arith, find-bounds n id x l h.2)

-- The numbers of the iterators go from 1 to how many there are.
pub record IsValid (s : MockStorage) : Type 0 where
  pub numbered : Below (length s.iterators) s.iterators
