-- ===== src/Namespace/UpperBound.antt =====
-- `namespace_upper_bound` from the front: what the increment with its carry makes of each byte,
-- and which keys lie between a prefix and its upper bound.
use Prim.Native.Nat.Ordering.{lt}
use mathlib.Core.List.{reverse-cons, reverse-append}
use cosmwasm.Base.{
  ℕ, ◌+◌, ◌≡◌, ◌≢◌, refl, ◌∙◌, ap, Bool, true, false, ◌&&◌, not, none, some, [], ◌∷◌, ◌++◌, reverse,
  ◌==◌, if◌then◌else◌, arith,
}
use cosmwasm.Bytes.{Bytes, cmp, strip}
use cosmwasm.Namespace.{bump, namespace_upper_bound}

-- Every byte is 255.
unfoldable pub all_255 : Bytes → Bool
all_255 [] = true
all_255 (b ∷ p) = b == 255 && all_255 p

-- The last byte can be incremented: there is one, and it is not 255.
unfoldable pub ends_low : Bytes → Bool
ends_low [] = false
ends_low (b ∷ []) = not (b == 255)
ends_low (b ∷ c ∷ p) = ends_low (c ∷ p)

abbrev pub bump_byte : ℕ → ℕ
bump_byte b = if b == 255 then 0 else b + 1

all_255-append : (p : Bytes) (b : ℕ) → all_255 (p ++ b ∷ []) ≡ (all_255 p && b == 255)
unfolding all_255
all_255-append [] b = ground arith
all_255-append (c ∷ p) b = ground (arith, all_255-append p b)

all_255-reverse : (p : Bytes) → all_255 (reverse p) ≡ all_255 p
unfolding all_255
all_255-reverse [] = refl
all_255-reverse (b ∷ p) =
    rw reverse-cons (ground (arith, all_255-append (reverse p) b, all_255-reverse p))

bump-append :
    (p : Bytes) (b : ℕ) → bump (p ++ b ∷ []) ≡ bump p ++ (if all_255 p then bump_byte b else b) ∷ []
unfolding bump all_255
bump-append [] b = ground arith
bump-append (c ∷ p) b = ground (arith, bump-append p b)

-- The bound byte by byte: a byte goes up exactly where all those behind it are 255.
pub upper_bound-cons :
    (b : ℕ) (p : Bytes)
    → namespace_upper_bound (b ∷ p)
      ≡ (if all_255 p then bump_byte b else b) ∷ namespace_upper_bound p
unfolding namespace_upper_bound
upper_bound-cons b p =
    ap (λ q. reverse (bump q)) (reverse-cons b p)
    ∙ ap reverse (bump-append (reverse p) b)
    ∙ reverse-append (bump (reverse p)) _
    ∙ ap (λ a. (if a then bump_byte b else b) ∷ reverse (bump (reverse p))) (all_255-reverse p)

pub upper_bound-nil : namespace_upper_bound [] ≡ []
unfolding namespace_upper_bound
upper_bound-nil = refl

pub ends_low-all_255 : (p : Bytes) → ends_low p ≡ true → all_255 p ≡ false
unfolding ends_low all_255
ends_low-all_255 [] h = cc
ends_low-all_255 (b ∷ []) h = ground arith
ends_low-all_255 (b ∷ c ∷ p) h = ground (arith, ends_low-all_255 (c ∷ p) h)

-- A key under a prefix lies below the prefix's upper bound, whatever carry there is.
pub cmp-upper_bound :
    (p k r : Bytes) → all_255 p ≡ false → strip p k ≡ some r → cmp k (namespace_upper_bound p) ≡ lt
unfolding cmp strip all_255
cmp-upper_bound [] k r a h = cc
cmp-upper_bound (b ∷ p) [] r a h = cc
cmp-upper_bound (b ∷ p) (c ∷ k) r a h =
    rw (upper_bound-cons b p) (ground (arith, cmp-upper_bound p k r))

pub not-cmp-nil : (k : Bytes) → cmp k [] ≢ lt
unfolding cmp
not-cmp-nil [] h = cc
not-cmp-nil (c ∷ k) h = cc

-- Below the upper bound of a prefix whose last byte is not 255, a key that is not under the
-- prefix is below the prefix itself.
pub cmp-other_upper_bound :
    (p k : Bytes)
    → ends_low p ≡ true
    → strip p k ≡ none
    → cmp k (namespace_upper_bound p) ≡ lt
    → cmp k p ≡ lt
unfolding cmp strip ends_low all_255
cmp-other_upper_bound [] k e h l = cc
cmp-other_upper_bound (b ∷ []) [] e h l = refl
cmp-other_upper_bound (b ∷ []) (c ∷ k) e h l =
    ground (arith, not-cmp-nil k, rw (upper_bound-cons b [], upper_bound-nil) at l)
cmp-other_upper_bound (b ∷ d ∷ p) [] e h l = refl
cmp-other_upper_bound (b ∷ d ∷ p) (c ∷ k) e h l = ground (
  arith,
  rw (upper_bound-cons b (d ∷ p)) at l,
  ends_low-all_255 (d ∷ p) e,
  cmp-other_upper_bound (d ∷ p) k e,
)

-- A key that is not under a prefix compares with all keys under it as with the prefix.
pub cmp-other_append : (p k a : Bytes) → strip p k ≡ none → cmp k (p ++ a) ≡ cmp k p
unfolding cmp strip
cmp-other_append [] k a h = cc
cmp-other_append (b ∷ p) [] a h = refl
cmp-other_append (b ∷ p) (c ∷ k) a h = ground (arith, cmp-other_append p k a)
