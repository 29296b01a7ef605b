-- ===== src/Vm/Modules/PinnedMemoryCache.antt =====
-- packages/vm/src/modules/pinned_memory_cache.rs: the modules that stay in memory, as the entries of
-- the hash map.
use Prim.Native.Nat.Ordering.{eq}
use cosmwasm.Base.{
  ap, sym, ◌∙◌, ◌⊎◌, inl, inr, Bool-cases, arith, ◌≡◌, refl, ℕ, ◌+◌, Option, none, some, List, [],
  ◌∷◌, Bool, true, false, if◌then◌else◌,
}
use cosmwasm.Bytes.{Bytes, cmp}
use cosmwasm.Bytes.Order.{eq_of_cmp, cmp_refl}
use cosmwasm.Vm.Modules.{SizedModule}

abbrev pub PinnedMemoryCache : Type 0 → Type 0
PinnedMemoryCache M = List (Bytes × SizedModule M)

abbrev pub same : Bytes → Bytes → Bool
same a b = elim (cmp a b) [ eq ↦ true | _ ↦ false ]

pub eq_of_same : (a b : Bytes) → same a b ≡ true → a ≡ b
eq_of_same a b h = eq_of_cmp a b (ground arith)

pub same_refl : (a : Bytes) → same a a ≡ true
same_refl a = ground (arith, cmp_refl a)

module _ {M : Type 0} where
  abbrev pub new : PinnedMemoryCache M
  new = []

  unfoldable pub get : PinnedMemoryCache M → Bytes → Option (SizedModule M)
  get [] checksum = none
  get ((k, v) ∷ rest) checksum = if same k checksum then some v else get rest checksum

  unfoldable pub remove : PinnedMemoryCache M → Bytes → PinnedMemoryCache M
  remove [] checksum = []
  remove ((k, v) ∷ rest) checksum =
      let rest' = remove rest checksum in if same k checksum then rest' else (k, v) ∷ rest'

  unfoldable pub store : PinnedMemoryCache M → Bytes → M → ℕ → PinnedMemoryCache M
  unfolding remove
  store cache checksum code_module size =
      (checksum, record { code_module = code_module; size = size }) ∷ remove cache checksum

  unfoldable pub load : PinnedMemoryCache M → Bytes → Option M
  unfolding get
  load cache checksum = elim (get cache checksum) [
    | none ↦ none
    | some sized ↦ some sized.code_module
  ]

  unfoldable pub has : PinnedMemoryCache M → Bytes → Bool
  unfolding get
  has cache checksum = elim (get cache checksum) [ none ↦ false | some sized ↦ true ]

  unfoldable pub len : PinnedMemoryCache M → ℕ
  len [] = 0
  len (entry ∷ rest) = 1 + len rest

  unfoldable pub size : PinnedMemoryCache M → ℕ
  size [] = 0
  size ((k, v) ∷ rest) = v.size + size rest

  pub get-remove_self : (m : PinnedMemoryCache M) (k : Bytes) → get (remove m k) k ≡ none
  unfolding get remove
  get-remove_self [] k = refl
  get-remove_self ((i, w) ∷ m) k = ground (arith, get-remove_self m k)

  get-remove_same :
      (m : PinnedMemoryCache M) (i j k : Bytes)
      → same i k ≡ true
      → same i j ≡ true
      → get (remove m k) j ≡ none
  get-remove_same m i j k p q =
      ap (get (remove m k)) (sym (eq_of_same i j q) ∙ eq_of_same i k p) ∙ get-remove_self m k

  -- What a removal leaves was there.
  pub get-remove :
      (m : PinnedMemoryCache M) (j k : Bytes) (v : SizedModule M)
      → get (remove m k) j ≡ some v
      → get m j ≡ some v
  unfolding get remove
  get-remove [] j k v h = h
  get-remove ((i, w) ∷ m) j k v h = ground (arith, get-remove m j k v, get-remove_same m i j k)

  pub get-store :
      (m : PinnedMemoryCache M) (j k : Bytes) (code_module : M) (size : ℕ) (v : SizedModule M)
      → get (store m k code_module size) j ≡ some v
      → ((j ≡ k) × (v.code_module ≡ code_module)) ⊎ (get m j ≡ some v)
  unfolding get store
  get-store m j k code_module size v h = elim (Bool-cases (same k j)) [
    | inl same_key ↦ inl (sym (eq_of_same k j same_key), ground arith)
    | inr other ↦ inr (get-remove m j k v (ground arith))
  ]
