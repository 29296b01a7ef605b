-- ===== src/Queue/Queries.antt =====
-- The queries of the contract, read off the queue.
use cosmwasm.Base.{
  length-map, ℕ, suc, ◌%◌, ◌^◌, ◌≡◌, refl, ap, ◌∙◌, inl, inr, Bool, false, Bool-cases, Option, none,
  some, List, [], ◌∷◌, map, select, length, Outcome, returns, panics, ok, ◌>>=◌, ltb, leb, arith,
}
use cosmwasm.Base.Call
use cosmwasm.Base.Call.{Call, success, run, try}
use cosmwasm.Bytes.{Bytes, cmp, within}
use cosmwasm.BTreeMap
use cosmwasm.BTreeMap.{Record}
use cosmwasm.Storage.{Storage, IsStorage, ascending}
use cosmwasm.Serde.{Serde, IsSerde}
use cosmwasm.Errors.{StdError}
use cosmwasm.Queue.Int32.{ℤ, pos, lt_ℤ, add_i32}
use cosmwasm.Queue.Items.{
  Item, large, larger, space, items, first_bytes, first_byte, sum_from, sum_above, parse_item,
  query_list,
}
use cosmwasm.Queue.{query_count, parse_all, query_sum, reduce, query_reducer}
use cosmwasm.Queue.Fifo.{Fifo}
use cosmwasm.Queue.Keys.{entries, items-returns}
use cosmwasm.Queue.Refine.{Holds, range_ascending}

length-entries : (a : ℕ) (l : List Bytes) → length (entries a l) ≡ length l
length-entries a [] = refl
length-entries a (x ∷ xs) = ap suc (length-entries (suc a) xs)

-- For each value, it and the sum of the values of the queue that exceed it.
unfoldable pub counters : List ℤ → List ℤ → Call StdError (List (ℤ × ℤ))
unfolding sum_from lt_ℤ
counters all [] = success []
counters all (v ∷ vs) =
    Call.◌>>=◌ (run (sum_from (pos 0) (select (lt_ℤ v) all)))
      (λ sum. Call.◌>>=◌ (counters all vs) (λ rest. success ((v, sum) ∷ rest)))

-- The keys of as many entries.
abbrev pub keys_from : ℕ → List ℤ → List ℕ
keys_from a [] = []
keys_from a (v ∷ vs) = a ∷ keys_from (suc a) vs

-- The keys that lie within bounds which a test decides.
first_bytes-select :
    (p : Bytes → Bool) (t : ℕ → Bool)
    → ((j : ℕ) → p (j ∷ []) ≡ t j)
    → (f : ℤ → Bytes) (a : ℕ) (vs : List ℤ)
    → first_bytes (select (λ r. p r.0) (entries a (map f vs))) ≡ returns (select t (keys_from a vs))
unfolding first_bytes first_byte
first_bytes-select p t same f a [] = refl
first_bytes-select p t same f a (v ∷ vs) = elim (Bool-cases (t a)) [
  | inl e ↦ rw (select, same a, e, first_bytes, first_bytes-select p t same f (suc a) vs) refl
  | inr e ↦ rw (select, same a, e) (first_bytes-select p t same f (suc a) vs)
]

within-large : (j : ℕ) → within (some large) (some larger) (j ∷ []) ≡ false
unfolding cmp
within-large j = ground arith

within_early : (j : ℕ) → within none (some space) (j ∷ []) ≡ ltb j 32
unfolding cmp
within_early j = ground arith

within_late : (j : ℕ) → within (some space) none (j ∷ []) ≡ leb 32 j
unfolding cmp
within_late j = ground arith

select_none : (l : List ℕ) → select (λ j. false) l ≡ []
select_none [] = refl
select_none (x ∷ xs) = select_none xs

module _ {S : Type 0} (ops : Storage S) (law : IsStorage ops) (json : Serde Item)
    (codec : IsSerde json) (enc : ℤ → Bytes)
    (encodes : (v : ℤ) → json.to_vec (record { value = v }) ≡ ok (enc v)) where
  -- The entries of these values, as an iterator gives them.
  abbrev given : ℕ → List ℤ → List (Outcome Record)
  given a vs = map returns (entries a (map enc vs))

  reads : (v : ℤ) → json.from_slice (enc v) ≡ ok (record { value = v })
  reads v = codec.read_back (record { value = v }) (enc v) (encodes v)

  parse_all_lem : (a : ℕ) (vs : List ℤ) → parse_all ops json (given a vs) ≡ success vs
  unfolding parse_all
  parse_all_lem a [] = refl
  parse_all_lem a (v ∷ vs) = rw (parse_all, reads v, parse_all_lem (suc a) vs) refl

  sum_above_lem :
      (x s : ℤ) (a : ℕ) (vs : List ℤ)
      → sum_above json x s (given a vs) ≡ sum_from s (select (lt_ℤ x) vs)
  unfolding sum_above sum_from parse_item
  sum_above_lem x s a [] = refl
  sum_above_lem x s a (v ∷ vs) = elim (Bool-cases (lt_ℤ x v)) [
    | inl t ↦
        rw (sum_above, parse_item, reads v, t, select, sum_from)
          (go (add_i32 s v) (λ s'. sum_above_lem x s' (suc a) vs))
    | inr f ↦ rw (sum_above, parse_item, reads v, f, select) (sum_above_lem x s (suc a) vs)
  ]
    where
      go :
          (o : Outcome ℤ)
          → ((s' : ℤ) → sum_above json x s' (given (suc a) vs) ≡ sum_from s' (select (lt_ℤ x) vs))
          → (o >>= λ s'. sum_above json x s' (given (suc a) vs))
            ≡ (o >>= λ s'. sum_from s' (select (lt_ℤ x) vs))
      go panics ih = refl
      go (returns s') ih = ih s'

  reduce_lem :
      (s : S) (q : Fifo)
      → Holds ops law json codec enc encodes s q
      → (a : ℕ) (vs : List ℤ) → reduce ops json s (given a vs) ≡ counters q.values vs
  unfolding reduce counters
  reduce_lem s q h a [] = refl
  reduce_lem s q h a (v ∷ vs) =
      rw
        (
          reduce,
          reads v,
          range_ascending ops law json codec enc encodes s q h,
          sum_above_lem v (pos 0) q.first q.values,
          reduce_lem s q h (suc a) vs,
        )
        refl

  -- Over a storage that holds a queue, the count is the number of its values; the sum adds them up
  -- from the first on, and the reducer gives each value with the sum of the larger ones, where a sum
  -- that leaves the range of an i32 is a panic.
  pub queries_lem :
      (s : S) (q : Fifo)
      → Holds ops law json codec enc encodes s q
      → (query_count ops json s ≡ success (length q.values))
        × (query_sum ops json s ≡ run (sum_from (pos 0) q.values))
        × (query_reducer ops json s ≡ counters q.values q.values)
  unfolding query_count query_sum query_reducer
  queries_lem s q h =
      let r = range_ascending ops law json codec enc encodes s q h in
      let n : length (entries q.first (map enc q.values)) % 2 ^ 32 ≡ length q.values =
        omega
          (arith, h.bound, length-entries q.first (map enc q.values), length-map enc q.values) in
      (
        rw (query_count, r, items-returns, n) refl,
        rw (query_sum, r, parse_all_lem q.first q.values) refl,
        rw (query_reducer, r) (reduce_lem s q h q.first q.values),
      )

  list_lem :
      (a b : Option Bytes) (t : ℕ → Bool)
      → ((j : ℕ) → within a b (j ∷ []) ≡ t j)
      → (s : S) (q : Fifo) → Holds ops law json codec enc encodes s q
      → (l : List Record) × (items (ops.range s a b ascending) ≡ returns l)
        × (first_bytes l ≡ returns (select t (keys_from q.first q.values)))
  list_lem a b t same s q h =
      let e =
        law.range-view s a b ascending h.valid
        ∙ ap (λ m. map returns (BTreeMap.range a b m)) h.view in
      (
        BTreeMap.range a b (entries q.first (map enc q.values)),
        ap items e ∙ items-returns _,
        unfold BTreeMap.range in first_bytes-select (within a b) t same enc q.first q.values,
      )

  -- Over a storage that holds a queue, the list query has no keys between "large" and "larger", and
  -- splits the keys of the queue at 32.
  pub query_list_lem :
      (s : S) (q : Fifo)
      → Holds ops law json codec enc encodes s q
      → query_list ops s
        ≡ returns (record {
          empty = [];
          early = select (λ j. ltb j 32) (keys_from q.first q.values);
          late = select (λ j. leb 32 j) (keys_from q.first q.values);
        })
  unfolding query_list
  query_list_lem s q h =
      let (l1, i1, f1) = list_lem (some large) (some larger) (λ j. false) within-large s q h in
      let (l2, i2, f2) = list_lem none (some space) (λ j. ltb j 32) within_early s q h in
      let (l3, i3, f3) = list_lem (some space) none (λ j. leb 32 j) within_late s q h in
      rw (query_list, i1, f1, i2, f2, i3, f3, select_none (keys_from q.first q.values)) refl
