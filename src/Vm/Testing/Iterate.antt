-- ===== src/Vm/Testing/Iterate.antt =====
-- Iterators of the mock storage, against lists of records.
use cosmwasm.Base.{
  ℕ, zero, suc, ◌+◌, ◌%◌, ◌^◌, ◌<◌, ◌≡◌, ◌≢◌, refl, sym, ap, ◌∙◌, inl, inr, Bool, true, false,
  Bool-cases, Option, none, some, List, [], ◌∷◌, ◌++◌, length, drop, returns, ok, err, ltb, lt→ltb,
  ◌==◌, ==_refl, ==_iff, if◌then◌else◌, arith,
}
use mathlib.Core.List.{append_assoc, append-nil}
use cosmwasm.Bytes.{Bytes}
use cosmwasm.BTreeMap
use cosmwasm.BTreeMap.{Record, BTreeMap}
use cosmwasm.BTreeMap.Range.{range_empty}
use cosmwasm.Storage.{Order, ascending, descending, in_order}
use cosmwasm.Vm.Errors.{iterator_does_not_exist}
use cosmwasm.Vm.Gas.{GasInfo, with_cost, with_externally_used, free, add_assign}
use cosmwasm.Vm.Testing.{
  Iter, MockStorage, find, put, values, is_inverted, scan, next_of, next, all_from, all,
  gas_cost_range, gas_cost_last_iteration,
}
use cosmwasm.Vm.Testing.View.{
  rest_of, left, IsValid, find-put, find-Below, Below-put_same, Below-weaken, length-put_fresh,
  length-put_found, find-bounds,
}

empty_in_order : (o : Order) → in_order o [] ≡ []
empty_in_order ascending = refl
empty_in_order descending = refl

values_lem :
    (s : MockStorage) (a b : Option Bytes) (o : Order)
    → values s a b o ≡ in_order o (BTreeMap.range a b s.entries)
unfolding values is_inverted
values_lem s none b o = refl
values_lem s (some a) none o = refl
values_lem s (some a) (some b) o = ground (arith, range_empty a b s.entries, empty_in_order o)

-- What a call leaves: the entries, and for each iterator what it has left, but for one of them.
pub record Leaves (s s' : MockStorage) (id : ℕ) (l : List Record) : Type 0 where
  pub valid : IsValid s'
  pub same_entries : s'.entries ≡ s.entries
  pub lefts : (j : ℕ) → left s' j ≡ (if id == j then some l else left s j)

-- The storage with an iterator put in.
put-Leaves :
    (s : MockStorage) (id : ℕ) (it : Iter)
    → IsValid (record s { iterators = put id it s.iterators })
    → Leaves s (record s { iterators = put id it s.iterators }) id (drop it.position it.records)
unfolding left
put-Leaves s id it valid = record {
  valid = valid;
  same_entries = refl;
  lefts = λ j. go j (id == j) refl;
}
  where
    go :
        (j : ℕ) (b : Bool)
        → (id == j) ≡ b
        → rest_of (find j (put id it s.iterators))
          ≡ (if id == j then some (drop it.position it.records) else rest_of (find j s.iterators))
    go j true e = rw (find-put id j it s.iterators, e) refl
    go j false e = rw (find-put id j it s.iterators, e) refl

-- A scan gives a number that no iterator has, and an iterator of this number over the records
-- between the bounds, in order; the entries and the other iterators stay as they were.
pub scan_lem :
    (s : MockStorage) (a b : Option Bytes) (o : Order)
    → IsValid s
    → length s.iterators + 1 < 2 ^ 32
    → let id = length s.iterators + 1 in
      (s' : MockStorage) × (scan s a b o
        ≡ returns ((ok id, with_externally_used gas_cost_range), s'))
      × (left s id ≡ none)
      × Leaves s s' id (in_order o (BTreeMap.range a b s.entries))
unfolding scan left
scan_lem s a b o h few =
    let n = length s.iterators in
    let e : (n + 1) % 2 ^ 32 ≡ n + 1 = omega arith in
    let t : ltb n (2 ^ 32) ≡ true = lt→ltb _ _ (omega arith) in
    let l = in_order o (BTreeMap.range a b s.entries) in
    let it : Iter = record { records = l; position = 0 } in
    let fresh : find (n + 1) s.iterators ≡ none =
      find-Below n (n + 1) s.iterators h.numbered (omega arith) in
    let long = length-put_fresh (n + 1) it s.iterators fresh in
    let valid : IsValid (record s { iterators = put (n + 1) it s.iterators }) = record {
      numbered = rw long (
          Below-put_same (suc n) (n + 1) it s.iterators
            (Below-weaken n (suc n) s.iterators (omega arith) h.numbered) (omega arith)
            (omega arith));
    } in
    (
      record s { iterators = put (n + 1) it s.iterators },
      rw (scan, e, t, values_lem s a b o) refl,
      rw fresh refl,
      put-Leaves s (n + 1) it valid,
    )

-- What `next` must do with the iterator of a number that has this left.
abbrev pub Steps : MockStorage → ℕ → Option (List Record) → Type 0
Steps s id none = next s id ≡ ((err (iterator_does_not_exist id), free), s)
Steps s id (some []) = next s id ≡ ((ok none, with_externally_used gas_cost_last_iteration), s)
Steps s id (some (r ∷ rs)) =
    (s' : MockStorage) × (next s id ≡ ((ok (some r), with_cost (length r.0 + length r.1)), s'))
    × Leaves s s' id rs

drop-suc :
    (k : ℕ) (l : List Record) (r : Record) (rs : List Record)
    → drop k l ≡ r ∷ rs
    → drop (suc k) l ≡ rs
drop-suc zero [] r rs h = cc
drop-suc zero (x ∷ xs) r rs h = cc
drop-suc (suc k) [] r rs h = cc
drop-suc (suc k) (x ∷ xs) r rs h = drop-suc k xs r rs h

-- The next record of an iterator is the first that it has left, and only this iterator goes on;
-- an iterator that has nothing left gives nothing and stays, and a number that no iterator has is an
-- error. The entries stay, and each answer has its cost.
pub next_lem : (s : MockStorage) (id : ℕ) → IsValid s → Steps s id (left s id)
unfolding left next next_of
next_lem s id h = go (find id s.iterators) refl
  where
    go : (o : Option Iter) → find id s.iterators ≡ o → Steps s id (rest_of (find id s.iterators))
    go none e = rw e (rw (next, e) refl)
    go (some it) e = rw e (step (drop it.position it.records) refl)
      where
        step :
            (l : List Record)
            → drop it.position it.records ≡ l
            → Steps s id (some (drop it.position it.records))
        step [] d = rw d (rw (next, e, next_of, d) refl)
        step (r ∷ rs) d =
            let on : Iter = record it { position = suc it.position } in
            let long = length-put_found id on it s.iterators e in
            let (pos, le) = find-bounds (length s.iterators) id it s.iterators h.numbered e in
            let valid : IsValid (record s { iterators = put id on s.iterators }) = record {
              numbered =
                  rw long (Below-put_same (length s.iterators) id on s.iterators h.numbered pos le);
            } in
            let after = drop-suc it.position it.records r rs d in
            rw d (
              record s { iterators = put id on s.iterators },
              rw (next, e, next_of, d) refl,
              rw after at (put-Leaves s id on valid),
            )

-- The gas of the items and of the end, added up as the loop does.
abbrev pub total_of : GasInfo → List Record → GasInfo
total_of g [] = add_assign g (with_externally_used gas_cost_last_iteration)
total_of g (r ∷ rs) = total_of (add_assign g (with_cost (length r.0 + length r.1))) rs

all_from-goes_on :
    (fuel : ℕ) (s s' : MockStorage) (id : ℕ) (out : List Record) (g info : GasInfo) (r : Record)
    → next s id ≡ ((ok (some r), info), s')
    → all_from (suc fuel) s id out g ≡ all_from fuel s' id (out ++ (r ∷ [])) (add_assign g info)
unfolding all_from
all_from-goes_on fuel s s' id out g info r h = rw (all_from, h) (rw h refl)

unchanged :
    (s : MockStorage) (id : ℕ) (l : List Record)
    → left s id ≡ some l
    → (j : ℕ) → left s j ≡ (if id == j then some l else left s j)
unchanged s id l e j = elim (Bool-cases (id == j)) [
  | inl t ↦ rw t (ap (left s) (sym ((==_iff id j).0 t)) ∙ e)
  | inr f ↦ rw f refl
]

settled :
    (s s1 s2 : MockStorage) (id : ℕ) (l m : List Record)
    → ((j : ℕ) → left s1 j ≡ (if id == j then some l else left s j))
    → ((j : ℕ) → left s2 j ≡ (if id == j then some m else left s1 j))
    → (j : ℕ) → left s2 j ≡ (if id == j then some m else left s j)
settled s s1 s2 id l m h1 h2 j = ground (arith, h1 j, h2 j)

all_from_lem :
    (rs : List Record) (fuel : ℕ) (s : MockStorage) (id : ℕ) (out : List Record) (g : GasInfo)
    → IsValid s
    → left s id ≡ some rs
    → length rs < fuel
    → (s' : MockStorage) × (all_from fuel s id out g
        ≡ returns ((ok (out ++ rs), total_of g rs), s'))
      × (s'.entries ≡ s.entries)
      × ((j : ℕ) → left s' j ≡ (if id == j then some [] else left s j))
unfolding all_from
all_from_lem rs zero s id out g h e fuel = absurd (omega arith)
all_from_lem [] (suc n) s id out g h e fuel =
    let step : Steps s id (some []) = rw e at (next_lem s id h) in
    (s, rw (all_from, append-nil out, step) (rw step refl), refl, λ j. unchanged s id [] e j)
all_from_lem (r ∷ rs) (suc n) s id out g h e fuel =
    let step : Steps s id (some (r ∷ rs)) = rw e at (next_lem s id h) in
    let (s1, given, lv) = step in
    let e1 : left s1 id ≡ some rs = lv.lefts id ∙ rw (==_refl id) refl in
    let (s2, done, same, lefts2) =
      all_from_lem rs n s1 id (out ++ (r ∷ [])) (add_assign g (with_cost (length r.0 + length r.1)))
        lv.valid e1 (omega arith) in
    (
      s2,
      all_from-goes_on n s s1 id out g (with_cost (length r.0 + length r.1)) r given
          ∙ done
          ∙ ap
              (λ l.
                returns
                  ((ok l, total_of (add_assign g (with_cost (length r.0 + length r.1))) rs), s2))
              (append_assoc out (r ∷ []) rs),
      same ∙ lv.same_entries,
      λ j. settled s s1 s2 id rs [] lv.lefts lefts2 j,
    )

-- With fuel for more rounds than there are records, reading out an iterator to its end gives what
-- it has left, in order; then it has nothing left, and the entries and the other iterators are as
-- before.
pub all_lem :
    (rs : List Record) (fuel : ℕ) (s : MockStorage) (id : ℕ)
    → IsValid s
    → left s id ≡ some rs
    → length rs < fuel
    → (s' : MockStorage) × (all fuel s id ≡ returns ((ok rs, total_of free rs), s'))
      × (s'.entries ≡ s.entries)
      × ((j : ℕ) → left s' j ≡ (if id == j then some [] else left s j))
unfolding all
all_lem rs fuel s id h e enough = all_from_lem rs fuel s id [] free h e enough

others : (id j : ℕ) (o : Option (List Record)) → j ≢ id → (if id == j then some [] else o) ≡ o
others id j o n = elim (Bool-cases (id == j)) [
  | inl t ↦ absurd (n (sym ((==_iff id j).0 t)))
  | inr f ↦ rw f refl
]

-- A scan of a mock storage, with room for one more number, gives a new number, and reading out its
-- iterator to the end, on fuel for more rounds than there are records, gives the records between the
-- bounds in the order that was asked for. The entries stay, and so does what every other iterator
-- has left.
pub all-scan :
    (s : MockStorage) (a b : Option Bytes) (o : Order) (fuel : ℕ)
    → IsValid s
    → length s.iterators + 1 < 2 ^ 32
    → length (in_order o (BTreeMap.range a b s.entries)) < fuel
    → (id : ℕ) × (s1 : MockStorage) × (s2 : MockStorage) × (g : GasInfo) × (g' : GasInfo) × (scan s
          a b o
        ≡ returns ((ok id, g), s1))
      × (all fuel s1 id ≡ returns ((ok (in_order o (BTreeMap.range a b s.entries)), g'), s2))
      × (left s id ≡ none)
      × (s2.entries ≡ s.entries)
      × ((j : ℕ) → j ≢ id → left s2 j ≡ left s j)
all-scan s a b o fuel h few enough =
    let l = in_order o (BTreeMap.range a b s.entries) in
    let (s1, opened, fresh, lv) = scan_lem s a b o h few in
    let id : ℕ = length s.iterators + 1 in
    let e1 : left s1 id ≡ some l = lv.lefts id ∙ rw (==_refl id) refl in
    let (s2, done, same, lefts2) = all_lem l fuel s1 id lv.valid e1 enough in
    (
      id,
      s1,
      s2,
      with_externally_used gas_cost_range,
      total_of free l,
      opened,
      done,
      fresh,
      same ∙ lv.same_entries,
      λ j n. settled s s1 s2 id l [] lv.lefts lefts2 j ∙ others id j (left s j) n,
    )
