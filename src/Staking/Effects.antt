-- ===== src/Staking/Effects.antt =====
-- What the accessors of contracts/staking/src/state.rs change: the sum of the balances, the sum of
-- the claims, and the supply.
use cosmwasm.Base.{ℕ, ◌+◌, ◌≡◌, ◌≢◌, sym, ◌∙◌, ap, Option, none, some, ◌++◌, ok, arith}
use cosmwasm.Base.Call.{Call, success}
use cosmwasm.Bytes.{Bytes, strip}
use cosmwasm.BTreeMap
use cosmwasm.BTreeMap.{BTreeMap, IsSorted}
use cosmwasm.Storage.{Storage, IsStorage}
use cosmwasm.Storage.Access.{view-set, set-IsValid, get-set_ne, get-set_self}
use cosmwasm.Errors.{StdError}
use cosmwasm.Serde.{Serde, IsSerde}
use cosmwasm.TypeHelpers.{may_deserialize}
use cosmwasm.Namespace.Subset.{under, get-under, under-insert, under-insert_other, under-IsSorted}
use cosmwasm.Bucket
use cosmwasm.Bucket.{Bucket}
use cosmwasm.Bucket.Laws.{eq_of_save, eq_of_update}
use cosmwasm.Sequence.{or_zero}
use cosmwasm.Staking.Totals.{worth, worth?, total, held, total-insert}

pub may_deserialize-worth :
    (c : Serde ℕ) (o : Option Bytes) (old : Option ℕ)
    → may_deserialize c o ≡ ok old
    → worth? c o ≡ or_zero old
unfolding may_deserialize
may_deserialize-worth c none old h = ground arith
may_deserialize-worth c (some v) old h = ground arith

-- What a successful update of a bucket of amounts has done.
module _ {S : Type 0} {ops : Storage S} (law : IsStorage ops) {c : Serde ℕ} (json : IsSerde c) where
  abbrev pub bucket_total : Bytes → S → ℕ
  bucket_total prefix s = total c (under prefix (law.view s))

  pub held-may_load :
      (b : Bucket S) (k : Bytes) (old : Option ℕ)
      → Bucket.may_load ops c b k ≡ ok old
      → held c k (under b.prefix (law.view b.storage)) ≡ or_zero old
  unfolding Bucket.may_load held
  held-may_load b k old h =
      ap (worth? c)
        (sym (law.get-view b.storage (b.prefix ++ k) ∙ get-under b.prefix k (law.view b.storage)))
      ∙ may_deserialize-worth c (ops.get b.storage (b.prefix ++ k)) old h

  bucket_total-insert :
      (b b' : Bucket S) (k bytes : Bytes) (old : Option ℕ) (t : ℕ)
      → law.IsValid b.storage
      → law.view b'.storage ≡ BTreeMap.insert (b.prefix ++ k) bytes (law.view b.storage)
      → Bucket.may_load ops c b k ≡ ok old
      → c.from_slice bytes ≡ ok t
      → b'.prefix ≡ b.prefix
      → bucket_total b.prefix b'.storage + or_zero old ≡ bucket_total b.prefix b.storage + t
  bucket_total-insert b b' k bytes old t valid inserted loaded read p =
      let m = under b.prefix (law.view b.storage) in
      let sorted = law.view-IsSorted b.storage valid in
      let after : under b.prefix (law.view b'.storage) ≡ BTreeMap.insert k bytes m =
        ap (under b.prefix) inserted ∙ under-insert b.prefix k bytes (law.view b.storage) sorted in
      let value : worth c bytes ≡ t = rw (read, worth) in
      omega (
        arith,
        ap (total c) after,
        total-insert c k bytes m (under-IsSorted b.prefix (law.view b.storage) sorted),
        held-may_load b k old loaded,
        value,
      )

  pub update_effect :
      (b b' : Bucket S) (k : Bytes) (action : Option ℕ → Call StdError ℕ) (t : ℕ)
      → law.IsValid b.storage
      → Bucket.update ops c (λ e. e) b k action ≡ success (t, b')
      → (old : Option ℕ) × (Bucket.may_load ops c b k ≡ ok old)
        × (action old ≡ success t)
        × law.IsValid b'.storage
        × (bucket_total b.prefix b'.storage + or_zero old ≡ bucket_total b.prefix b.storage + t)
        × ((q : Bytes)
            → strip q (b.prefix ++ k) ≡ none
            → under q (law.view b'.storage) ≡ under q (law.view b.storage))
        × ((j : Bytes) → j ≢ b.prefix ++ k → ops.get b'.storage j ≡ ops.get b.storage j)
  unfolding Bucket.update Bucket.may_load
  update_effect b b' k action t valid h =
      let (old, loaded, ran, saved) =
        eq_of_update law json (λ e. e) b b' k action t (Bucket.may_load ops c b k)
          (Bucket.save ops c b k) h in
      let (bytes, e, done, p) = eq_of_save law json b b' k t saved in
      let full = json.nonempty t bytes e in
      let inserted = view-set law b.storage (b.prefix ++ k) bytes valid full b'.storage done in
      (
        old,
        loaded,
        ran,
        set-IsValid law b.storage (b.prefix ++ k) bytes valid full b'.storage done,
        bucket_total-insert b b' k bytes old t valid (inserted) loaded (json.read_back t bytes e) p,
        λ q other.
            ap (under q) inserted
            ∙ under-insert_other q (b.prefix ++ k) bytes (law.view b.storage) other,
        get-set_ne law b.storage (b.prefix ++ k) bytes valid full b'.storage done,
      )

  -- What the update has written.
  pub update_stored :
      (b b' : Bucket S) (k : Bytes) (action : Option ℕ → Call StdError ℕ) (t : ℕ)
      → law.IsValid b.storage
      → Bucket.update ops c (λ e. e) b k action ≡ success (t, b')
      → (bytes : Bytes) × (ops.get b'.storage (b.prefix ++ k) ≡ some bytes)
        × (c.from_slice bytes ≡ ok t)
  unfolding Bucket.update Bucket.may_load
  update_stored b b' k action t valid h =
      let (old, loaded, ran, saved) =
        eq_of_update law json (λ e. e) b b' k action t (Bucket.may_load ops c b k)
          (Bucket.save ops c b k) h in
      let (bytes, e, done, p) = eq_of_save law json b b' k t saved in
      (
        bytes,
        get-set_self law b.storage (b.prefix ++ k) bytes valid (json.nonempty t bytes e) b'.storage
            done,
        json.read_back t bytes e,
      )
