-- ===== src/Sequence/Count.antt =====
-- packages/storage/src/sequence.rs: the values that the calls of `nextval` return.
use cosmwasm.Base.{ℕ, zero, suc, ◌+◌, ◌^◌, ◌<◌, ◌≡◌, refl, ok, arith, ap, ◌∙◌, ◌≤◌}
use cosmwasm.Base.Call.{Call, success, panic, ◌>>=◌}
use cosmwasm.Storage.{Storage, IsStorage}
use cosmwasm.Errors.{StdError}
use cosmwasm.Bytes.{Bytes}
use cosmwasm.Serde.{Serde, IsSerde}
use cosmwasm.Singleton.{Singleton}
use cosmwasm.Singleton.Laws.{save_succeeds, save-IsValid, stored}
use cosmwasm.Sequence.{currval, nextval}

-- `n` calls of `nextval` in turn: the sequence after them.
unfoldable pub after_calls :
    {S : Type 0} → Storage S → Serde ℕ → ℕ → Singleton S → Call StdError (Singleton S)
after_calls ops c zero seq = success seq
after_calls ops c (suc n) seq = nextval ops c seq >>= λ r. after_calls ops c n r.1

module _ {S : Type 0} {ops : Storage S} (law : IsStorage ops) {c : Serde ℕ} (json : IsSerde c)
    (total : (n : ℕ) → n < 2 ^ 64 → (b : Bytes) × (c.to_vec n ≡ ok b)) where
  -- Over a valid storage and a codec that serializes every `u64`, a call below the maximum of
  -- `u64` succeeds, returns one more than the current value, makes it current, and the storage
  -- stays valid.
  pub nextval_lem :
      (seq : Singleton S) (n : ℕ)
      → law.IsValid seq.storage
      → currval ops c seq ≡ ok n
      → n + 1 < 2 ^ 64
      → (seq' : Singleton S) × (nextval ops c seq ≡ success (n + 1, seq'))
        × law.IsValid seq'.storage
        × (currval ops c seq' ≡ ok (n + 1))
  unfolding nextval
  nextval_lem seq n valid now h =
      let (bytes, e) = total (n + 1) h in
      let (seq', saved) = save_succeeds law json seq (n + 1) bytes valid e in
      (
        seq',
        ground arith,
        save-IsValid law json seq seq' (n + 1) valid saved,
        rw (stored law json seq seq' (n + 1) valid saved),
      )

  -- Where one more than the current value is not a `u64`, the call panics.
  pub nextval_overflow :
      (seq : Singleton S) (n : ℕ)
      → currval ops c seq ≡ ok n
      → 2 ^ 64 ≤ n + 1
      → nextval ops c seq ≡ panic
  unfolding nextval
  nextval_overflow seq n now h = ground arith

  -- Over a valid storage and a codec that serializes every `u64`, n calls in turn from the value m
  -- all succeed and leave m + n and a valid storage, where m + n fits in a `u64`.
  pub after_calls_count :
      (n m : ℕ) (seq : Singleton S)
      → law.IsValid seq.storage
      → currval ops c seq ≡ ok m
      → m + n < 2 ^ 64
      → (seq' : Singleton S) × (after_calls ops c n seq ≡ success seq')
        × law.IsValid seq'.storage
        × (currval ops c seq' ≡ ok (m + n))
  unfolding after_calls
  after_calls_count zero m seq valid now h = (seq, refl, valid, rw now (ap ok (omega arith)))
  after_calls_count (suc n) m seq valid now h =
      let (next, done, valid', now') = nextval_lem seq m valid now (omega arith) in
      let (last, rest, valid'', now'') =
        after_calls_count n (m + 1) next valid' now' (omega arith) in
      (last, rw done rest, valid'', now'' ∙ ap ok (omega arith))
