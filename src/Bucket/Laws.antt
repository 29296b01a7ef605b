-- ===== src/Bucket/Laws.antt =====
-- packages/storage/src/bucket.rs as a map of typed values: loads after the other operations.
use cosmwasm.Base.{◌≡◌, ◌≢◌, refl, ap, Option, none, ◌++◌, returns, ok, err, arith}
use cosmwasm.Base.Call.{Call, success, map_failure, try_into, ◌>>=◌}
use cosmwasm.Bytes.{Bytes}
use cosmwasm.Bytes.Prefix.{append_cancel}
use cosmwasm.Storage.{Storage, IsStorage}
use cosmwasm.Storage.Access.{
  set_returns, set-IsValid, get-set_self, get-set_ne, get-remove_self, get-remove_ne,
}
use cosmwasm.Errors.{StdError, StdResult}
use cosmwasm.Serde.{Serde, IsSerde}
use cosmwasm.TypeHelpers.{may_deserialize}
use cosmwasm.Bucket.{Bucket, save, load, may_load, remove, update}

abbrev pair_up : {A B E : Type 0} → A → B → Call E (A × B)
pair_up a b = success (a, b)

module _ {S T : Type 0} {ops : Storage S} (law : IsStorage ops) {c : Serde T}
    (json : IsSerde c) where
  -- What a successful save has done.
  pub eq_of_save :
      (b b' : Bucket S) (k : Bytes) (t : T)
      → save ops c b k t ≡ success b'
      → (bytes : Bytes) × (c.to_vec t ≡ ok bytes)
        × (ops.set b.storage (b.prefix ++ k) bytes ≡ returns b'.storage)
        × (b'.prefix ≡ b.prefix)
  unfolding save
  eq_of_save b b' k t h = ground arith

  -- A value that serializes is saved, and no error is returned.
  pub save_succeeds :
      (b : Bucket S) (k : Bytes) (t : T) (bytes : Bytes)
      → law.IsValid b.storage
      → c.to_vec t ≡ ok bytes
      → (b' : Bucket S) × (save ops c b k t ≡ success b')
  unfolding save
  save_succeeds b k t bytes valid e =
      let (s', done) =
        set_returns law b.storage (b.prefix ++ k) bytes valid (json.nonempty t bytes e) in
      (record b { storage = s' }, ground arith)

  module _ (b b' : Bucket S) (k : Bytes) (t : T) (valid : law.IsValid b.storage)
      (saved : save ops c b k t ≡ success b') where
    pub save-IsValid : law.IsValid b'.storage
    save-IsValid =
        let (bytes, e, done, _) = eq_of_save b b' k t saved in
        set-IsValid law b.storage (b.prefix ++ k) bytes valid (json.nonempty t bytes e) b'.storage
          done

    load-save_self : load ops c b' k ≡ ok t
    unfolding load
    load-save_self =
        let (bytes, e, done, p) = eq_of_save b b' k t saved in
        rw
          (
            p,
            get-set_self law b.storage (b.prefix ++ k) bytes valid (json.nonempty t bytes e)
                b'.storage done,
          )
          (json.read_back t bytes e)

    may_load-save_ne : (j : Bytes) → j ≢ k → may_load ops c b' j ≡ may_load ops c b j
    unfolding may_load
    may_load-save_ne j n =
        let (bytes, e, done, p) = eq_of_save b b' k t saved in
        rw p (
          ap (may_deserialize c) (
            get-set_ne law b.storage (b.prefix ++ k) bytes valid (json.nonempty t bytes e)
              b'.storage done (b.prefix ++ j) (λ f. n (append_cancel b.prefix j k f))))

  -- After a successful save into a valid storage, the saved value is loaded at its key k, and at
  -- any other key j what was there before.
  pub load-save :
      (b b' : Bucket S) (k j : Bytes) (t : T)
      → law.IsValid b.storage
      → save ops c b k t ≡ success b'
      → j ≢ k
      → (load ops c b' k ≡ ok t) × (may_load ops c b' j ≡ may_load ops c b j)
  load-save b b' k j t valid saved n =
      (load-save_self b b' k t valid saved, may_load-save_ne b b' k t valid saved j n)

  -- After a removal from a valid storage nothing is loaded at the key k, and any other key j keeps
  -- its value.
  pub may_load-remove :
      (b : Bucket S) (k j : Bytes)
      → law.IsValid b.storage
      → j ≢ k
      → (may_load ops c (remove ops b k) k ≡ ok none)
        × (may_load ops c (remove ops b k) j ≡ may_load ops c b j)
  unfolding may_load remove
  may_load-remove b k j valid n = (
    ap (may_deserialize c) (get-remove_self law b.storage (b.prefix ++ k) valid),
    ap (may_deserialize c) (
        get-remove_ne law b.storage (b.prefix ++ k) valid (b.prefix ++ j)
          (λ f. n (append_cancel b.prefix j k f))),
  )

  pub eq_of_update :
      {E : Type 0} (from : StdError → E) (b b' : Bucket S) (k : Bytes)
      (action : Option T → Call E T) (t : T) (loaded : StdResult (Option T))
      (saved : T → Call StdError (Bucket S))
      → (try_into from loaded >>= λ input.
          action input >>= λ output. map_failure from (saved output) >>= λ b''. pair_up output b'')
        ≡ success (t, b')
      → (old : Option T) × (loaded ≡ ok old) × (action old ≡ success t) × (saved t ≡ success b')
  eq_of_update from b b' k action t (err e) saved h = cc
  eq_of_update from b b' k action t (ok old) saved h = (old, refl, ground arith, ground arith)

  -- A successful update of a valid storage ran its action on what was loaded, and what the action
  -- returned is returned and is loaded afterwards.
  pub update_lem :
      {E : Type 0} (from : StdError → E) (b b' : Bucket S) (k : Bytes)
      (action : Option T → Call E T) (t : T)
      → law.IsValid b.storage
      → update ops c from b k action ≡ success (t, b')
      → (old : Option T) × (may_load ops c b k ≡ ok old)
        × (action old ≡ success t)
        × (load ops c b' k ≡ ok t)
  unfolding update
  update_lem from b b' k action t valid h =
      let (old, loaded, ran, saved) =
        eq_of_update from b b' k action t (may_load ops c b k) (save ops c b k) h in
      (old, loaded, ran, load-save_self b b' k t valid saved)
