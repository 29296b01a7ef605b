-- ===== src/Singleton/Laws.antt =====
-- packages/storage/src/singleton.rs: loads after the other operations.
use cosmwasm.Base.{◌≡◌, ◌≢◌, some, none, returns, ok, arith, ap}
use cosmwasm.Base.Call.{success}
use cosmwasm.Bytes.{Bytes}
use cosmwasm.Storage.{Storage, IsStorage}
use cosmwasm.Storage.Access.{set_returns, set-IsValid, get-set_self, get-set_ne, get-remove_self}
use cosmwasm.Serde.{Serde, IsSerde}
use cosmwasm.TypeHelpers.{may_deserialize}
use cosmwasm.Singleton.{Singleton, save, load, may_load, remove}

module _ {S T : Type 0} {ops : Storage S} (law : IsStorage ops) {c : Serde T}
    (json : IsSerde c) where
  pub eq_of_save :
      (s s' : Singleton S) (t : T)
      → save ops c s t ≡ success s'
      → (bytes : Bytes) × (c.to_vec t ≡ ok bytes)
        × (ops.set s.storage s.key bytes ≡ returns s'.storage)
        × (s'.key ≡ s.key)
  unfolding save
  eq_of_save s s' t h = ground arith

  pub save_succeeds :
      (s : Singleton S) (t : T) (bytes : Bytes)
      → law.IsValid s.storage
      → c.to_vec t ≡ ok bytes
      → (s' : Singleton S) × (save ops c s t ≡ success s')
  unfolding save
  save_succeeds s t bytes valid e =
      let (u, done) = set_returns law s.storage s.key bytes valid (json.nonempty t bytes e) in
      (record s { storage = u }, ground arith)

  module _ (s s' : Singleton S) (t : T) (valid : law.IsValid s.storage)
      (saved : save ops c s t ≡ success s') where
    pub save-IsValid : law.IsValid s'.storage
    save-IsValid =
        let (bytes, e, done, _) = eq_of_save s s' t saved in
        set-IsValid law s.storage s.key bytes valid (json.nonempty t bytes e) s'.storage done

    pub stored : may_load ops c s' ≡ ok (some t)
    unfolding may_load
    stored =
        let (bytes, e, done, k) = eq_of_save s s' t saved in
        rw (
          k,
          get-set_self law s.storage s.key bytes valid (json.nonempty t bytes e) s'.storage done,
          json.read_back t bytes e,
        )

    -- A value that was saved into a valid storage is loaded again, by `load` and by `may_load`, and
    -- any other raw key j reads as before.
    pub load-save_singleton :
        (j : Bytes)
        → j ≢ s.key
        → (load ops c s' ≡ ok t)
          × (may_load ops c s' ≡ ok (some t))
          × (ops.get s'.storage j ≡ ops.get s.storage j)
    unfolding load
    load-save_singleton j n' =
        let (bytes, e, done, k) = eq_of_save s s' t saved in
        let n = json.nonempty t bytes e in
        (
          rw (k, get-set_self law s.storage s.key bytes valid n s'.storage done)
              (json.read_back t bytes e),
          stored,
          get-set_ne law s.storage s.key bytes valid n s'.storage done j n',
        )

  pub may_load-remove_singleton :
      (s : Singleton S) → law.IsValid s.storage → may_load ops c (remove ops s) ≡ ok none
  unfolding may_load remove
  may_load-remove_singleton s valid =
      ap (may_deserialize c) (get-remove_self law s.storage s.key valid)
