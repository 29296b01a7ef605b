-- ===== src/Vm/Imports/Storage.antt =====
-- What the imports for the storage do to the environment of a contract.
use cosmwasm.Base.{
  ℕ, ◌+◌, ◌-◌, ◌^◌, ◌<◌, ◌≡◌, refl, sym, ap, ◌∙◌, inl, inr, some, Result, ok, err, leb, leb→le,
  if◌then◌else◌, Bool, true, false, arith, Bool-cases, Option-cases, Result-cases,
}
use cosmwasm.Base.Call.{Call, success, failure}
use cosmwasm.Bytes.{Bytes}
use cosmwasm.Vm.Errors.{VmError, BackendError, write_access_denied, gas_depletion, from_backend}
use cosmwasm.Vm.Gas.{GasInfo}
use cosmwasm.Vm.Environment.{Environment, Host, with_storage_from_context}
use cosmwasm.Vm.Environment.Accounting.{charged, IsMetered, process_gas_info_lem}
use cosmwasm.Vm.Imports.{
  do_db_write, do_db_remove, read_region, max_length_db_key, max_length_db_value,
}

module _ {W S Q : Type 0} (host : Host W S Q) (e : Environment W S Q) where
  -- Without write access `do_db_write` and `do_db_remove` fail with that error and change nothing,
  -- whatever is in the storage.
  pub readonly_lem :
      (key_ptr value_ptr : ℕ)
      → e.storage_readonly ≡ true
      → (do_db_write host key_ptr value_ptr e ≡ (failure write_access_denied, e))
        × (do_db_remove host key_ptr e ≡ (failure write_access_denied, e))
  unfolding do_db_write do_db_remove
  readonly_lem key_ptr value_ptr h = (ground arith, ground arith)

abbrev answered : Result BackendError (Unit {0}) → Call VmError (Unit {0})
answered (ok tt) = success tt
answered (err x) = failure (from_backend x)

module _ {W S Q : Type 0} {host : Host W S Q} (metered : IsMetered host) (e : Environment W S Q)
    (w : W) (s s' : S) (info : GasInfo) (key_ptr : ℕ) (key : Bytes)
    (running : e.wasm_instance ≡ some w) (stored : e.storage ≡ some s)
    (small : info.externally_used + info.cost < 2 ^ 64)
    (region : host.read_region w key_ptr max_length_db_key ≡ ok key) where
  -- Along the path that answers.
  do_db_write_lem :
      (value_ptr : ℕ) (value : Bytes) (r : Result BackendError (Unit {0}))
      → e.storage_readonly ≡ false
      → host.read_region w value_ptr max_length_db_value ≡ ok value
      → host.set s key value ≡ ((r, info), s')
      → do_db_write host key_ptr value_ptr e ≡ (
        (if leb (info.externally_used + info.cost) (host.gas_left w)
            then answered r
            else failure gas_depletion),
        charged metered (record e { storage = some s' }) w info running,
      )
  unfolding do_db_write read_region with_storage_from_context
  do_db_write_lem value_ptr value r h hv hs =
      ground
        (arith, process_gas_info_lem metered (record e { storage = some s' }) w info running small)

-- What a successful write means, apart from how the import does it: there was write access, the two
-- regions could be read within their limits, the host accepted the write of these bytes into the
-- storage of the contract and that is the storage now, and the instance paid for it.
pub record Wrote {W S Q : Type 0} (host : Host W S Q) (key_ptr value_ptr : ℕ)
    (e e' : Environment W S Q) : Type 0 where
  pub before : W
  pub after : W
  pub contents : S
  pub key : Bytes
  pub value : Bytes
  pub may_write : e.storage_readonly ≡ false
  pub ran : e.wasm_instance ≡ some before
  pub runs : e'.wasm_instance ≡ some after
  pub held : e.storage ≡ some contents
  pub key_given : host.read_region before key_ptr 65536 ≡ ok key
  pub value_given : host.read_region before value_ptr 131072 ≡ ok value
  pub accepted : (host.set contents key value).0.0 ≡ ok tt
  pub stored : e'.storage ≡ some (host.set contents key value).1
  pub paid :
      host.gas_left after
        + (host.set contents key value).0.1.externally_used
        + (host.set contents key value).0.1.cost
      ≡ host.gas_left before

depleted :
    {b : Bool} (r : Call VmError (Unit {0}))
    → b ≡ false
    → (if b then r else failure gas_depletion) ≡ success tt
    → ⊥
depleted r e f = ground arith

agreed :
    {b : Bool} (r : Result BackendError (Unit {0}))
    → b ≡ true
    → (if b then answered r else failure gas_depletion) ≡ success tt
    → r ≡ ok tt
agreed (ok tt) e f = refl
agreed (err x) e f = ground arith

module _ {W S Q : Type 0} {host : Host W S Q} (metered : IsMetered host) (e e' : Environment W S Q)
    (key_ptr value_ptr : ℕ)
    (small : (s : S) (k v : Bytes)
      → (host.set s k v).0.1.externally_used + (host.set s k v).0.1.cost < 2 ^ 64) where
  wrote :
      (w : W) (s : S) (key value : Bytes)
      → e.storage_readonly ≡ false
      → e.wasm_instance ≡ some w
      → e.storage ≡ some s
      → host.read_region w key_ptr max_length_db_key ≡ ok key
      → host.read_region w value_ptr max_length_db_value ≡ ok value
      → do_db_write host key_ptr value_ptr e ≡ (success tt, e')
      → Wrote host key_ptr value_ptr e e'
  wrote w s key value may running held hk hv h =
      let a = host.set s key value in
      let amounts = a.0.1.externally_used + a.0.1.cost in
      let run =
        do_db_write_lem metered e w s a.1 a.0.1 key_ptr key running held (small s key value) hk
          value_ptr value a.0.0 may hv refl in
      let same = sym run ∙ h in
      let now : charged metered (record e { storage = some a.1 }) w a.0.1 running ≡ e' =
        ap (λ p. p.1) same in
      elim (Bool-cases (leb amounts (host.gas_left w))) [
        | inr f ↦ absurd (depleted (answered a.0.0) f (ap (λ p. p.0) same))
        | inl t ↦ record {
          before = w;
          after = host.set_gas w (host.gas_left w - a.0.1.externally_used - a.0.1.cost);
          contents = s;
          key = key;
          value = value;
          may_write = may;
          ran = running;
          runs = ap (λ x. x.wasm_instance) (sym now);
          held = held;
          key_given = hk;
          value_given = hv;
          accepted = agreed a.0.0 t (ap (λ p. p.0) same);
          stored = ap (λ x. x.storage) (sym now);
          paid = omega (
            arith,
            metered.read_back w (host.gas_left w - a.0.1.externally_used - a.0.1.cost),
            leb→le _ _ t,
          );
        }
      ]

  -- Over a host that gives back the gas that was set and whose answers cost amounts that add up
  -- within a `u64`. If do_db_write succeeds, whatever the environment was, then there was write
  -- access, a running instance and a storage, the regions of the key and the value could be read
  -- within 64 and 128 KiB, the host accepted the write of these bytes and the storage is the one
  -- after it, and what is left of the gas and the amounts add up to what was left before.
  pub do_db_write-Wrote :
      do_db_write host key_ptr value_ptr e ≡ (success tt, e') → Wrote host key_ptr value_ptr e e'
  unfolding do_db_write read_region with_storage_from_context
  do_db_write-Wrote h = elim (Bool-cases e.storage_readonly) [
    | inl locked ↦ ground arith
    | inr may ↦ elim (Option-cases e.wasm_instance) [
      | inl gone ↦ ground arith
      | inr (w, running) ↦ elim (Result-cases (host.read_region w key_ptr max_length_db_key)) [
        | inr (x, bad) ↦ ground arith
        | inl (key, hk) ↦ elim (Result-cases (host.read_region w value_ptr max_length_db_value)) [
          | inr (x, bad) ↦ ground arith
          | inl (value, hv) ↦ elim (Option-cases e.storage) [
            | inl gone ↦ ground arith
            | inr (s, held) ↦ wrote w s key value may running held hk hv h
          ]
        ]
      ]
    ]
  ]
