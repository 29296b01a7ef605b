-- ===== src/Queue/Refine.antt =====
-- The contract against the queue of its values.
use cosmwasm.Base.{
  length-map, ℕ, ◌+◌, ◌≤◌, ◌<◌, ◌≡◌, ◌≢◌, refl, sym, ap, ◌∙◌, inl, inr, true, false, Bool-cases,
  Option, none, some, List, [], ◌∷◌, ◌++◌, map, reverse, length, returns, ok, ltb, ltb→lt, ltb→ge,
  lt→ltb, ge→ltb, arith, length-append,
}
use mathlib.Core.Option
use cosmwasm.Base.Call.{Call, success, panic}
use cosmwasm.Bytes.{Bytes}
use cosmwasm.BTreeMap
use cosmwasm.BTreeMap.{Record}
use cosmwasm.Storage.{Storage, IsStorage, ascending, descending}
use cosmwasm.Serde.{Serde, IsSerde}
use cosmwasm.Errors.{StdError}
use cosmwasm.Queue.Int32.{ℤ}
use cosmwasm.Queue.Items.{Item, next, new_key, first_byte}
use cosmwasm.Queue.{
  ExecuteMsg, enqueue_value, dequeue_value, enqueue, handle_enqueue, handle_dequeue, execute,
}
use cosmwasm.Queue.Fifo.{Fifo, get, apply}
use cosmwasm.Queue.Keys.{entries, range_all, insert_last, erase_first, next_last}

map-snoc : (f : ℤ → Bytes) (l : List ℤ) (v : ℤ) → map f (l ++ (v ∷ [])) ≡ map f l ++ (f v ∷ [])
map-snoc f [] v = refl
map-snoc f (x ∷ xs) v = ap (λ t. f x ∷ t) (map-snoc f xs v)

pub apply-more :
    (a : ℕ) (w : ℤ) (ws : List ℤ) (v : ℤ)
    → ltb (a + length (w ∷ ws)) 256 ≡ true
    → apply (enqueue_value v) (record { first = a; values = w ∷ ws })
      ≡ some (none, record { first = a; values = (w ∷ ws) ++ (v ∷ []) })
unfolding apply
apply-more a w ws v t = rw (apply, t) refl

apply-full :
    (a : ℕ) (w : ℤ) (ws : List ℤ) (v : ℤ)
    → ltb (a + length (w ∷ ws)) 256 ≡ false
    → apply (enqueue_value v) (record { first = a; values = w ∷ ws }) ≡ none
unfolding apply
apply-full a w ws v f = rw (apply, f) refl

-- What the contract relies on: the storage's laws, and an encoding of the items that never fails.
module _ {S : Type 0} (ops : Storage S) (law : IsStorage ops) (json : Serde Item)
    (codec : IsSerde json) (enc : ℤ → Bytes)
    (encodes : (v : ℤ) → json.to_vec (record { value = v }) ≡ ok (enc v)) where
  -- The storage has the values of the queue under consecutive keys of one byte, and nothing else.
  pub record Holds (s : S) (q : Fifo) : Type 0 where
    pub valid : law.IsValid s
    pub view : law.view s ≡ entries q.first (map enc q.values)
    pub bound : q.first + length q.values ≤ 256

  pub range_ascending :
      (s : S) (q : Fifo)
      → Holds s q
      → ops.range s none none ascending ≡ map returns (entries q.first (map enc q.values))
  range_ascending s q h =
      law.range-view s none none ascending h.valid
      ∙ ap (map returns) (range_all (law.view s) ∙ h.view)

  range_descending :
      (s : S) (q : Fifo)
      → Holds s q
      → ops.range s none none descending
        ≡ map returns (reverse (entries q.first (map enc q.values)))
  range_descending s q h =
      law.range-view s none none descending h.valid
      ∙ ap (λ m. map returns (reverse m)) (range_all (law.view s) ∙ h.view)

  nonempty : (v : ℤ) → enc v ≢ []
  nonempty v = codec.nonempty (record { value = v }) (enc v) (encodes v)

  -- A write of an item under the key behind the last one.
  writes_behind :
      (s : S) (q : Fifo) (v : ℤ) (first key : ℕ)
      → Holds s q
      → entries first (map enc q.values) ≡ entries q.first (map enc q.values)
      → key ≡ first + length q.values
      → key < 256
      → (s' : S) × (ops.set s (key ∷ []) (enc v) ≡ returns s')
        × Holds s' (record { first = first; values = q.values ++ (v ∷ []) })
  writes_behind s q v first key h same at small =
      let (s', e, valid', view') = law.set-view s (key ∷ []) (enc v) h.valid (nonempty v) in
      let at' : key ≡ first + length (map enc q.values) = rw (length-map enc q.values) at in
      (
        s',
        e,
        record {
          valid = valid';
          view =
              view'
              ∙ ap (BTreeMap.insert (key ∷ []) (enc v)) (h.view ∙ sym same)
              ∙ ap (λ k. BTreeMap.insert (k ∷ []) (enc v) (entries first (map enc q.values))) at'
              ∙ insert_last first (enc v) (map enc q.values)
              ∙ ap (entries first) (sym (map-snoc enc q.values v));
          bound = omega (arith, length-append q.values (v ∷ []), at, small);
        },
      )

  pub enqueue_empty :
      (s : S) (a : ℕ) (v : ℤ)
      → Holds s (record { first = a; values = [] })
      → (s' : S) × (enqueue ops json v s ≡ success s')
        × Holds s' (record { first = 0; values = v ∷ [] })
  unfolding enqueue next new_key
  enqueue_empty s a v h =
      let (s', e, h') =
        writes_behind s (record { first = a; values = [] }) v 0 0 h refl refl (omega arith) in
      (s', rw (range_descending s (record { first = a; values = [] }) h, encodes v, e) refl, h')

  -- The key that is found for the next value.
  last_key :
      (s : S) (a : ℕ) (w : ℤ) (ws : List ℤ)
      → Holds s (record { first = a; values = w ∷ ws })
      → (x : Bytes) × (next (ops.range s none none descending)
          ≡ returns (some ((a + length ws) ∷ [], x)))
  last_key s a w ws h =
      let (x, e) = next_last a (enc w) (map enc ws) in
      (
        x,
        ap next (range_descending s (record { first = a; values = w ∷ ws }) h)
            ∙ rw (length-map enc ws) at e,
      )

  pub enqueue_more :
      (s : S) (a : ℕ) (w : ℤ) (ws : List ℤ) (v : ℤ)
      → Holds s (record { first = a; values = w ∷ ws })
      → a + length (w ∷ ws) < 256
      → (s' : S) × (enqueue ops json v s ≡ success s')
        × Holds s' (record { first = a; values = (w ∷ ws) ++ (v ∷ []) })
  unfolding enqueue new_key first_byte
  enqueue_more s a w ws v h small =
      let (x, found) = last_key s a w ws h in
      let (s', e, h') =
        writes_behind s (record { first = a; values = w ∷ ws }) v a (a + length ws + 1) h refl
          (omega arith) (omega arith) in
      (
        s',
        rw (enqueue, found, new_key, lt→ltb (a + length ws + 1) 256 (omega arith), encodes v, e)
            refl,
        h',
      )

  enqueue_full :
      (s : S) (a : ℕ) (w : ℤ) (ws : List ℤ) (v : ℤ)
      → Holds s (record { first = a; values = w ∷ ws })
      → 256 ≤ a + length (w ∷ ws)
      → enqueue ops json v s ≡ panic
  unfolding enqueue new_key first_byte
  enqueue_full s a w ws v h full =
      let (x, found) = last_key s a w ws h in
      rw (enqueue, found, new_key, ge→ltb (a + length ws + 1) 256 (omega arith)) refl

  -- What a call must do where the queue does this.
  abbrev pub Simulates : Call StdError (Option Bytes × S) → Option (Option ℤ × Fifo) → Type 0
  Simulates c none = c ≡ panic
  Simulates c (some (out, q)) = (s' : S) × (c ≡ success (Option.map enc out, s')) × Holds s' q

  dequeue_refines :
      (s : S) (q : Fifo) → Holds s q → Simulates (handle_dequeue ops json s) (some (get q))
  unfolding handle_dequeue next
  dequeue_refines s q h = go q.first q.values h
    where
      go :
          (a : ℕ) (vs : List ℤ)
          → Holds s (record { first = a; values = vs })
          → Simulates (handle_dequeue ops json s) (some (get (record { first = a; values = vs })))
      go a [] h = (s, rw (handle_dequeue, range_ascending s _ h) refl, h)
      go a (v ∷ vs) h =
          let (valid', view') = law.remove-view s (a ∷ []) h.valid in
          (
            ops.remove s (a ∷ []),
            rw (handle_dequeue, range_ascending s _ h) refl,
            record {
              valid = valid';
              view = view' ∙ ap (BTreeMap.erase (a ∷ [])) h.view ∙ erase_first (a ∷ []) (enc v) _;
              bound = omega (arith, h.bound);
            },
          )

  enqueue_refines :
      (s : S) (q : Fifo) (v : ℤ)
      → Holds s q
      → Simulates (handle_enqueue ops json v s) (apply (enqueue_value v) q)
  unfolding handle_enqueue apply
  enqueue_refines s q v h = go q.first q.values h
    where
      go :
          (a : ℕ) (vs : List ℤ)
          → Holds s (record { first = a; values = vs })
          → Simulates
              (handle_enqueue ops json v s)
              (apply (enqueue_value v) (record { first = a; values = vs }))
      go a [] h = let (s', e, h') = enqueue_empty s a v h in (s', rw e refl, h')
      go a (w ∷ ws) h = elim (Bool-cases (ltb (a + length (w ∷ ws)) 256)) [
        | inl t ↦
            let (s', e, h') = enqueue_more s a w ws v h (ltb→lt _ _ t) in
            rw (apply-more a w ws v t) (s', rw e refl, h')
        | inr f ↦ rw (apply-full a w ws v f) (rw (enqueue_full s a w ws v h (ltb→ge _ _ f)) refl)
      ]

  -- A message to the contract does to its storage what it does to the queue.
  pub execute_refines :
      (s : S) (q : Fifo) (msg : ExecuteMsg)
      → Holds s q
      → Simulates (execute ops json msg s) (apply msg q)
  unfolding execute apply
  execute_refines s q (enqueue_value v) h = enqueue_refines s q v h
  execute_refines s q dequeue_value h = dequeue_refines s q h
