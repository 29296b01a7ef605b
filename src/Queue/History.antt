-- ===== src/Queue/History.antt =====
-- Sequences of messages to the contract, against the queue.
use cosmwasm.Base.{
  ℕ, suc, ◌+◌, ◌≤◌, ◌≡◌, refl, Option, none, some, List, [], ◌∷◌, ◌++◌, map, length, lt→ltb, arith,
  length-append, ok,
}
use mathlib.Core.Option
use cosmwasm.Base.Call.{Call, success, panic, ◌>>=◌}
use cosmwasm.Bytes.{Bytes}
use cosmwasm.Storage.{Storage, IsStorage}
use cosmwasm.Serde.{Serde, IsSerde}
use cosmwasm.Errors.{StdError}
use cosmwasm.Queue.Int32.{ℤ}
use cosmwasm.Queue.Items.{Item}
use cosmwasm.Queue.{ExecuteMsg, enqueue_value, dequeue_value, execute}
use cosmwasm.Queue.Fifo.{Fifo, apply, answers, enqueued}
use cosmwasm.Queue.Refine.{Holds, Simulates, execute_refines, apply-more}

-- The queue through a sequence of messages.
unfoldable pub run_queue : List ExecuteMsg → Fifo → Option (List (Option ℤ) × Fifo)
unfolding apply
run_queue [] q = some ([], q)
run_queue (msg ∷ msgs) q = elim (apply msg q) [
  | none ↦ none
  | some (out, q') ↦ Option.map (λ r. (out ∷ r.0, r.1)) (run_queue msgs q')
]

-- Where the messages put in no more values than there are keys left, the queue answers like one
-- with no bound.
run_queue-answers :
    (msgs : List ExecuteMsg) (a : ℕ) (vs : List ℤ)
    → a + length vs + enqueued msgs ≤ 256
    → (q : Fifo) × (run_queue msgs (record { first = a; values = vs }) ≡ some (answers msgs vs, q))
unfolding run_queue answers enqueued
run_queue-answers [] a vs h = (record { first = a; values = vs }, refl)
run_queue-answers (enqueue_value v ∷ msgs) a [] h =
    let (q, e) = run_queue-answers msgs 0 (v ∷ []) (omega arith) in
    (q, rw (run_queue, apply, e) refl)
run_queue-answers (enqueue_value v ∷ msgs) a (w ∷ ws) h =
    let (q, e) =
      run_queue-answers msgs a ((w ∷ ws) ++ (v ∷ []))
        (omega (arith, length-append (w ∷ ws) (v ∷ []), h)) in
    (q, rw (run_queue, apply-more a w ws v (lt→ltb _ _ (omega arith)), e) refl)
run_queue-answers (dequeue_value ∷ msgs) a [] h =
    let (q, e) = run_queue-answers msgs a [] h in (q, rw (run_queue, apply, e) refl)
run_queue-answers (dequeue_value ∷ msgs) a (v ∷ vs) h =
    let (q, e) = run_queue-answers msgs (suc a) vs (omega arith) in
    (q, rw (run_queue, apply, e) refl)

module _ {S : Type 0} (ops : Storage S) (json : Serde Item) where
  -- The messages one after the other, with the data of their responses.
  unfoldable pub run_all : List ExecuteMsg → S → Call StdError (List (Option Bytes) × S)
  unfolding execute
  run_all [] s = success ([], s)
  run_all (msg ∷ msgs) s = do
    r ← execute ops json msg s
    rest ← run_all msgs r.1
    success (r.0 ∷ rest.0, rest.1)

module _ {S : Type 0} (ops : Storage S) (law : IsStorage ops) (json : Serde Item)
    (codec : IsSerde json) (enc : ℤ → Bytes)
    (encodes : (v : ℤ) → json.to_vec (record { value = v }) ≡ ok (enc v)) where
  -- What a run of the contract must be where this is the run of the queue.
  abbrev pub Follows :
      Call StdError (List (Option Bytes) × S) → Option (List (Option ℤ) × Fifo) → Type 0
  Follows c none = c ≡ panic
  Follows c (some (outs, q)) =
      (s' : S) × (c ≡ success (map (Option.map enc) outs, s'))
      × Holds ops law json codec enc encodes s' q

  Follows-on :
      (out : Option ℤ) (c : Call StdError (List (Option Bytes) × S))
      (r : Option (List (Option ℤ) × Fifo))
      → Follows c r
      → Follows
          (c >>= λ rest. success (Option.map enc out ∷ rest.0, rest.1))
          (Option.map (λ t. (out ∷ t.0, t.1)) r)
  Follows-on out c none h = rw h refl
  Follows-on out c (some (outs, q)) (s', e, h) = (s', rw e refl, h)

  -- No sequence of messages tells the contract from the queue of its values with a counter of
  -- keys: the data of the responses are the encodings of what the queue gives, the storage holds
  -- the queue's values afterwards, and the contract panics exactly where the queue has no key left.
  pub run_refines :
      (msgs : List ExecuteMsg) (s : S) (q : Fifo)
      → Holds ops law json codec enc encodes s q
      → Follows (run_all ops json msgs s) (run_queue msgs q)
  unfolding run_all run_queue
  run_refines [] s q h = (s, refl, h)
  run_refines (msg ∷ msgs) s q h =
      go (apply msg q) refl (execute_refines ops law json codec enc encodes s q msg h)
        (λ s' q' h'. run_refines msgs s' q' h')
    where
      go :
          (r : Option (Option ℤ × Fifo))
          → apply msg q ≡ r
          → Simulates ops law json codec enc encodes (execute ops json msg s) (apply msg q)
          → ((s' : S) (q' : Fifo)
              → Holds ops law json codec enc encodes s' q'
              → Follows (run_all ops json msgs s') (run_queue msgs q'))
          → Follows (run_all ops json (msg ∷ msgs) s) (run_queue (msg ∷ msgs) q)
      go none e sim ih =
          let p : execute ops json msg s ≡ panic = rw e at sim in rw (run_all, p, run_queue, e) refl
      go (some (out, q')) e sim ih =
          let (s', p, h') = rw e at sim in
          rw (run_all, p, run_queue, e)
            (Follows-on out (run_all ops json msgs s') (run_queue msgs q') (ih s' q' h'))

  -- From a storage that holds a queue whose first key, length and number of values to come are at
  -- most 256 together, any sequence of messages succeeds, and the data of the responses are those
  -- of a first-in-first-out queue.
  pub run_is_fifo :
      (msgs : List ExecuteMsg) (s : S) (q : Fifo)
      → Holds ops law json codec enc encodes s q
      → q.first + length q.values + enqueued msgs ≤ 256
      → (s' : S) × (run_all ops json msgs s
          ≡ success (map (Option.map enc) (answers msgs q.values), s'))
  run_is_fifo msgs s q h few =
      let (q', e) = run_queue-answers msgs q.first q.values few in
      let (s', done, _) = rw e at (run_refines msgs s q h) in (s', done)
