-- ===== src/Queue/Fifo.antt =====
-- The queue that the contract stands for: its values in order, and the number of the first key.
use cosmwasm.Base.{ℕ, suc, ◌+◌, Option, none, some, List, [], ◌∷◌, ◌++◌, length, ltb, if◌then◌else◌}
use cosmwasm.Queue.Int32.{ℤ}
use cosmwasm.Queue.{ExecuteMsg, enqueue_value, dequeue_value}

pub record Fifo : Type 0 where
  pub first : ℕ
  pub values : List ℤ

-- A value goes behind the last one; an empty queue begins anew, and there are 256 keys.
abbrev put_behind : ℤ → ℕ → List ℤ → Option Fifo
put_behind v first [] = some (record { first = 0; values = v ∷ [] })
put_behind v first (w ∷ ws) =
    if ltb (first + length (w ∷ ws)) 256
    then some (record { first = first; values = (w ∷ ws) ++ (v ∷ []) })
    else none

abbrev take_first : ℕ → List ℤ → Option ℤ × Fifo
take_first first [] = (none, record { first = first; values = [] })
take_first first (v ∷ vs) = (some v, record { first = suc first; values = vs })

abbrev pub put : ℤ → Fifo → Option Fifo
put v q = put_behind v q.first q.values

abbrev pub get : Fifo → Option ℤ × Fifo
get q = take_first q.first q.values

-- What a message does to the queue; `none` is a panic.
unfoldable pub apply : ExecuteMsg → Fifo → Option (Option ℤ × Fifo)
apply (enqueue_value v) q = elim (put v q) [ none ↦ none | some q' ↦ some (none, q') ]
apply dequeue_value q = some (get q)

-- A queue with no bound on its keys.
unfoldable pub answers : List ExecuteMsg → List ℤ → List (Option ℤ)
answers [] vs = []
answers (enqueue_value v ∷ msgs) vs = none ∷ answers msgs (vs ++ (v ∷ []))
answers (dequeue_value ∷ msgs) [] = none ∷ answers msgs []
answers (dequeue_value ∷ msgs) (v ∷ vs) = some v ∷ answers msgs vs

-- How many values the messages put in.
unfoldable pub enqueued : List ExecuteMsg → ℕ
enqueued [] = 0
enqueued (enqueue_value v ∷ msgs) = suc (enqueued msgs)
enqueued (dequeue_value ∷ msgs) = enqueued msgs
