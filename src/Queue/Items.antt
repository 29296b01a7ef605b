-- ===== src/Queue/Items.antt =====
-- contracts/queue/src/contract.rs: what the calls do with the items of an iterator, up to a panic.
use cosmwasm.Base.{
  ℕ, ◌+◌, Option, none, some, List, [], ◌∷◌, Outcome, returns, panics, ◌>>=◌, ok, err, ltb,
  if◌then◌else◌,
}
use cosmwasm.Bytes.{Bytes}
use cosmwasm.BTreeMap.{Record}
use cosmwasm.Storage.{Storage, ascending}
use cosmwasm.Serde.{Serde}
use cosmwasm.Queue.Int32.{ℤ, lt_ℤ, add_i32}

pub record Item : Type 0 where
  pub value : ℤ

pub record ListResponse : Type 0 where
  pub empty : List ℕ
  pub early : List ℕ
  pub late : List ℕ

-- `Iterator::next` of a fresh iterator.
unfoldable pub next : List (Outcome Record) → Outcome (Option Record)
next [] = returns none
next (returns r ∷ rest) = returns (some r)
next (panics ∷ rest) = panics

-- All items of an iterator.
unfoldable pub items : List (Outcome Record) → Outcome (List Record)
items [] = returns []
items (item ∷ rest) = do r ← item; rs ← items rest; returns (r ∷ rs)

-- `key[0]`
unfoldable pub first_byte : Bytes → Outcome ℕ
first_byte [] = panics
first_byte (b ∷ bs) = returns b

abbrev pub first_key : ℕ
first_key = 0

-- The key behind the last one, as a `u8`.
unfoldable pub new_key : Option Record → Outcome ℕ
unfolding first_byte
new_key none = returns first_key
new_key (some (key, _)) = do b ← first_byte key; if ltb (b + 1) 256 then returns (b + 1) else panics

unfoldable pub first_bytes : List Record → Outcome (List ℕ)
unfolding first_byte
first_bytes [] = returns []
first_bytes ((key, _) ∷ rest) = do b ← first_byte key; bs ← first_bytes rest; returns (b ∷ bs)

-- `fold(0, |s, v| s + v.value)`
unfoldable pub sum_from : ℤ → List ℤ → Outcome ℤ
unfolding add_i32
sum_from s [] = returns s
sum_from s (v ∷ vs) = add_i32 s v >>= λ s'. sum_from s' vs

module _ (json : Serde Item) where
  -- `expect("error in item")`
  unfoldable pub parse_item : Bytes → Outcome ℤ
  parse_item v = elim (json.from_slice v) [ ok i ↦ returns i.value | err e ↦ panics ]

  -- The sum of the values of an iterator that exceed `my_val`, beginning at `s`.
  unfoldable pub sum_above : ℤ → ℤ → List (Outcome Record) → Outcome ℤ
  unfolding lt_ℤ add_i32 parse_item
  sum_above my_val s [] = returns s
  sum_above my_val s (item ∷ rest) = do
    r ← item
    v ← parse_item r.1
    s' ← if lt_ℤ my_val v then add_i32 s v else returns s
    sum_above my_val s' rest

-- "large", "larger" and "\x20"
abbrev pub large : Bytes
large = 108 ∷ 97 ∷ 114 ∷ 103 ∷ 101 ∷ []

abbrev pub larger : Bytes
larger = 108 ∷ 97 ∷ 114 ∷ 103 ∷ 101 ∷ 114 ∷ []

abbrev pub space : Bytes
space = 32 ∷ []

module _ {S : Type 0} (ops : Storage S) where
  unfoldable pub query_list : S → Outcome ListResponse
  unfolding items first_bytes
  query_list s = do
    rs ← items (ops.range s (some large) (some larger) ascending)
    empty ← first_bytes rs
    rs' ← items (ops.range s none (some space) ascending)
    early ← first_bytes rs'
    rs'' ← items (ops.range s (some space) none ascending)
    late ← first_bytes rs''
    returns (record { empty = empty; early = early; late = late })
