-- ===== src/External.antt =====
-- packages/std/src/imports.rs: the contract's side of an iterator, behind the region that the VM
-- wrote. The pointers of the other calls are not here.
use cosmwasm.Base.{Option, none, some, [], ◌∷◌, Outcome, returns, ◌>>=◌}
use cosmwasm.Bytes.{Bytes}
use cosmwasm.BTreeMap.{Record}
use cosmwasm.Sections.{decode_sections2}

-- `if key.len() == 0`
abbrev pub unless_empty : Record → Option Record
unless_empty ([], value) = none
unless_empty (b ∷ key, value) = some (b ∷ key, value)

-- `ExternalIterator::next`, with the bytes of the region that `db_next` gives.
unfoldable pub next : Bytes → Outcome (Option Record)
unfolding decode_sections2
next kv = do pair ← decode_sections2 kv; returns (unless_empty pair)
