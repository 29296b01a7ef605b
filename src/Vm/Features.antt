-- ===== src/Vm/Features.antt =====
-- packages/vm/src/features.rs: the features that a contract asks for by the names of its exports.
pub mod Csv
use Prim.Native.Char.{Char, code}
use Prim.Native.String.{String, len, slice}
use Prim.Native.String
use cosmwasm.Base.{
  Bool, true, false, ◌||◌, ◌&&◌, not, some, List, [], ◌∷◌, map, select, ltb, leb, ◌==◌,
  if◌then◌else◌,
}
use cosmwasm.Vm.Text.{StringSet, collect}
use cosmwasm.Vm.StaticAnalysis.{Module, exported_function_names}

abbrev pub requires_prefix : String
requires_prefix = "requires_"

-- The features that such names stand for; the bare prefix stands for none.
unfoldable pub features_of_names : List String → List String
features_of_names [] = []
features_of_names (name ∷ rest) =
    if ltb (len requires_prefix) (len name)
    then slice name (len requires_prefix) (len name) ∷ features_of_names rest
    else features_of_names rest

unfoldable pub required_features_from_module : Module → StringSet
unfolding collect features_of_names exported_function_names
required_features_from_module m =
    collect (features_of_names (exported_function_names m (some requires_prefix)))

-- `str::is_empty`
abbrev pub is_empty : String → Bool
is_empty String.[] = true
is_empty (String.◌∷◌ c s) = false

-- `char::is_whitespace`
unfoldable pub is_whitespace : Char → Bool
is_whitespace c =
    let n = code c in
    (leb 9 n && leb n 13)
    || n == 32
    || n == 133
    || n == 160
    || n == 5760
    || (leb 8192 n && leb n 8202)
    || n == 8232
    || n == 8233
    || n == 8239
    || n == 8287
    || n == 12288

unfoldable pub trim_start : String → String
unfolding is_whitespace
trim_start String.[] = ""
trim_start (String.◌∷◌ c s) = if is_whitespace c then trim_start s else String.◌∷◌ c s

unfoldable pub trim_end : String → String
unfolding is_whitespace
trim_end String.[] = ""
trim_end (String.◌∷◌ c s) =
    let rest = trim_end s in if is_whitespace c && is_empty rest then "" else String.◌∷◌ c rest

-- `str::trim`
unfoldable pub trim : String → String
unfolding trim_start trim_end
trim s = trim_end (trim_start s)

push_front : Char → List String → List String
push_front c [] = String.◌∷◌ c "" ∷ []
push_front c (s ∷ ss) = String.◌∷◌ c s ∷ ss

-- `csv.split(',')`
unfoldable pub split_commas : String → List String
unfolding push_front
split_commas String.[] = "" ∷ []
split_commas (String.◌∷◌ c s) =
    let rest = split_commas s in if code c == b',' then "" ∷ rest else push_front c rest

unfoldable pub features_from_csv : String → StringSet
unfolding collect trim split_commas
features_from_csv csv = collect (select (λ f. not (is_empty f)) (map trim (split_commas csv)))
