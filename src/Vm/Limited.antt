-- ===== src/Vm/Limited.antt =====
-- packages/vm/src/limited.rs: the display of a collection in a text of limited length.
pub mod Bound
use Prim.Native.String.{String, ◌++◌, len}
use cosmwasm.Base.{
  ℕ, ◌+◌, ◌-◌, ◌%◌, ◌^◌, Bool, true, false, List, [], ◌∷◌, length, Outcome, returns, panics,
  map_outcome, ltb, leb, ◌==◌, if◌then◌else◌,
}
use cosmwasm.Vm.Text.{StringSet, to_decimal, truncate}

-- The first loop of `collection_to_string_limited`: the text so far, and the lengths before each
-- element, the last one first.
unfoldable pub show_elements : ℕ → List String → String → List ℕ → Bool → String × List ℕ
show_elements max_length [] out lengths_stack first = (out, lengths_stack)
show_elements max_length (element ∷ rest) out lengths_stack first =
    let shown = out ++ (if first then "\"" else ", \"") ++ element ++ "\"" in
    elim (ltb max_length (len shown)) [
      | true ↦ (shown, len out ∷ lengths_stack)
      | false ↦ show_elements max_length rest shown (len out ∷ lengths_stack) false
    ]

-- `a - b` on a `usize`, which wraps around.
abbrev pub usize_sub : ℕ → ℕ → ℕ
usize_sub a b = (a + 2 ^ 64 - b) % 2 ^ 64

unfoldable pub skipped_text : ℕ → ℕ → String
skipped_text skipped remaining =
    if remaining == 0
    then "... " ++ to_decimal skipped ++ " elements"
    else ", ... " ++ to_decimal skipped ++ " more"

-- What stands for the elements that are hidden when the stack has these lengths left.
abbrev pub text_for : ℕ → List ℕ → String
text_for elements_count lengths_stack =
    let skipped = usize_sub elements_count (length lengths_stack) in
    skipped_text skipped (usize_sub elements_count skipped)

-- The second loop, which hides one more element in each round.
unfoldable pub hide_elements : ℕ → ℕ → String → String → List ℕ → Outcome String
unfolding truncate
hide_elements elements_count max_length out closing [] = panics
hide_elements elements_count max_length out closing (previous_length ∷ lengths_stack) =
    let hidden = text_for elements_count lengths_stack in
    if leb (previous_length + len hidden + len closing) max_length
    then map_outcome (λ shown. shown ++ hidden ++ closing) (truncate out previous_length)
    else hide_elements elements_count max_length out closing lengths_stack

unfoldable pub collection_to_string_limited : List String → ℕ → String → String → Outcome String
unfolding show_elements hide_elements
collection_to_string_limited elements max_length opening closing =
    let (out, lengths_stack) = show_elements max_length elements opening [] true in
    if leb (len out + len closing) max_length
    then returns (out ++ closing)
    else hide_elements (length elements) max_length out closing lengths_stack

-- `to_string_limited` of a set, and of a vector.
unfoldable pub set_to_string_limited : StringSet → ℕ → Outcome String
unfolding collection_to_string_limited
set_to_string_limited s max_length = collection_to_string_limited s max_length "{" "}"

unfoldable pub vec_to_string_limited : List String → ℕ → Outcome String
unfolding collection_to_string_limited
vec_to_string_limited v max_length = collection_to_string_limited v max_length "[" "]"
