-- ===== src/Vm/Features/Csv.antt =====
-- The list of the supported features, written with commas, is read as the set of them.
use Prim.Native.Char.{code}
use Prim.Native.String.{String, ◌++◌}
use text.Mathlib.TextLemmas.{nil-append, cons-append}
use cosmwasm.Base.{
  ◌≡◌, refl, ap, ◌≢◌, ◌∙◌, false, not, List, [], ◌∷◌, All, map, select, ◌==◌, arith,
}
use cosmwasm.Vm.Text.{collect}
use cosmwasm.Vm.Features.{trim, push_front, split_commas, is_empty, features_from_csv}

abbrev pub NoComma : String → Type 0
NoComma String.[] = Unit
NoComma (String.◌∷◌ c s) = (code c ≢ b',') × NoComma s

-- A name of a feature: not empty, with no comma, and with no blanks around it.
abbrev pub IsName : String → Type 0
IsName f = (f ≢ "") × NoComma f × (trim f ≡ f)

unfoldable pub join_commas : List String → String
join_commas [] = ""
join_commas (f ∷ []) = f
join_commas (f ∷ g ∷ fs) = f ++ "," ++ join_commas (g ∷ fs)

split_commas-one : (f : String) → NoComma f → split_commas f ≡ f ∷ []
unfolding split_commas push_front
split_commas-one String.[] h = refl
split_commas-one (String.◌∷◌ c s) (n, h) =
    let e : (code c == b',') ≡ false = ground arith in
    rw (split_commas, e, split_commas-one s h) refl

split_commas-append :
    (f rest : String) → NoComma f → split_commas (f ++ "," ++ rest) ≡ f ∷ split_commas rest
unfolding split_commas push_front
split_commas-append String.[] rest h = ap split_commas (
    nil-append ("," ++ rest)
    ∙ cons-append "," "" rest
    ∙ ap (λ t. String.◌∷◌ "," t) (nil-append rest))
split_commas-append (String.◌∷◌ c s) rest (n, h) =
    let e : (code c == b',') ≡ false = ground arith in
    ap split_commas (cons-append c s ("," ++ rest))
    ∙ rw (split_commas, e, split_commas-append s rest h) refl

split_commas-join :
    (f : String) (fs : List String)
    → All NoComma (f ∷ fs)
    → split_commas (join_commas (f ∷ fs)) ≡ f ∷ fs
unfolding join_commas
split_commas-join f [] h = split_commas-one f h.0
split_commas-join f (g ∷ gs) h =
    split_commas-append f (join_commas (g ∷ gs)) h.0 ∙ ap (λ t. f ∷ t) (split_commas-join g gs h.1)

kept : (l : List String) → All IsName l → select (λ f. not (is_empty f)) (map trim l) ≡ l
kept [] h = refl
kept (String.[] ∷ fs) h = absurd (h.0.0 refl)
kept (String.◌∷◌ c s ∷ fs) h = rw (map, h.0.2) (ap (λ t. String.◌∷◌ c s ∷ t) (kept fs h.1))

No_commas : (l : List String) → All IsName l → All NoComma l
No_commas [] h = tt
No_commas (f ∷ fs) h = (h.0.1, No_commas fs h.1)

-- The names of features, joined by commas, are read by `features_from_csv` as the set of the names,
-- where each is not empty, has no comma and no blanks around it.
pub features_from_csv-join_commas :
    (l : List String) → All IsName l → features_from_csv (join_commas l) ≡ collect l
unfolding features_from_csv join_commas split_commas
features_from_csv-join_commas [] h = refl
features_from_csv-join_commas (f ∷ fs) h =
    rw (features_from_csv, split_commas-join f fs (No_commas (f ∷ fs) h), kept (f ∷ fs) h) refl
