-- ===== src/Vm/Compatibility/Demands.antt =====
-- The features that a module requires, read off its exports.
use Prim.Native.Char.{Char}
use Prim.Native.String.{String, ◌++◌, len, slice}
use Prim.Native.String.len
use text.Mathlib.TextLemmas.{cons≢nil, append_cancel_left}
use text.Mathlib.TextEquality.{starts_with_iff}
use text.Mathlib.TextPositions.{len_utf8-pos, starts_with-append, len-append, slice-append_right}
use cosmwasm.Base.{
  ◌<◌, ◌≡◌, refl, sym, ap, ◌≢◌, ◌∙◌, ◌↔◌, inl, inr, true, some, List, [], ◌∷◌, All, ltb, lt→ltb,
  arith,
}
use cosmwasm.Vm.Text.Laws.{In, In-collect}
use cosmwasm.Vm.StaticAnalysis.{Module, exported_function_names}
use cosmwasm.Vm.Features.{features_of_names, required_features_from_module, requires_prefix}
use cosmwasm.Vm.Compatibility.Described.{Exports}
use cosmwasm.Vm.Compatibility.Names.{In-exported}

features_of_names-nil :
    (l : List String) → features_of_names ((requires_prefix ++ "") ∷ l) ≡ features_of_names l
unfolding features_of_names
features_of_names-nil l = refl

len-pos : (c : Char) (s : String) → 0 < len (String.◌∷◌ c s)
len-pos c s = let (k, e) = len_utf8-pos c in rw (len.cons c s, e) (omega arith)

features_of_names-cons :
    (f : String) (l : List String)
    → f ≢ ""
    → features_of_names ((requires_prefix ++ f) ∷ l) ≡ f ∷ features_of_names l
unfolding features_of_names
features_of_names-cons String.[] l h = absurd (h refl)
features_of_names-cons (String.◌∷◌ c s) l h =
    let t = String.◌∷◌ c s in
    let e1 = len-append requires_prefix t in
    let e2 : ltb (len requires_prefix) (len (requires_prefix ++ t)) ≡ true =
      lt→ltb _ _ (omega (arith, e1, len-pos c s)) in
    let e3 : slice (requires_prefix ++ t) (len requires_prefix) (len (requires_prefix ++ t)) ≡ t =
      ap (slice (requires_prefix ++ t) (len requires_prefix)) e1
      ∙ slice-append_right requires_prefix t in
    rw (features_of_names, e2, e3) refl

In-features_of_names :
    (l : List String) (f : String)
    → All (λ name. (g : String) × (requires_prefix ++ g ≡ name)) l
    → In f (features_of_names l) ↔ ((f ≢ "") × In (requires_prefix ++ f) l)
unfolding features_of_names
In-features_of_names [] f h = (λ p. absurd p, λ p. absurd p.1)
In-features_of_names (name ∷ l) f h = go (In-features_of_names l f h.1) h.0.0 h.0.1
  where
    go :
        In f (features_of_names l) ↔ ((f ≢ "") × In (requires_prefix ++ f) l)
        → (g : String) → requires_prefix ++ g ≡ name
        → In f (features_of_names (name ∷ l)) ↔ ((f ≢ "") × In (requires_prefix ++ f) (name ∷ l))
    go ih String.[] e =
        rw (← e, features_of_names-nil l)
          (
            λ p. ((ih.0 p).0, inr (ih.0 p).1),
            λ p. elim p.1 [
              | inl q ↦ absurd (p.0 (sym (append_cancel_left requires_prefix "" f q)))
              | inr q ↦ ih.1 (p.0, q)
            ],
          )
    go ih (String.◌∷◌ c s) e =
        let ne : String.◌∷◌ c s ≢ "" = λ z. cons≢nil z in
        rw (← e, features_of_names-cons (String.◌∷◌ c s) l ne)
          (
            λ p. elim p [
              | inl q ↦ (λ z. ne (q ∙ z), inl (ap (λ t. requires_prefix ++ t) q))
              | inr q ↦ ((ih.0 q).0, inr (ih.0 q).1)
            ],
            λ p. elim p.1 [
              | inl q ↦ inl (append_cancel_left requires_prefix (String.◌∷◌ c s) f q)
              | inr q ↦ inr (ih.1 (p.0, q))
            ],
          )

All-prefixed :
    (m : Module) (l : List String)
    → ((x : String) → In x l → In x (exported_function_names m (some requires_prefix)))
    → All (λ name. (g : String) × (requires_prefix ++ g ≡ name)) l
All-prefixed m [] h = tt
All-prefixed m (x ∷ xs) h = (
  (starts_with_iff x requires_prefix).0
      ((In-exported m (some requires_prefix) x).0 (h x (inl refl))).1,
  All-prefixed m xs (λ y p. h y (inr p)),
)

pub In-required_features :
    (m : Module) (f : String)
    → In f (required_features_from_module m) ↔ ((f ≢ "") × Exports m ("requires_" ++ f))
unfolding required_features_from_module
In-required_features m f =
    let names = exported_function_names m (some requires_prefix) in
    let a = In-collect (features_of_names names) f in
    let b = In-features_of_names names f (All-prefixed m names (λ x p. p)) in
    let c = In-exported m (some requires_prefix) (requires_prefix ++ f) in
    (
      λ h. ((b.0 (a.0 h)).0, (c.0 (b.0 (a.0 h)).1).0),
      λ h. a.1 (b.1 (h.0, c.1 (h.1, starts_with-append requires_prefix f))),
    )
