-- ===== src/Vm/Compatibility/Names.antt =====
-- Which names the exported functions of a module have.
use Prim.Native.String.{String}
use cosmwasm.Base.{
  ◌≡◌, refl, sym, ap, ◌∙◌, ◌↔◌, inl, inr, Bool, true, false, Option, List, [], ◌∷◌, Any, select,
  arith,
}
use cosmwasm.Vm.Text.Laws.{In, In-collect}
use cosmwasm.Vm.StaticAnalysis.{
  function, ExportEntry, Module, entries, function_names, has_prefix, exported_function_names,
}
use cosmwasm.Vm.Compatibility.Described.{Exports}

In-select :
    (p : String → Bool) (l : List String) (x : String) → In x (select p l) ↔ (In x l × (p x ≡ true))
In-select p [] x = (λ h. absurd h, λ h. absurd h.0)
In-select p (y ∷ ys) x = go (In-select p ys x) (p y) refl
  where
    go :
        In x (select p ys) ↔ (In x ys × (p x ≡ true))
        → (b : Bool) → p y ≡ b
        → In x (select p (y ∷ ys)) ↔ (In x (y ∷ ys) × (p x ≡ true))
    go ih true e =
        rw (select, e)
          (
            λ h. elim h [ inl q ↦ (inl q, rw q at e) | inr q ↦ (inr (ih.0 q).0, (ih.0 q).1) ],
            λ h. elim h.0 [ inl q ↦ inl q | inr q ↦ inr (ih.1 (q, h.1)) ],
          )
    go ih false e =
        rw (select, e)
          (
            λ h. (inr (ih.0 h).0, (ih.0 h).1),
            λ h. elim h.0 [
              | inl q ↦ let c : Path Bool true false = sym h.1 ∙ ap p (sym q) ∙ e in cc
              | inr q ↦ ih.1 (q, h.1)
            ],
          )

In-function_names :
    (l : List ExportEntry) (x : String)
    → In x (function_names l) ↔ Any (λ (e : ExportEntry). (e.field ≡ x) × (e.internal ≡ function)) l
unfolding function_names
In-function_names [] x = (λ h. h, λ h. h)
In-function_names (e ∷ es) x = ground (arith, In-function_names es x)

-- The names of the functions with a prefix, before they are made a set.
abbrev pub selected_names : Module → Option String → List String
selected_names m prefix = select (has_prefix prefix) (function_names (entries m.export_section))

pub In-selected :
    (m : Module) (prefix : Option String) (x : String)
    → In x (selected_names m prefix) ↔ (Exports m x × (has_prefix prefix x ≡ true))
In-selected m prefix x =
    let l = function_names (entries m.export_section) in
    let b = In-select (has_prefix prefix) l x in
    let c = In-function_names (entries m.export_section) x in
    (λ h. (c.0 (b.0 h).0, (b.0 h).1), λ h. b.1 (c.1 h.0, h.1))

pub In-exported :
    (m : Module) (prefix : Option String) (x : String)
    → In x (exported_function_names m prefix) ↔ (Exports m x × (has_prefix prefix x ≡ true))
unfolding exported_function_names
In-exported m prefix x =
    let a = In-collect (selected_names m prefix) x in
    let b = In-selected m prefix x in (λ h. b.0 (a.0 h), λ h. a.1 (b.1 h))
