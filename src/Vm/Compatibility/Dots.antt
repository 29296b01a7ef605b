-- ===== src/Vm/Compatibility/Dots.antt =====
-- Names of imports, which are split at their one dot.
use Prim.Native.Char.{Char, code}
use Prim.Native.String.{String, ◌++◌}
use text.Mathlib.TextLemmas.{
  nil-append, cons-append, append_cancel_left, head-eq_of_cons-eq, tail-eq_of_cons-eq,
}
use mathlib.Core.Path.{ap₂}
use cosmwasm.Base.{◌≡◌, refl, sym, ap, ◌≢◌, ◌∙◌, ◌↔◌, inl, inr, List, [], ◌∷◌, All, map, arith}
use cosmwasm.Vm.Text.Laws.{In}
use cosmwasm.Vm.StaticAnalysis.{ImportEntry}
use cosmwasm.Vm.Compatibility.{full_import_name}

dot : Char
dot = "."

abbrev pub NoDot : String → Type 0
NoDot String.[] = Unit
NoDot (String.◌∷◌ c s) = (code c ≢ b'.') × NoDot s

dot-append : (s : String) → "." ++ s ≡ String.◌∷◌ dot s
unfolding dot
dot-append s = cons-append "." "" s ∙ ap (λ t. String.◌∷◌ dot t) (nil-append s)

NoDot-append : (s t : String) → NoDot (s ++ "." ++ t) → ⊥
unfolding dot
NoDot-append String.[] t h = (rw (nil-append, dot-append) at h).0 refl
NoDot-append (String.◌∷◌ c s) t h = NoDot-append s t (rw cons-append at h).1

-- A name with one dot is split there.
split_at_dot :
    (a b f g : String) → NoDot b → NoDot g → a ++ "." ++ f ≡ b ++ "." ++ g → (a ≡ b) × (f ≡ g)
unfolding dot
split_at_dot String.[] String.[] f g hb hg h =
    (refl, append_cancel_left "." f g (sym (nil-append ("." ++ f)) ∙ h ∙ nil-append ("." ++ g)))
split_at_dot String.[] (String.◌∷◌ d b) f g hb hg h =
    let p = sym (dot-append f) ∙ sym (nil-append ("." ++ f)) ∙ h ∙ cons-append d b ("." ++ g) in
    absurd (hb.0 (ap code (sym (head-eq_of_cons-eq p))))
split_at_dot (String.◌∷◌ c a) String.[] f g hb hg h =
    let p = sym (cons-append c a ("." ++ f)) ∙ h ∙ nil-append ("." ++ g) ∙ dot-append g in
    absurd (NoDot-append a f (rw (tail-eq_of_cons-eq p) hg))
split_at_dot (String.◌∷◌ c a) (String.◌∷◌ d b) f g hb hg h =
    let p = sym (cons-append c a ("." ++ f)) ∙ h ∙ cons-append d b ("." ++ g) in
    let (q, r) = split_at_dot a b f g hb.1 hg (tail-eq_of_cons-eq p) in
    (ap₂ String.◌∷◌ (head-eq_of_cons-eq p) q, r)

pub In-full_import_name :
    (ie : ImportEntry) (l : List String)
    → All NoDot l
    → In (full_import_name ie) (map (λ f. "env" ++ "." ++ f) l)
      ↔ ((ie.from ≡ "env") × In ie.field l)
unfolding full_import_name
In-full_import_name ie [] h = (λ p. absurd p, λ p. absurd p.1)
In-full_import_name ie (f ∷ fs) h = (
  λ p. elim p [
    | inl q ↦
        let (u, v) = split_at_dot ie.from "env" ie.field f (omega arith) h.0 (sym q) in
        (u, inl (sym v))
    | inr q ↦ let (u, v) = (In-full_import_name ie fs h.1).0 q in (u, inr v)
  ],
  λ p. elim p.1 [
    | inl q ↦ inl (ap₂ (λ a b. a ++ "." ++ b) (sym p.0) q)
    | inr q ↦ inr ((In-full_import_name ie fs h.1).1 (p.0, q))
  ],
)
