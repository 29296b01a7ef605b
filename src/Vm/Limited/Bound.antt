-- ===== src/Vm/Limited/Bound.antt =====
-- The limited display against a plain description: all elements where they fit, or else the first
-- few and the number of the others.
use Prim.Native.String.{String, len}
use Prim.Native.String
use text.Mathlib.TextPositions.{len-append}
use text.Mathlib.TextLemmas.{append_assoc, nil-append, append-nil}
use cosmwasm.Base.{
  ℕ, zero, suc, ◌+◌, ◌-◌, ◌^◌, ◌≤◌, ◌<◌, ◌≡◌, refl, sym, ap, ◌∙◌, ◌⊎◌, inl, inr, Bool, true, false,
  List, [], ◌∷◌, ◌++◌, length, take, drop, Bool-cases, Outcome, returns, ltb, leb, ltb→lt, le→leb,
  leb→le, leb→gt, arith, if◌then◌else◌, ◌==◌,
}
use cosmwasm.Vm.Text.{StringSet, to_decimal, truncate}
use cosmwasm.Vm.Text.Laws.{len-to_decimal, truncate-append}
use cosmwasm.Vm.Limited.{
  show_elements, usize_sub, skipped_text, text_for, hide_elements, collection_to_string_limited,
  set_to_string_limited,
}

infixr 6 ◌⊕◌
abbrev pub ◌⊕◌ : String → String → String
s ⊕ t = String.◌++◌ s t

-- What stands for `n` elements that are left out behind the first `k`.
abbrev pub left_out : ℕ → ℕ → String
left_out zero n = "... " ⊕ (to_decimal n ⊕ " elements")
left_out (suc k) n = ", ... " ⊕ (to_decimal n ⊕ " more")

skipped_text_lem : (k n : ℕ) → skipped_text n k ≡ left_out k n
unfolding skipped_text
skipped_text_lem zero n = refl
skipped_text_lem (suc k) n =
    let e : (suc k == 0) ≡ false = ground arith in rw (skipped_text, e) refl

-- An element as it is shown, with a separator in front unless it is the first.
abbrev pub quoted : Bool → String → String
quoted first e = (if first then "\"" else ", \"") ⊕ (e ⊕ "\"")

unfoldable pub joined : Bool → List String → String
joined first [] = ""
joined first (e ∷ es) = quoted first e ⊕ joined false es

abbrev stays_first : Bool → List String → Bool
stays_first first [] = first
stays_first first (e ∷ es) = false

len-three : (a b c : String) → len (a ⊕ (b ⊕ c)) ≡ len a + (len b + len c)
len-three a b c = len-append a (b ⊕ c) ∙ ap (λ n. len a + n) (len-append b c)

joined-append :
    (first : Bool) (l m : List String)
    → joined first (l ++ m) ≡ joined first l ⊕ joined (stays_first first l) m
unfolding joined
joined-append first [] m = sym (nil-append (joined first m))
joined-append first (e ∷ es) m = go (joined-append false es m) (stays es)
  where
    stays : (l : List String) → stays_first false l ≡ false
    stays [] = refl
    stays (x ∷ xs) = refl

    go :
        joined false (es ++ m) ≡ joined false es ⊕ joined (stays_first false es) m
        → stays_first false es ≡ false
        → quoted first e ⊕ joined false (es ++ m)
          ≡ (quoted first e ⊕ joined false es) ⊕ joined false m
    go h k =
        ap (λ t. quoted first e ⊕ t) (rw k at h)
        ∙ sym (append_assoc (quoted first e) (joined false es) (joined false m))

take_nil : (n : ℕ) → Path (List String) (take n []) []
take_nil zero = refl
take_nil (suc n) = refl

take_split : (k d : ℕ) (l : List String) → take (k + d) l ≡ take k l ++ take d (drop k l)
take_split zero d l = ap (λ n. take n l) (omega arith)
take_split (suc k) d [] = take_nil (suc k + d) ∙ sym (take_nil d)
take_split (suc k) d (x ∷ xs) =
    let e : suc k + d ≡ suc (k + d) = omega arith in
    ap (λ n. take n (x ∷ xs)) e ∙ ap (λ t. x ∷ t) (take_split k d xs)

pub take_all : (l : List String) → take (length l) l ≡ l
take_all [] = refl
take_all (x ∷ xs) = ap (λ t. x ∷ t) (take_all xs)

drop-suc :
    (k : ℕ) (l r : List String) (e : String)
    → drop k l ≡ e ∷ r
    → (drop (suc k) l ≡ r) × (k < length l)
drop-suc zero [] r e h = cc
drop-suc zero (x ∷ xs) r e h = (cc, omega arith)
drop-suc (suc k) [] r e h = cc
drop-suc (suc k) (x ∷ xs) r e h = let (p, q) = drop-suc k xs r e h in (p, omega arith)

drop-nil : (k : ℕ) (l : List String) → drop k l ≡ [] → length l ≤ k
drop-nil zero [] h = omega arith
drop-nil zero (x ∷ xs) h = cc
drop-nil (suc k) [] h = omega arith
drop-nil (suc k) (x ∷ xs) h = omega (arith, drop-nil k xs h)

module _ (opening closing : String) (elements : List String) where
  -- The first `k` elements behind the opening.
  abbrev pub first_elements : ℕ → String
  first_elements k = opening ⊕ joined true (take k elements)

  -- What the display is when only `k` elements are shown.
  abbrev pub abbreviated : ℕ → String
  abbreviated k = first_elements k ⊕ (left_out k (length elements - k) ⊕ closing)

  abbrev pub in_full : String
  in_full = first_elements (length elements) ⊕ closing

  first_elements-add :
      (k d : ℕ)
      → first_elements (k + d)
        ≡ first_elements k ⊕ joined (stays_first true (take k elements)) (take d (drop k elements))
  first_elements-add k d =
      rw (take_split k d elements, joined-append)
        (sym (append_assoc opening (joined true (take k elements)) _))

  lengths : ℕ → List ℕ
  lengths zero = []
  lengths (suc k) = len (first_elements k) ∷ lengths k

  length-lengths : (k : ℕ) → length (lengths k) ≡ k
  unfolding lengths
  length-lengths zero = refl
  length-lengths (suc k) = ap suc (length-lengths k)

  stays-suc : (k : ℕ) → k < length elements → stays_first true (take (suc k) elements) ≡ false
  stays-suc k h = go elements h
    where
      go : (l : List String) → k < length l → stays_first true (take (suc k) l) ≡ false
      go [] h = absurd (omega (arith, h))
      go (x ∷ xs) h = refl

  first_elements-suc :
      (k : ℕ) (r : List String) (e : String)
      → drop k elements ≡ e ∷ r
      → first_elements (suc k) ≡ first_elements k ⊕ quoted (stays_first true (take k elements)) e
  unfolding joined
  first_elements-suc k r e h =
      let e1 : suc k ≡ k + 1 = omega arith in
      ap first_elements e1
      ∙ first_elements-add k 1
      ∙ rw h (ap (λ t. first_elements k ⊕ t) (append-nil _))

  module _ (max_length : ℕ) where
    show_elements-stops :
        (e : String) (r : List String) (out : String) (l : List ℕ) (b : Bool)
        → ltb max_length (len (out ⊕ quoted b e)) ≡ true
        → show_elements max_length (e ∷ r) out l b ≡ (out ⊕ quoted b e, len out ∷ l)
    unfolding show_elements
    show_elements-stops e r out l b t = rw (show_elements, t) refl

    show_elements-goes_on :
        (e : String) (r : List String) (out : String) (l : List ℕ) (b : Bool)
        → ltb max_length (len (out ⊕ quoted b e)) ≡ false
        → show_elements max_length (e ∷ r) out l b
          ≡ show_elements max_length r (out ⊕ quoted b e) (len out ∷ l) false
    unfolding show_elements
    show_elements-goes_on e r out l b t = rw (show_elements, t) refl

    -- Where the first loop stops: at the end, or behind the limit.
    Shows : String × List ℕ → Type 0
    Shows r =
        (n : ℕ) × (r ≡ (first_elements n, lengths n))
        × (n ≤ length elements)
        × ((n ≡ length elements) ⊎ (max_length < len (first_elements n)))

    show_elements_lem :
        (rest : List String) (k : ℕ)
        → drop k elements ≡ rest
        → k ≤ length elements
        → Shows (
            show_elements max_length rest
              (first_elements k)
              (lengths k)
              (stays_first true (take k elements)))
    unfolding Shows show_elements lengths
    show_elements_lem [] k h hk = (k, refl, hk, inl (omega (arith, drop-nil k elements h)))
    show_elements_lem (e ∷ r) k h hk =
        let (hr, hlt) = drop-suc k elements r e h in
        let q = first_elements-suc k r e h in
        let b = stays_first true (take k elements) in
        let ih = show_elements_lem r (suc k) hr (omega arith) in
        elim (Bool-cases (ltb max_length (len (first_elements k ⊕ quoted b e)))) [
          | inl t ↦ (
            suc k,
            show_elements-stops e r (first_elements k) (lengths k) b t
                ∙ ap (λ s. (s, len (first_elements k) ∷ lengths k)) (sym q),
            omega arith,
            inr (rw q (ltb→lt _ _ t)),
          )
          | inr f ↦
              rw
                (
                  show_elements-goes_on e r (first_elements k) (lengths k) b f,
                  ← q,
                  ← stays-suc k hlt,
                )
                ih
        ]

    hidden_lem :
        (k : ℕ)
        → k ≤ length elements
        → length elements < 2 ^ 64
        → text_for (length elements) (lengths k) ≡ left_out k (length elements - k)
    hidden_lem k h small =
        let e1 : usize_sub (length elements) k ≡ length elements - k = omega arith in
        let e2 : usize_sub (length elements) (length elements - k) ≡ k = omega arith in
        rw (length-lengths k, e1, e2) (skipped_text_lem k (length elements - k))

    truncate_lem :
        (m k : ℕ)
        → k < m
        → truncate (first_elements m) (len (first_elements k)) ≡ returns (first_elements k)
    truncate_lem m k h =
        let e : m ≡ k + (m - k) = omega arith in
        ap (λ n. truncate (first_elements n) (len (first_elements k))) e
        ∙ ap (λ t. truncate t (len (first_elements k))) (first_elements-add k (m - k))
        ∙ truncate-append (first_elements k) _

    Abbreviates : Outcome String → Type 0
    Abbreviates r =
        (k : ℕ) × (k < length elements)
        × (r ≡ returns (abbreviated k))
        × (len (abbreviated k) ≤ max_length)

    len-left_out : (k : ℕ) → len (left_out k (length elements - k)) ≤ 33
    len-left_out zero = rw len-three (omega (arith, len-to_decimal (length elements - 0)))
    len-left_out (suc k) = rw len-three (omega (arith, len-to_decimal (length elements - suc k)))

    -- Whether the text fits in which only `k` elements are shown.
    abbrev fits : ℕ → Bool
    fits k =
        leb (len (first_elements k) + len (left_out k (length elements - k)) + len closing)
          max_length

    len-abbreviated :
        (k : ℕ)
        → len (abbreviated k)
          ≡ len (first_elements k) + len (left_out k (length elements - k)) + len closing
    len-abbreviated k =
        len-append (first_elements k) _
        ∙ ap (λ n. len (first_elements k) + n)
            (len-append (left_out k (length elements - k)) closing)
        ∙ omega arith

    hides :
        (m : ℕ)
        → m ≤ length elements
        → length elements < 2 ^ 64
        → (k : ℕ) → k < m
        → fits k ≡ true
        → Abbreviates (
            hide_elements (length elements) max_length (first_elements m) closing (lengths (suc k)))
    unfolding Abbreviates lengths hide_elements
    hides m hm small k hk t = (
      k,
      omega arith,
      rw (hide_elements, hidden_lem k (omega arith) small, t, truncate_lem m k hk) refl,
      omega (arith, len-abbreviated k, leb→le _ _ t),
    )

    hides_more :
        (m : ℕ)
        → m ≤ length elements
        → length elements < 2 ^ 64
        → (k : ℕ) → k < m
        → fits k ≡ false
        → hide_elements (length elements) max_length (first_elements m) closing (lengths (suc k))
          ≡ hide_elements (length elements) max_length (first_elements m) closing (lengths k)
    unfolding lengths hide_elements
    hides_more m hm small k hk f = rw (hide_elements, hidden_lem k (omega arith) small, f) refl

    hide_elements_lem :
        (m : ℕ)
        → m ≤ length elements
        → length elements < 2 ^ 64
        → len opening + len closing + 33 ≤ max_length
        → (k : ℕ) → k < m
        → Abbreviates (
            hide_elements (length elements) max_length (first_elements m) closing (lengths (suc k)))
    unfolding Abbreviates lengths joined
    hide_elements_lem m hm small room zero hk =
        hides m hm small 0 hk (le→leb _ _ (rw (len-append, take) (omega (arith, len-left_out 0))))
    hide_elements_lem m hm small room (suc k) hk = elim (Bool-cases (fits (suc k))) [
      | inl t ↦ hides m hm small (suc k) hk t
      | inr f ↦
          rw (hides_more m hm small (suc k) hk f)
            (hide_elements_lem m hm small room k (omega arith))
    ]

    -- What a display of these elements with this limit is: a text within the limit, in full unless
    -- the whole is longer, and otherwise the first elements with the number of the others.
    abbrev pub Displays : Outcome String → Type 0
    Displays r =
        (t : String) × (r ≡ returns t)
        × (len t ≤ max_length)
        × ((t ≡ in_full)
            ⊎ ((max_length < len in_full)
                × ((k : ℕ) × (k < length elements) × (t ≡ abbreviated k))))

    len-first_elements :
        (n : ℕ)
        → n ≤ length elements
        → len (first_elements n) ≤ len (first_elements (length elements))
    len-first_elements n h =
        let e : length elements ≡ n + (length elements - n) = omega arith in
        let p = ap len (ap first_elements e ∙ first_elements-add n (length elements - n)) in
        omega (
          arith,
          p,
          len-append (first_elements n) (
              joined (stays_first true (take n elements))
                (take (length elements - n) (drop n elements))),
        )

    -- The end of the display behind the first loop.
    ending : String → List ℕ → Outcome String
    ending out lengths_stack =
        if leb (len out + len closing) max_length
        then returns (out ⊕ closing)
        else hide_elements (length elements) max_length out closing lengths_stack

    ending_lem :
        (n : ℕ)
        → n ≤ length elements
        → (n ≡ length elements) ⊎ (max_length < len (first_elements n))
        → length elements < 2 ^ 64
        → len opening + len closing + 33 ≤ max_length
        → Displays (ending (first_elements n) (lengths n))
    unfolding ending Abbreviates joined
    ending_lem n hn stop small room =
        elim (Bool-cases (leb (len (first_elements n) + len closing) max_length)) [
          | inl t ↦
              let e : n ≡ length elements = elim stop [
                | inl q ↦ q
                | inr q ↦ omega (arith, leb→le _ _ t)
              ] in
              rw t (
                first_elements n ⊕ closing,
                refl,
                omega (arith, leb→le _ _ t, len-append (first_elements n) closing),
                inl (ap (λ k. first_elements k ⊕ closing) e),
              )
          | inr f ↦ rw f (hidden n hn (leb→gt _ _ f))
        ]
      where
        hidden :
            (n : ℕ)
            → n ≤ length elements
            → max_length < len (first_elements n) + len closing
            → Displays
                (hide_elements (length elements) max_length (first_elements n) closing (lengths n))
        hidden zero hn long = absurd (omega (arith, len-append opening "", room, long))
        hidden (suc n) hn long =
            let (k, hk, e, fit) = hide_elements_lem (suc n) hn small room n (omega arith) in
            (
              abbreviated k,
              e,
              fit,
              inr (
                omega (
                  arith,
                  len-append (first_elements (length elements)) closing,
                  len-first_elements (suc n) hn,
                ),
                (k, hk, refl),
              ),
            )

    pub collection_lem :
        length elements < 2 ^ 64
        → len opening + len closing + 33 ≤ max_length
        → Displays (collection_to_string_limited elements max_length opening closing)
    unfolding collection_to_string_limited Shows lengths joined ending
    collection_lem small room =
        let start : first_elements 0 ≡ opening = append-nil opening in
        let (n, e, hn, stop) = show_elements_lem elements 0 refl (omega arith) in
        let e' : show_elements max_length elements opening [] true ≡ (first_elements n, lengths n) =
          rw start at e in
        rw e' (ending_lem n hn stop small room)

-- The text for a set of less than 2 ^ 64 elements within a limit of 35 or more always comes about, is never longer than the
-- limit, and lists every element unless the whole text would be longer. In that case it lists the
-- first `k` elements, and then says "... n elements" if k is 0 or ", ... n more" if it is not, where n
-- is the number of the others.
pub set_to_string_limited_lem :
    (s : StringSet) (max_length : ℕ)
    → length s < 2 ^ 64
    → 35 ≤ max_length
    → Displays "{" "}" s max_length (set_to_string_limited s max_length)
unfolding set_to_string_limited
set_to_string_limited_lem s max_length small room = collection_lem "{" "}" s max_length small room
