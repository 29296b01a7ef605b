-- ===== src/Base/Call.antt =====
-- A call that returns a `Result` and may panic: the three ways in which it ends, and `?`.
use mathlib.Core.Path.{◌≡◌, refl}
use cosmwasm.Base.Results.{Outcome, returns, panics, Result, ok, err}

pub data Call {ℓ κ} (E : Type κ) (A : Type ℓ) : Type (ℓ ⊔ κ) where
  success : A → Call E A
  failure : E → Call E A
  panic : Call E A

infixl 5 ◌>>=◌ ◌>>◌
abbrev pub ◌>>=◌ {ℓ κ μ} :
    {A : Type ℓ} {B : Type κ} {E : Type μ} → Call E A → (A → Call E B) → Call E B
success a >>= f = f a
failure e >>= f = failure e
panic >>= f = panic

abbrev pub ◌>>◌ {ℓ κ μ} : {A : Type ℓ} {B : Type κ} {E : Type μ} → Call E A → Call E B → Call E B
m >> k = m >>= λ _. k

-- `e?`, with the conversion of the error by `From`.
abbrev pub try_into {ℓ κ μ} :
    {A : Type ℓ} {D : Type κ} {E : Type μ} → (D → E) → Result D A → Call E A
try_into from (ok a) = success a
try_into from (err e) = failure (from e)

abbrev pub try {ℓ κ} : {A : Type ℓ} {E : Type κ} → Result E A → Call E A
try (ok a) = success a
try (err e) = failure e

-- A call that returns no `Result`.
abbrev pub run {ℓ κ} : {A : Type ℓ} {E : Type κ} → Outcome A → Call E A
run (returns a) = success a
run panics = panic

abbrev pub map_failure {ℓ κ μ} :
    {A : Type ℓ} {D : Type κ} {E : Type μ} → (D → E) → Call D A → Call E A
map_failure from (success a) = success a
map_failure from (failure e) = failure (from e)
map_failure from panic = panic

pub eq_of_success {ℓ κ} :
    {A : Type ℓ} {E : Type κ} {a b : A} → Path (Call E A) (success a) (success b) → a ≡ b
eq_of_success h = cc

-- Inversion of a successful bind, and of `?`.
pub eq_of_>>= {ℓ κ μ} :
    {A : Type ℓ} {B : Type κ} {E : Type μ} (m : Call E A) (f : A → Call E B) {b : B}
    → (m >>= f) ≡ success b
    → (a : A) × (m ≡ success a) × (f a ≡ success b)
eq_of_>>= (success a) f h = (a, refl, h)
eq_of_>>= (failure e) f h = cc
eq_of_>>= panic f h = cc

-- The same as an elimination: what follows from each step that succeeded.
pub after {ℓ κ μ ν} :
    {A : Type ℓ} {B : Type κ} {E : Type μ} {P : Type ν} (m : Call E A) (f : A → Call E B) {b : B}
    → (m >>= f) ≡ success b
    → ((a : A) → m ≡ success a → f a ≡ success b → P)
    → P
after (success a) f h k = k a refl h
after (failure e) f h k = cc
after panic f h k = cc

pub eq_of_try {ℓ κ} :
    {A : Type ℓ} {E : Type κ} (r : Result E A) {a : A} → try r ≡ success a → r ≡ ok a
eq_of_try (ok a) h = cc
eq_of_try (err e) h = cc

pub eq_of_run {ℓ κ} :
    {A : Type ℓ} {E : Type κ} (r : Outcome A) {a : A} → run {E = E} r ≡ success a → r ≡ returns a
eq_of_run (returns a) h = cc
eq_of_run panics h = cc

pub eq_of_map_failure {ℓ κ μ} :
    {A : Type ℓ} {D : Type κ} {E : Type μ} (from : D → E) (m : Call D A) {a : A}
    → map_failure from m ≡ success a
    → m ≡ success a
eq_of_map_failure from (success a) h = cc
eq_of_map_failure from (failure e) h = cc
eq_of_map_failure from panic h = cc
