-- ===== src/Base/Outcomes.antt =====
-- What holds of a computation that may panic.
use mathlib.Core.Bool.{Bool, true, false}
use mathlib.Core.Path.{◌≡◌, subst}
use tiny_binary_debugger.Base.Tests.{if◌then◌else◌}
use tiny_binary_debugger.Base.Results.{Outcome, done, ◌>>=◌, >>=-done}

-- The computation does not panic.
abbrev pub IsDone {ℓ} : {A : Type ℓ} → Outcome A → Type ℓ
IsDone {A = A} o = (a : A) × (o ≡ done a)

pub IsDone->>= {ℓ κ} :
    {A : Type ℓ} {B : Type κ} (o : Outcome A) (f : A → Outcome B)
    → IsDone o
    → ((a : A) → o ≡ done a → IsDone (f a))
    → IsDone (o >>= f)
IsDone->>= o f (a, e) next = let (b, p) = next a e in (b, rw e p)

-- What holds of the result, if there is one.
pub record Yields {ℓ κ} {A : Type ℓ} (P : A → Type κ) (o : Outcome A) : Type (ℓ ⊔ κ) where
  pub at : (a : A) → o ≡ done a → P a

pub Yields-done {ℓ κ} : {A : Type ℓ} (P : A → Type κ) (a : A) → P a → Yields P (done a)
Yields-done P a h = record { at = λ b e. let same : a ≡ b = cc in subst P same h }

pub Yields->>= {ℓ κ ι} :
    {A : Type ℓ} {B : Type κ} {P : B → Type ι} (Q : A → Type ι) (o : Outcome A) (f : A → Outcome B)
    → Yields Q o
    → ((a : A) → Q a → Yields P (f a))
    → Yields P (o >>= f)
Yields->>= Q o f first next = record {
  at = λ b e. let (a, p, q) = >>=-done o f e in (next a (first.at a p)).at b q;
}

pub Yields-if {ℓ κ} :
    {A : Type ℓ} {P : A → Type κ} (b : Bool) (x y : Outcome A)
    → Yields P x
    → Yields P y
    → Yields P (if b then x else y)
Yields-if true x y hx hy = hx
Yields-if false x y hx hy = hy

-- Where nothing is asked of the result of a step.
pub Yields-after {ℓ κ ι} :
    {A : Type ℓ} {B : Type κ} {P : B → Type ι} (o : Outcome A) {f : A → Outcome B}
    → ((a : A) → Yields P (f a))
    → Yields P (o >>= f)
Yields-after o next = Yields->>= (λ _. Unit) o _ (record { at = λ a e. tt }) (λ a _. next a)
