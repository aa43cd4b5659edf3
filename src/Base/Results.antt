-- ===== src/Base/Results.antt =====
-- What fallible code returns: Rust's `Result<A, String>`, and a computation that may panic.
use Prim.Native.Nat.{ℕ}
use mathlib.Core.List.{List}
use mathlib.Core.Path.{◌≡◌, refl}

-- `Err` carries the message, a text given by its code points.
pub data Result {ℓ} (A : Type ℓ) : Type ℓ where
  ok : A → Result A
  err : List ℕ → Result A

-- `panicked` is an unwinding panic: an `unwrap`, an index or a slice out of bounds.
pub data Outcome {ℓ} (A : Type ℓ) : Type ℓ where
  done : A → Outcome A
  panicked : Outcome A

infixl 5 ◌>>=◌
abbrev pub ◌>>=◌ {ℓ κ} : {A : Type ℓ} {B : Type κ} → Outcome A → (A → Outcome B) → Outcome B
done a >>= f = f a
panicked >>= f = panicked

-- A computation that is done was done at each of its steps.
pub >>=-done {ℓ κ} :
    {A : Type ℓ} {B : Type κ} (o : Outcome A) (f : A → Outcome B) {b : B}
    → (o >>= f) ≡ done b
    → (a : A) × (o ≡ done a) × (f a ≡ done b)
>>=-done (done a) f h = (a, refl, h)
>>=-done panicked f h = cc

-- `Result::expect`
abbrev pub expect {ℓ} : {A : Type ℓ} → Result A → Outcome A
expect (ok a) = done a
expect (err e) = panicked

-- `Result::map_err`
abbrev pub map_err {ℓ} : {A : Type ℓ} → (List ℕ → List ℕ) → Result A → Result A
map_err f (ok a) = ok a
map_err f (err e) = err (f e)
