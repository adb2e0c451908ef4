-- ===== src/Common/Results.antt =====
-- `anyhow::Result`: a value, or an error with its message.
use Prim.Native.String.{String}
use mathlib.Core.Path.{◌≡◌, refl}
use mathlib.Core.Logic.{◌⊎◌, inl, inr}
use mathlib.Core.Bool.{Bool, true, false}
use mathlib.Core.Option.{Option, none, some}
use mathlib.Core.List.{List, [], ◌∷◌}

pub data Result {ℓ} (A : Type ℓ) : Type ℓ where
  ok : A → Result A
  err : String → Result A

-- `?`: an error ends the function, a value goes on
module _ {ℓ κ} {A : Type ℓ} {B : Type κ} where
  infixl 5 ◌>>=◌
  abbrev pub ◌>>=◌ : Result A → (A → Result B) → Result B
  err message >>= next = err message
  ok value >>= next = next value

  -- A sequence succeeds exactly with the value of its first part.
  pub >>=-eq-ok :
      (first : Result A) (next : A → Result B) {last : B}
      → (first >>= next) ≡ ok last
      → (value : A) × (first ≡ ok value) × (next value ≡ ok last)
  >>=-eq-ok (err message) next e = cc
  >>=-eq-ok (ok value) next e = (value, refl, e)

-- a check, and what stands behind it
module _ {κ} {B : Type κ} where
  infixl 5 ◌>>◌
  abbrev pub ◌>>◌ : Result (Unit {0}) → Result B → Result B
  checked >> after = checked >>= λ _. after

-- `if !b { bail!(e) }`
abbrev pub ensure : Bool → String → Result (Unit {0})
ensure holds message = elim holds [ true ↦ ok tt | false ↦ err message ]

pub ensure-eq-ok : (b : Bool) (e : String) {u : Unit {0}} → ensure b e ≡ ok u → b ≡ true
ensure-eq-ok true e h = refl
ensure-eq-ok false e h = cc

module _ {ℓ} {A : Type ℓ} where
  -- `o.ok_or_else(|| e)`, and `with_context` where the library's error is dropped
  abbrev pub ok_or : Option A → String → Result A
  ok_or none e = err e
  ok_or (some a) e = ok a

  pub ok_or-eq-ok : (o : Option A) (e : String) {a : A} → ok_or o e ≡ ok a → o ≡ some a
  ok_or-eq-ok none e h = cc
  ok_or-eq-ok (some b) e h = cc

  -- `with_context`, which puts its message in front
  abbrev pub context : String → Result A → Result A
  context message (ok a) = ok a
  context message (err e) = err message

  pub context-eq-ok :
      (message : String) (r : Result A) {a : A} → context message r ≡ ok a → r ≡ ok a
  context-eq-ok message (ok b) h = h
  context-eq-ok message (err e) h = cc

  pub Result-cases : (r : Result A) → ((e : String) × (r ≡ err e)) ⊎ ((a : A) × (r ≡ ok a))
  Result-cases (err e) = inl (e, refl)
  Result-cases (ok a) = inr (a, refl)

  abbrev pub is_ok : Result A → Bool
  is_ok (ok a) = true
  is_ok (err e) = false

module _ {ℓ κ} {A : Type ℓ} {B : Type κ} where
  -- `xs.iter().map(f).collect::<Result<Vec<_>>>()`: the first error ends it
  abbrev pub traverse : (A → Result B) → List A → Result (List B)
  traverse f [] = ok []
  traverse f (x ∷ xs) = f x >>= λ y. traverse f xs >>= λ ys. ok (y ∷ ys)
