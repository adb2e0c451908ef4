-- ===== src/Common/Pairs.antt =====
-- Two lists that are related item by item, and what `traverse` relates.
use Prim.Native.Nat.{ℕ, zero, suc}
use mathlib.Core.Path.{◌≡◌, refl, subst}
use mathlib.Core.Option.{some}
use mathlib.Core.List.{List, [], ◌∷◌}
use native.Mathlib.Omega.{arith}
use weave_gate.Common.Lists.{length, get_elem?, All}
use weave_gate.Common.Results.{Result, ok, traverse, >>=-eq-ok}

pub data Pairs {ℓ κ μ} {A : Type ℓ} {B : Type κ} (R : A → B → Type μ)
    : List A → List B → Type (ℓ ⊔ κ ⊔ μ) where
  none_left : Pairs R [] []
  pair :
      {x : A} {y : B} {xs : List A} {ys : List B}
      → R x y
      → Pairs R xs ys
      → Pairs R (x ∷ xs) (y ∷ ys)

pub some_inj {ℓ} : {A : Type ℓ} {a b : A} → some a ≡ some b → a ≡ b
some_inj h = cc

module _ {ℓ κ μ} {A : Type ℓ} {B : Type κ} {R : A → B → Type μ} where
  pub Pairs-length : {xs : List A} {ys : List B} → Pairs R xs ys → length xs ≡ length ys
  Pairs-length none_left = refl
  Pairs-length (pair r rs) = omega (arith, Pairs-length rs)

  -- What stands at an index on the left has its partner there.
  pub Pairs-get :
      {xs : List A} {ys : List B} (i : ℕ) {x : A}
      → Pairs R xs ys
      → get_elem? xs i ≡ some x
      → (y : B) × (get_elem? ys i ≡ some y) × R x y
  Pairs-get i none_left h = cc
  Pairs-get zero (pair {y} r rs) h = (y, refl, subst (λ z. R z y) (some_inj h) r)
  Pairs-get (suc i) (pair r rs) h = Pairs-get i rs h

  pub Pairs-All {ν} :
      {xs : List A} {ys : List B} (P : B → Type ν)
      → ((x : A) (y : B) → R x y → P y)
      → Pairs R xs ys
      → All P ys
  Pairs-All P f none_left = tt
  Pairs-All P f (pair {x} {y} r rs) = (f x y r, Pairs-All P f rs)

pub ok_inj {ℓ} : {A : Type ℓ} {a b : A} → ok a ≡ ok b → a ≡ b
ok_inj h = cc

module _ {ℓ κ μ ν} {A : Type ℓ} {B : Type κ} {R : A → B → Type μ} (S : A → B → Type ν) where
  pub Pairs-weaken :
      {xs : List A} {ys : List B}
      → ((x : A) (y : B) → R x y → S x y)
      → Pairs R xs ys
      → Pairs S xs ys
  Pairs-weaken f none_left = none_left
  Pairs-weaken f (pair {x} {y} r rs) = pair (f x y r) (Pairs-weaken f rs)

module _ {ℓ κ} {A : Type ℓ} {B : Type κ} (f : A → Result B) where
  pub traverse-Pairs :
      (xs : List A) (ys : List B) → traverse f xs ≡ ok ys → Pairs (λ x y. f x ≡ ok y) xs ys
  traverse-Pairs [] ys h = subst (Pairs (λ x y. f x ≡ ok y) []) (ok_inj h) none_left
  traverse-Pairs (x ∷ xs) ys h =
      let (y, e, h') = >>=-eq-ok (f x) _ h in
      let (ys', es, h'') = >>=-eq-ok (traverse f xs) _ h' in
      subst (Pairs (λ x y. f x ≡ ok y) (x ∷ xs)) (ok_inj h'') (pair e (traverse-Pairs xs ys' es))
