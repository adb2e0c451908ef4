-- ===== src/Common/Text/Laws.antt =====
-- What the walks over a text find.
use Prim.Native.Char.{Char, code}
use Prim.Native.String.{String, [], ◌∷◌, ◌++◌}
use mathlib.Core.Path.{◌≡◌, refl, ap, ap₂, ◌∙◌, sym}
use mathlib.Core.Logic.{inl, inr}
use mathlib.Core.Bool.{true}
use mathlib.Core.Option.{some}
use native.Mathlib.Omega.{arith}
use text.Mathlib.TextEquality.{Char-path}
use text.Mathlib.TextLemmas.{nil-append, cons-append}
use weave_gate.Common.Tests.{eqb, eqb_eq, Bool-cases, Option-cases}
use weave_gate.Common.Text.{strip_prefix, contains, is_empty}

eqb_self : (n : _) → eqb n n ≡ true
eqb_self n = ground arith

pub strip_prefix-eq-some : (s p r : String) → strip_prefix s p ≡ some r → s ≡ p ++ r
unfolding strip_prefix
strip_prefix-eq-some s [] r h = rw nil-append (ground arith)
strip_prefix-eq-some [] (c ∷ p) r h = cc
strip_prefix-eq-some (d ∷ s) (c ∷ p) r h = elim (Bool-cases (eqb (code d) (code c))) [
  | inl e ↦
      rw cons-append
        (ap₂ ◌∷◌ (Char-path d c (eqb_eq _ _ e)) (strip_prefix-eq-some s p r (rw e at h)))
  | inr e ↦ cc (rw e at h)
]

pub strip_prefix-append : (p r : String) → strip_prefix (p ++ r) p ≡ some r
unfolding strip_prefix
strip_prefix-append [] r = rw nil-append refl
strip_prefix-append (c ∷ p) r = rw (cons-append, eqb_self (code c)) (strip_prefix-append p r)

is_empty-eq : (p : String) → is_empty p ≡ true → p ≡ []
is_empty-eq [] h = refl
is_empty-eq (c ∷ p) h = cc

-- `contains` finds the pattern at some place.
pub contains_sound :
    (s p : String) → contains s p ≡ true → (a : String) × (b : String) × (s ≡ a ++ (p ++ b))
unfolding contains
contains_sound [] p h = ([], [], rw (is_empty-eq p h) (rw (nil-append, nil-append) refl))
contains_sound (c ∷ s) p h = elim (Option-cases (strip_prefix (c ∷ s) p)) [
  | inr (r, e) ↦ ([], r, strip_prefix-eq-some (c ∷ s) p r e ∙ sym (nil-append _))
  | inl e ↦
      let (a, b, f) = contains_sound s p (rw (e, contains) at h) in
      (c ∷ a, b, ap (◌∷◌ c) f ∙ sym (cons-append c a _))
]

contains_of_prefix : (s p r : String) → strip_prefix s p ≡ some r → contains s p ≡ true
unfolding contains
contains_of_prefix [] [] r h = refl
contains_of_prefix [] (c ∷ p) r h = unfold strip_prefix in cc h
contains_of_prefix (c ∷ s) p r h = rw (h, contains) refl

contains-cons : (c : Char) (s p : String) → contains s p ≡ true → contains (c ∷ s) p ≡ true
unfolding contains
contains-cons c s p h = elim (Option-cases (strip_prefix (c ∷ s) p)) [
  | inr (r, e) ↦ rw (e, contains) refl
  | inl e ↦ rw (e, contains) h
]

-- ... and misses none.
pub contains-append : (a p b : String) → contains (a ++ (p ++ b)) p ≡ true
contains-append [] p b = rw nil-append (contains_of_prefix (p ++ b) p b (strip_prefix-append p b))
contains-append (c ∷ a) p b = rw cons-append (contains-cons c _ p (contains-append a p b))
