-- ===== src/Common/Sort.antt =====
-- `slice::sort_by`, the standard library's stable sort, as the insertion of each item behind
-- those that do not come after it, and what the library promises of it.
use mathlib.Core.Path.{◌≡◌, refl, ◌∙◌}
use mathlib.Core.Logic.{inl, inr}
use mathlib.Core.Bool.{Bool, true, false}
use mathlib.Core.List.{List, [], ◌∷◌, Perm}
use mathlib.Core.List.Perm
use native.Mathlib.Omega.{arith}
use weave_gate.Common.Lists.{All}
use weave_gate.Common.Tests.{if◌then◌else◌, Bool-cases}

-- the items that pass a test, in their order
abbrev pub keep {ℓ} : {A : Type ℓ} → (A → Bool) → List A → List A
keep p [] = []
keep p (x ∷ xs) = if p x then x ∷ keep p xs else keep p xs

module _ {ℓ} {A : Type ℓ} (after : A → A → Bool) where
  -- `after a b`: the comparison of `a` with `b` is `Greater`
  insert_before : A → List A → List A
  insert_before a [] = a ∷ []
  insert_before a (b ∷ l) =
      let rest = insert_before a l in if after a b then b ∷ rest else a ∷ b ∷ l

  unfoldable pub sort_by : List A → List A
  unfolding insert_before
  sort_by [] = []
  sort_by (a ∷ l) = insert_before a (sort_by l)

  insert_before-perm : (a : A) (l : List A) → Perm (insert_before a l) (a ∷ l)
  unfolding insert_before
  insert_before-perm a [] = Perm.refl _
  insert_before-perm a (b ∷ l) = elim (Bool-cases (after a b)) [
    | inl p ↦ rw p (Perm.trans (Perm.cons b (insert_before-perm a l)) (Perm.swap a b l))
    | inr n ↦ rw n (Perm.refl _)
  ]

  pub sort_by-perm : (l : List A) → Perm (sort_by l) l
  unfolding sort_by
  sort_by-perm [] = Perm.refl _
  sort_by-perm (a ∷ l) =
      Perm.trans (insert_before-perm a (sort_by l)) (Perm.cons a (sort_by-perm l))

  -- What holds of all sorted items holds of all.
  module _ {κ} (P : A → Type κ) where
    All-insert_before : (a : A) (l : List A) → All P (insert_before a l) → P a × All P l
    unfolding insert_before
    All-insert_before a [] h = h
    All-insert_before a (b ∷ l) h = elim (Bool-cases (after a b)) [
      | inl g ↦
          let (p, hs) : P b × All P (insert_before a l) = rw g at h in
          let (q, rest) = All-insert_before a l hs in (q, (p, rest))
      | inr g ↦ rw g at h
    ]

    pub All-sort_by : (l : List A) → All P (sort_by l) → All P l
    unfolding sort_by
    All-sort_by [] h = tt
    All-sort_by (a ∷ l) h =
        let (p, rest) = All-insert_before a (sort_by l) h in (p, All-sort_by l rest)

  -- Items that compare as equal keep their order.
  module _ (p : A → Bool) (same : (a b : A) → p a ≡ true → p b ≡ true → after a b ≡ false) where
    keep-insert_before : (a : A) (l : List A) → keep p (insert_before a l) ≡ keep p (a ∷ l)
    unfolding insert_before
    keep-insert_before a [] = refl
    keep-insert_before a (b ∷ l) = ground (arith, same a b, keep-insert_before a l)

    pub sort_by_stable : (l : List A) → keep p (sort_by l) ≡ keep p l
    unfolding sort_by
    sort_by_stable [] = refl
    sort_by_stable (a ∷ l) = keep-insert_before a (sort_by l) ∙ ground (arith, sort_by_stable l)

  -- Each item is followed by none that should stand before it.
  abbrev pub NoneBefore : A → List A → Type 0
  NoneBefore a [] = Unit
  NoneBefore a (b ∷ l) = (after a b ≡ false) × NoneBefore a l

  abbrev pub IsSorted : List A → Type 0
  IsSorted [] = Unit
  IsSorted (a ∷ l) = NoneBefore a l × IsSorted l

  module _ (total : (a b : A) → after a b ≡ true → after b a ≡ false)
      (trans : (a b c : A) → after a b ≡ false → after b c ≡ false → after a c ≡ false) where
    NoneBefore-weaken : (a b : A) (l : List A) → after a b ≡ false → NoneBefore b l → NoneBefore a l
    NoneBefore-weaken a b [] p h = tt
    NoneBefore-weaken a b (c ∷ l) p (q, h) = (trans a b c p q, NoneBefore-weaken a b l p h)

    NoneBefore-insert :
        (a b : A) (l : List A)
        → after b a ≡ false
        → NoneBefore b l
        → NoneBefore b (insert_before a l)
    unfolding insert_before
    NoneBefore-insert a b [] p h = (p, tt)
    NoneBefore-insert a b (c ∷ l) p (q, h) = elim (Bool-cases (after a c)) [
      | inl g ↦ rw g (q, NoneBefore-insert a b l p h)
      | inr g ↦ rw g (p, (q, h))
    ]

    insert_before-IsSorted : (a : A) (l : List A) → IsSorted l → IsSorted (insert_before a l)
    unfolding insert_before
    insert_before-IsSorted a [] h = (tt, tt)
    insert_before-IsSorted a (b ∷ l) (h, s) = elim (Bool-cases (after a b)) [
      | inl g ↦ rw g (NoneBefore-insert a b l (total a b g) h, insert_before-IsSorted a l s)
      | inr g ↦ rw g ((g, NoneBefore-weaken a b l g h), (h, s))
    ]

    pub sort_by-IsSorted : (l : List A) → IsSorted (sort_by l)
    unfolding sort_by
    sort_by-IsSorted [] = tt
    sort_by-IsSorted (a ∷ l) = insert_before-IsSorted a (sort_by l) (sort_by-IsSorted l)
