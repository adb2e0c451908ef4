-- ===== src/Encodings/Preferred.antt =====
-- The preferred coding.
use weave_gate.Common.{
  ℕ, String, ◌≡◌, ◌⊎◌, ◌≤◌, ◌<◌, refl, true, false, Option, some, List, [], ◌∷◌, All, arith, inl,
  inr, Bool-cases,
}
use weave_gate.Common.Pairs.{some_inj}
use weave_gate.Common.Sort.{sort_by, sort_by-IsSorted, All-sort_by, IsSorted, NoneBefore}
use weave_gate.Encodings.{
  ContentCoding, QualityMeta, coding_from, priority, is_available, stands_behind, metas,
  sorted_metas, first_available, get_preferred_encoding,
}

abbrev pub coding_of : QualityMeta → ContentCoding
coding_of m = coding_from m.data_text

-- `m` has the higher quality, or the same one and at least the priority.
abbrev pub IsPreferred : QualityMeta → QualityMeta → Type 0
IsPreferred m x =
    (x.quality < m.quality)
    ⊎ ((x.quality ≡ m.quality) × (priority (coding_of x) ≤ priority (coding_of m)))

pub behind-IsPreferred : (m x : QualityMeta) → stands_behind m x ≡ false → IsPreferred m x
behind-IsPreferred m x h = ground arith

pub behind_total : (a b : QualityMeta) → stands_behind a b ≡ true → stands_behind b a ≡ false
behind_total a b h = ground arith

pub behind_trans :
    (a b c : QualityMeta)
    → stands_behind a b ≡ false
    → stands_behind b c ≡ false
    → stands_behind a c ≡ false
behind_trans a b c h k = ground arith

-- An item is preferred to this one, or this one has no available coding.
abbrev pub IsBeaten : QualityMeta → QualityMeta → Type 0
IsBeaten m x = (is_available (coding_of x) ≡ false) ⊎ IsPreferred m x

rest-IsBeaten :
    (m : QualityMeta) (l : List QualityMeta) → NoneBefore stands_behind m l → All (IsBeaten m) l
rest-IsBeaten m [] h = tt
rest-IsBeaten m (x ∷ l) (p, h) = (inr (behind-IsPreferred m x p), rest-IsBeaten m l h)

module _ (parse_quality : String → Option ℕ) where
  first_available-IsBeaten :
      (l : List QualityMeta) (c : ContentCoding)
      → IsSorted stands_behind l
      → first_available parse_quality l ≡ some c
      → (m : QualityMeta) × (coding_of m ≡ c) × (is_available c ≡ true) × All (IsBeaten m) l
  unfolding first_available
  first_available-IsBeaten [] c s h = cc
  first_available-IsBeaten (x ∷ l) c (none_before, s) h =
      elim (Bool-cases (is_available (coding_of x))) [
        | inl e ↦
            let same : coding_of x ≡ c = some_inj (rw (e, first_available) at h) in
            (x, same, rw (← same) e, (inr (inr (refl, omega arith)), rest-IsBeaten x l none_before))
        | inr e ↦
            let (m, same, av, beaten) =
              first_available-IsBeaten l c s (rw (e, first_available) at h) in
            (m, same, av, (inl e, beaten))
      ]

  -- The preferred coding is one that the gateway has, and it stands in an item of the header that
  -- no other item with such a coding exceeds: in quality, or else in priority.
  pub get_preferred_encoding-IsBeaten :
      (values : List (Option String)) (c : ContentCoding)
      → get_preferred_encoding parse_quality values ≡ some c
      → (m : QualityMeta) × (coding_of m ≡ c)
        × (is_available c ≡ true)
        × All (IsBeaten m) (metas parse_quality values)
  unfolding get_preferred_encoding sorted_metas
  get_preferred_encoding-IsBeaten [] c h = cc
  get_preferred_encoding-IsBeaten (v ∷ vs) c h =
      let items = metas parse_quality (v ∷ vs) in
      let (m, same, av, beaten) =
        first_available-IsBeaten (sort_by stands_behind items) c
          (sort_by-IsSorted stands_behind behind_total behind_trans items) h in
      (m, same, av, All-sort_by stands_behind (IsBeaten m) items beaten)
