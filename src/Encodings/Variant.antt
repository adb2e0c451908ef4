-- ===== src/Encodings/Variant.antt =====
-- The precompressed variant of a file.
use Prim.Native.String.{◌++◌}
use weave_gate.Common.{
  ℕ, String, ◌≡◌, ◌⊎◌, refl, sym, ap, subst, ◌∙◌, Bool, true, false, Option, none, some, List, [],
  ◌∷◌, All, arith, inl, inr, Option-cases,
}
use weave_gate.Common.Pairs.{some_inj}
use weave_gate.Common.Sort.{sort_by, sort_by-IsSorted, All-sort_by, IsSorted, NoneBefore}
use weave_gate.Encodings.{
  ContentCoding, QualityMeta, stands_behind, metas, sorted_metas, comp_ext, variant_path,
  variant_for, first_variant, precompressed_variant,
}
use weave_gate.Encodings.Preferred.{
  coding_of, IsPreferred, behind-IsPreferred, behind_total, behind_trans,
}

module _ (parse_quality : String → Option ℕ) (try_metadata : String → Option Bool) (parent : String)
    (file_name : Option String) where
  -- A file that is there, with the name of the file and the extension for the coding.
  pub record IsVariant (path : String) (coding : ContentCoding) : Type 0 where
    pub name : String
    pub ext : String
    pub named : file_name ≡ some name
    pub extended : comp_ext parse_quality coding ≡ some ext
    pub same_path : path ≡ parent ++ (name ++ ("." ++ ext))
    pub there : try_metadata path ≡ some false

  -- There is no variant for this item, or the other one is preferred to it.
  abbrev pub IsPassed : QualityMeta → QualityMeta → Type 0
  IsPassed m x =
      (variant_for parse_quality try_metadata parent file_name (coding_of x) ≡ none)
      ⊎ IsPreferred m x

  rest-IsPassed :
      (m : QualityMeta) (l : List QualityMeta) → NoneBefore stands_behind m l → All (IsPassed m) l
  rest-IsPassed m [] h = tt
  rest-IsPassed m (x ∷ l) (p, h) = (inr (behind-IsPreferred m x p), rest-IsPassed m l h)

  variant_for-IsVariant :
      (coding : ContentCoding) (v : String × ContentCoding)
      → variant_for parse_quality try_metadata parent file_name coding ≡ some v
      → (v.1 ≡ coding) × IsVariant v.0 v.1
  unfolding variant_for variant_path
  variant_for-IsVariant coding v h = elim (Option-cases (comp_ext parse_quality coding)) [
    | inl e ↦ cc (rw (e, variant_for, variant_path) at h)
    | inr (ext, e) ↦ elim (Option-cases file_name) [
      | inl n ↦ cc (rw (e, n, variant_for, variant_path) at h)
      | inr (name, n) ↦
          let path = parent ++ (name ++ ("." ++ ext)) in
          elim (Option-cases (try_metadata path)) [
            | inl t ↦ cc (rw (e, n, t, variant_for, variant_path) at h)
            | inr (true, t) ↦ cc (rw (e, n, t, variant_for, variant_path) at h)
            | inr (false, t) ↦
                let same : ◌≡◌ {A = String × ContentCoding} (path, coding) v =
                  some_inj (rw (e, n, t, variant_for, variant_path) at h) in
                subst (λ (w : String × ContentCoding). (w.1 ≡ coding) × IsVariant w.0 w.1) same
                  (
                    refl,
                    record {
                      name = name;
                      ext = ext;
                      named = n;
                      extended = e;
                      same_path = refl;
                      there = t;
                    },
                  )
          ]
    ]
  ]

  first_variant-IsPassed :
      (l : List QualityMeta) (v : String × ContentCoding)
      → IsSorted stands_behind l
      → first_variant parse_quality try_metadata parent file_name l ≡ some v
      → (m : QualityMeta) × (coding_of m ≡ v.1) × IsVariant v.0 v.1 × All (IsPassed m) l
  unfolding first_variant
  first_variant-IsPassed [] v s h = cc
  first_variant-IsPassed (x ∷ l) v (none_before, s) h =
      elim (Option-cases (variant_for parse_quality try_metadata parent file_name (coding_of x))) [
        | inr (w, e) ↦
            let same : w ≡ v = some_inj (rw (e, first_variant) at h) in
            let (c, is) = variant_for-IsVariant (coding_of x) v (e ∙ ap some same) in
            (x, sym c, is, (inr (inr (refl, omega arith)), rest-IsPassed x l none_before))
        | inl e ↦
            let (m, c, is, passed) = first_variant-IsPassed l v s (rw (e, first_variant) at h) in
            (m, c, is, (inl e, passed))
      ]

  -- A variant that is served is a file beside the requested one, under its name with the extension
  -- for the coding, and the coding is that of an item of the header to which no other item is
  -- preferred that has a variant.
  pub precompressed_variant-IsVariant :
      (values : List (Option String)) (v : String × ContentCoding)
      → precompressed_variant parse_quality try_metadata values parent file_name ≡ some v
      → (m : QualityMeta) × (coding_of m ≡ v.1)
        × IsVariant v.0 v.1
        × All (IsPassed m) (metas parse_quality values)
  unfolding precompressed_variant sorted_metas
  precompressed_variant-IsVariant [] v h = cc
  precompressed_variant-IsVariant (w ∷ ws) v h =
      let items = metas parse_quality (w ∷ ws) in
      let (m, c, is, passed) =
        first_variant-IsPassed (sort_by stands_behind items) v
          (sort_by-IsSorted stands_behind behind_total behind_trans items) h in
      (m, c, is, All-sort_by stands_behind (IsPassed m) items passed)
