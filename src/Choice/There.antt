-- ===== src/Choice/There.antt =====
-- What the search for the file of a path finds, in terms of what is on the disk.
use mathlib.Core.List.{◌++◌ as ◌+++◌}
use weave_gate.Common.{
  ℕ, String, ◌≡◌, refl, ap, ◌⊎◌, true, false, Option, none, some, List, [], ◌∷◌, inl, inr,
  Bool-cases, Option-cases,
}
use weave_gate.Encodings.{ContentCoding}
use weave_gate.Choice.{
  Disk, FileMetadata, HandleOpts, or_default, last_index, with_variant, directory_metadata,
  absent_metadata, get_composed_file_metadata,
}
use weave_gate.Choice.Variants.{
  html_name, left_path, NoHtml, html-cases, IsVariantOf, NoVariant, HasVariant, variant_at-cases,
  with_variant-HasVariant,
}
use weave_gate.Choice.Indexed.{IsIndexed, search_index-IsIndexed}

-- the configured names, or `index.html` alone
abbrev pub AreNames : List String → List String → Type 0
AreNames [] names = names ≡ "index.html" ∷ []
AreNames (index ∷ more) names = names ≡ index ∷ more

module _ (D : Disk) (parse_quality : String → Option ℕ) (opts : HandleOpts) where
  last_index-split :
      (index : String) (more : List String)
      → (front : List String) × (index ∷ more
          ≡ front +++ (last_index D parse_quality opts (index ∷ more) ∷ []))
  last_index-split index [] = ([], refl)
  last_index-split index (next ∷ more) =
      let (front, e) = last_index-split next more in (index ∷ front, ap (λ l. index ∷ l) e)

  names_split :
      (given : List String)
      → let names = or_default D parse_quality opts given in
        AreNames given names
        × ((front : List String) × (names ≡ front +++ (last_index D parse_quality opts names ∷ [])))
  names_split [] = (refl, ([], refl))
  names_split (index ∷ more) = (refl, last_index-split index more)

  -- What is found for a path.
  pub data IsThere (asked : String) : Option (FileMetadata D) → Type 0 where
    own_file :
        (meta : D.Meta)
        → D.metadata asked ≡ some meta
        → D.is_dir meta ≡ false
        → (w : Option (String × ContentCoding)) → HasVariant D parse_quality opts asked w
        → IsThere asked (
            some (record {
              file_path = asked;
              metadata = meta;
              is_dir = false;
              precompressed_variant = w;
            }))
    directory :
        (meta : D.Meta)
        → D.metadata asked ≡ some meta
        → D.is_dir meta ≡ true
        → (names front : List String) (last : String) → AreNames opts.index_files names
        → names ≡ front +++ (last ∷ [])
        → (found : FileMetadata D) → IsIndexed D parse_quality opts meta last names asked found
        → IsThere asked (some found)
    variant_alone :
        D.metadata asked ≡ none
        → (path : String)
        → (path ≡ asked)
          ⊎ (NoVariant D parse_quality opts asked × NoHtml D asked × (path ≡ left_path asked))
        → (m : D.Meta) (v : String × ContentCoding) → IsVariantOf D parse_quality opts path m v
        → IsThere asked (
            some (record {
              file_path = path;
              metadata = m;
              is_dir = false;
              precompressed_variant = some v;
            }))
    with_html :
        D.metadata asked ≡ none
        → NoVariant D parse_quality opts asked
        → (html : String) → html_name asked ≡ some html
        → (m : D.Meta) → D.metadata html ≡ some m
        → IsThere asked (
            some (record {
              file_path = html;
              metadata = m;
              is_dir = false;
              precompressed_variant = none;
            }))
    missing :
        D.metadata asked ≡ none
        → NoVariant D parse_quality opts asked
        → NoHtml D asked
        → NoVariant D parse_quality opts (left_path asked)
        → IsThere asked none

  absent-IsThere :
      (path : String)
      → D.metadata path ≡ none
      → IsThere path (absent_metadata D parse_quality opts path)
  unfolding absent_metadata
  absent-IsThere path gone = elim (variant_at-cases D parse_quality opts path) [
    | inl (m, v, e, is) ↦ rw (absent_metadata, e) (variant_alone gone path (inl refl) m v is)
    | inr (e, bare) ↦ elim (html-cases D path) [
      | inl (html, m, t, named, there) ↦
          rw (absent_metadata, e, t, t) (with_html gone bare html named m there)
      | inr (t, absent) ↦ elim (variant_at-cases D parse_quality opts (left_path path)) [
        | inl (m, v, l, is) ↦
            rw (absent_metadata, e, t, t, l)
              (variant_alone gone (left_path path) (inr (bare, absent, refl)) m v is)
        | inr (l, none_left) ↦ rw (absent_metadata, e, t, t, l) (missing gone bare absent none_left)
      ]
    ]
  ]

  -- What the search for a path finds, and when it finds nothing. A path that is a file is that file,
  -- with its own metadata, and beside it its precompressed variant, if the client accepts one that is
  -- there. A directory is the first of its index files: the names in their order, each as a variant
  -- alone, as a file, or as the directory's name with `.html`; without any of these it is the last
  -- name, with the metadata of the directory. A path that is not there is a variant alone, or the file
  -- with `.html` behind the name; and nothing is found only where none of these is there.
  pub get_composed_file_metadata-IsThere :
      (path : String) → IsThere path (get_composed_file_metadata D parse_quality opts path)
  unfolding get_composed_file_metadata directory_metadata with_variant
  get_composed_file_metadata-IsThere path = elim (Option-cases (D.metadata path)) [
    | inl m ↦ rw (get_composed_file_metadata, m) (absent-IsThere path m)
    | inr (meta, m) ↦ elim (Bool-cases (D.is_dir meta)) [
      | inr d ↦
          rw (get_composed_file_metadata, m, d)
            (own_file meta m d _ (with_variant-HasVariant D parse_quality opts path))
      | inl d ↦
          let names = or_default D parse_quality opts opts.index_files in
          let (are, (front, split)) = names_split opts.index_files in
          rw (get_composed_file_metadata, m, d)
            (directory meta m d names front _ are split _
              (search_index-IsIndexed D parse_quality opts meta names path path))
    ]
  ]
