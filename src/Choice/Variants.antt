-- ===== src/Choice/Variants.antt =====
-- The names that the search for a file tries: with `.html`, and the precompressed variants.
use Prim.Native.String.{◌++◌}
use mathlib.Core.Option
use weave_gate.Common.{
  ℕ, String, ◌≡◌, refl, ◌⊎◌, true, false, Option, none, some, inl, inr, Bool-cases, Option-cases,
}
use weave_gate.Encodings.{ContentCoding, precompressed_variant}
use weave_gate.Encodings.Variant.{precompressed_variant-IsVariant}
use weave_gate.Paths.{push}
use weave_gate.Choice.{
  Disk, HandleOpts, pop, file_name, set_file_name, try_metadata_with_html_suffix, variant_at,
}

-- the path with `.html` behind its name, and the path that the test for it leaves
abbrev pub html_name : String → Option String
html_name path = Option.map (λ name. set_file_name path (name ++ ".html")) (file_name path)

abbrev pub left_path : String → String
left_path path = elim (file_name path) [
  | none ↦ path
  | some name ↦ set_file_name (set_file_name path (name ++ ".html")) name
]

module _ (D : Disk) where
  abbrev pub NoHtml : String → Type 0
  NoHtml path =
      (html_name path ≡ none)
      ⊎ ((html : String) × (html_name path ≡ some html) × (D.metadata html ≡ none))

  pub html-cases :
      (path : String)
      → ((html : String) × (meta : D.Meta) × (try_metadata_with_html_suffix D path
            ≡ (html, some meta))
          × (html_name path ≡ some html)
          × (D.metadata html ≡ some meta))
        ⊎ ((try_metadata_with_html_suffix D path ≡ (left_path path, none)) × NoHtml path)
  unfolding try_metadata_with_html_suffix
  html-cases path = elim (Option-cases (file_name path)) [
    | inl e ↦ inr (rw (try_metadata_with_html_suffix, left_path, e) refl, inl (rw e refl))
    | inr (name, e) ↦
        let html = set_file_name path (name ++ ".html") in
        elim (Option-cases (D.metadata html)) [
          | inr (meta, m) ↦
              inl (html, meta, rw (e, m, try_metadata_with_html_suffix) refl, rw e refl, m)
          | inl m ↦
              inr
                (rw (try_metadata_with_html_suffix, left_path, e, m) refl, inr (html, rw e refl, m))
        ]
  ]

  module _ (parse_quality : String → Option ℕ) (opts : HandleOpts) where
    -- the variant for a path, that the client's codings choose among the files beside it
    abbrev pub chosen : String → Option (String × ContentCoding)
    chosen path =
        precompressed_variant parse_quality (λ p. Option.map D.is_dir (D.metadata p))
          opts.accept_encoding (push (pop path) "") (file_name path)

    abbrev pub IsVariantOf : String → D.Meta → String × ContentCoding → Type 0
    IsVariantOf path meta v =
        (opts.compression_static ≡ true) × (chosen path ≡ some v) × (D.metadata v.0 ≡ some meta)

    abbrev pub NoVariant : String → Type 0
    NoVariant path = (opts.compression_static ≡ false) ⊎ (chosen path ≡ none)

    -- the variant that is given beside a file
    abbrev pub HasVariant : String → Option (String × ContentCoding) → Type 0
    HasVariant path none = NoVariant path
    HasVariant path (some v) = (meta : D.Meta) × IsVariantOf path meta v

    chosen-metadata :
        (path : String) (v : String × ContentCoding)
        → chosen path ≡ some v
        → (meta : D.Meta) × (D.metadata v.0 ≡ some meta)
    chosen-metadata path v h =
        let (_, _, is, _) =
          precompressed_variant-IsVariant parse_quality (λ p. Option.map D.is_dir (D.metadata p))
            (push (pop path) "") (file_name path) opts.accept_encoding v h in
        elim (Option-cases (D.metadata v.0)) [ inr there ↦ there | inl e ↦ cc (rw e at is.there) ]

    variant_at-some :
        (path : String) (meta : D.Meta) (v : String × ContentCoding)
        → IsVariantOf path meta v
        → variant_at D parse_quality opts path ≡ some (meta, v)
    unfolding variant_at
    variant_at-some path meta v (s, e, m) = rw (variant_at, s, e, m) refl

    pub variant_at-cases :
        (path : String)
        → ((meta : D.Meta) × (v : String × ContentCoding) × (variant_at D parse_quality opts path
              ≡ some (meta, v))
            × IsVariantOf path meta v)
          ⊎ ((variant_at D parse_quality opts path ≡ none) × NoVariant path)
    unfolding variant_at
    variant_at-cases path = elim (Bool-cases opts.compression_static) [
      | inr s ↦ inr (rw (s, variant_at) refl, inl s)
      | inl s ↦ elim (Option-cases (chosen path)) [
        | inl e ↦ inr (rw (s, e, variant_at) refl, inr e)
        | inr (v, e) ↦
            let (meta, m) = chosen-metadata path v e in
            inl (meta, v, variant_at-some path meta v (s, e, m), (s, e, m))
      ]
    ]

    pub with_variant-HasVariant :
        (path : String)
        → HasVariant path (Option.map (λ v. v.1) (variant_at D parse_quality opts path))
    with_variant-HasVariant path = elim (variant_at-cases path) [
      | inl (meta, v, e, is) ↦ rw e (meta, is)
      | inr (e, not_there) ↦ rw e not_there
    ]
