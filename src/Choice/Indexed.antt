-- ===== src/Choice/Indexed.antt =====
-- The index file that the search finds for a directory.
use weave_gate.Common.{
  ℕ, String, ◌≡◌, true, false, Option, none, some, List, [], ◌∷◌, inl, inr, Option-cases,
}
use weave_gate.Encodings.{ContentCoding}
use weave_gate.Paths.{push}
use weave_gate.Choice.{
  Disk, FileMetadata, HandleOpts, pop, search_index, or_default, last_index, with_variant,
  directory_found,
}
use weave_gate.Choice.Variants.{
  html_name, left_path, NoHtml, html-cases, IsVariantOf, NoVariant, HasVariant, variant_at-cases,
  with_variant-HasVariant,
}

module _ (D : Disk) (parse_quality : String → Option ℕ) (opts : HandleOpts) where
  -- The index of a directory: the names are tried in their order, each as its variant, as a file, and
  -- at last as the directory's own name with `.html`. Without any, the last name is taken, with the
  -- metadata of the directory.
  pub data IsIndexed (meta : D.Meta) (last : String)
      : List String → String → FileMetadata D → Type 0 where
    index_variant :
        {index : String} {more : List String} {path : String}
        → (m : D.Meta) (v : String × ContentCoding)
        → IsVariantOf D parse_quality opts (push path index) m v
        → IsIndexed meta last (index ∷ more) path (record {
          file_path = push path index;
          metadata = m;
          is_dir = false;
          precompressed_variant = some v;
        })
    index_file :
        {index : String} {more : List String} {path : String}
        → NoVariant D parse_quality opts (push path index)
        → (m : D.Meta) → D.metadata (push path index) ≡ some m
        → (w : Option (String × ContentCoding))
        → HasVariant D parse_quality opts (push path index) w
        → IsIndexed meta last (index ∷ more) path (record {
          file_path = push path index;
          metadata = m;
          is_dir = true;
          precompressed_variant = w;
        })
    index_html :
        {index : String} {more : List String} {path : String}
        → NoVariant D parse_quality opts (push path index)
        → D.metadata (push path index) ≡ none
        → (html : String) → html_name (pop (push path index)) ≡ some html
        → (m : D.Meta) → D.metadata html ≡ some m
        → (w : Option (String × ContentCoding)) → HasVariant D parse_quality opts html w
        → IsIndexed meta last
            (index ∷ more)
            path
            (record { file_path = html; metadata = m; is_dir = true; precompressed_variant = w })
    next_index :
        {index : String} {more : List String} {path : String} {found : FileMetadata D}
        → NoVariant D parse_quality opts (push path index)
        → D.metadata (push path index) ≡ none
        → NoHtml D (pop (push path index))
        → IsIndexed meta last more (left_path (pop (push path index))) found
        → IsIndexed meta last (index ∷ more) path found
    without_index :
        {path : String}
        → (w : Option (String × ContentCoding)) → HasVariant D parse_quality opts (push path last) w
        → IsIndexed meta last [] path (record {
          file_path = push path last;
          metadata = meta;
          is_dir = true;
          precompressed_variant = w;
        })

  pub search_index-IsIndexed :
      (meta : D.Meta) (names : List String) (asked path : String)
      → IsIndexed meta
          (last_index D parse_quality opts (or_default D parse_quality opts opts.index_files))
          names
          path
          (directory_found D parse_quality opts asked meta
            (search_index D parse_quality opts names path))
  unfolding search_index directory_found with_variant
  search_index-IsIndexed meta [] asked path =
      without_index _ (with_variant-HasVariant D parse_quality opts _)
  search_index-IsIndexed meta (index ∷ more) asked path =
      let file = push path index in
      elim (variant_at-cases D parse_quality opts file) [
        | inl (m, v, e, is) ↦ rw (search_index, e) (index_variant m v is)
        | inr (e, bare) ↦ elim (Option-cases (D.metadata file)) [
          | inr (m, n) ↦
              rw (search_index, e, n)
                (index_file bare m n _ (with_variant-HasVariant D parse_quality opts file))
          | inl n ↦ elim (html-cases D (pop file)) [
            | inl (html, m, t, named, there) ↦
                rw (search_index, e, n, t)
                  (index_html bare n html named m there _
                    (with_variant-HasVariant D parse_quality opts html))
            | inr (t, absent) ↦
                rw (search_index, e, n, t)
                  (next_index bare n absent
                    (search_index-IsIndexed meta more asked (left_path (pop file))))
          ]
        ]
      ]
