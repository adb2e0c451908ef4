-- ===== src/Markdown/Found.antt =====
-- What the Markdown negotiation finds.
use Prim.Native.String.{◌++◌}
use weave_gate.Common.{
  ℕ, String, ◌≡◌, sym, ap, ◌∙◌, true, false, Option, none, some, List, inl, inr, Bool-cases,
  Option-cases,
}
use weave_gate.Common.Pairs.{some_inj}
use weave_gate.Paths.{push}
use weave_gate.Choice.{Disk, file_name, set_file_name}
use weave_gate.Markdown.{
  accepts_markdown, strip_path, try_path, with_suffix, try_markdown_variant, asked_path,
  pre_process,
}

module _ (D : Disk) where
  -- A regular file.
  pub IsFile : String → Type 0
  IsFile path = (meta : D.Meta) × (D.metadata path ≡ some meta) × (D.is_dir meta ≡ false)

  -- A path's name with a suffix.
  pub IsSuffixed : String → String → String → Type 0
  IsSuffixed suffix path md =
      (name : String) × (file_name path ≡ some name) × (md ≡ set_file_name path (name ++ suffix))

  -- No regular file is the path with the suffix.
  pub NoSuffixed : String → String → Type 0
  NoSuffixed suffix path = (md : String) → IsSuffixed suffix path md → IsFile md → ⊥

  -- The first of the three names that is a file.
  pub data IsVariant (path : String) (md : String) : Type 0 where
    beside : IsSuffixed ".md" path md → IsFile md → IsVariant path md
    page : NoSuffixed ".md" path → IsSuffixed ".html.md" path md → IsFile md → IsVariant path md
    index :
        NoSuffixed ".md" path
        → NoSuffixed ".html.md" path
        → md ≡ push path "index.html.md"
        → IsFile md
        → IsVariant path md

  try_path-IsFile : (path md : String) → try_path D path ≡ some md → (md ≡ path) × IsFile md
  unfolding try_path IsFile
  try_path-IsFile path md h = elim (Option-cases (D.metadata path)) [
    | inl e ↦ cc (rw (e, try_path) at h)
    | inr (meta, e) ↦ elim (Bool-cases (D.is_dir meta)) [
      | inl d ↦ cc (rw (e, d, try_path) at h)
      | inr d ↦
          let same : path ≡ md = some_inj (rw (e, d, try_path) at h) in
          (sym same, (meta, rw same at e, d))
    ]
  ]

  with_suffix-some :
      (path suffix md : String)
      → with_suffix D path suffix ≡ some md
      → IsSuffixed suffix path md × IsFile md
  unfolding with_suffix IsSuffixed
  with_suffix-some path suffix md h = elim (Option-cases (file_name path)) [
    | inl e ↦ cc (rw (e, with_suffix) at h)
    | inr (name, e) ↦
        let (same, is) =
          try_path-IsFile (set_file_name path (name ++ suffix)) md (rw (e, with_suffix) at h) in
        ((name, e, same), is)
  ]

  with_suffix-none :
      (path suffix : String) → with_suffix D path suffix ≡ none → NoSuffixed suffix path
  unfolding with_suffix IsSuffixed NoSuffixed IsFile try_path
  with_suffix-none path suffix h md (name, n, same) (meta, m, d) =
      let found : D.metadata (set_file_name path (name ++ suffix)) ≡ some meta = rw same at m in
      some≢none (rw (n, with_suffix, try_path, found, d) at h)
    where
      some≢none : {a : String} → some a ≡ none → ⊥
      some≢none e = cc

  try_markdown_variant-IsVariant :
      (path md : String) → try_markdown_variant D path ≡ some md → IsVariant path md
  unfolding try_markdown_variant
  try_markdown_variant-IsVariant path md h = elim (Option-cases (with_suffix D path ".md")) [
    | inr (m, e) ↦
        let same : m ≡ md = some_inj (rw (e, try_markdown_variant) at h) in
        let (named, is) = with_suffix-some path ".md" md (e ∙ ap some same) in beside named is
    | inl e ↦ elim (Option-cases (with_suffix D path ".html.md")) [
      | inr (m, f) ↦
          let same : m ≡ md = some_inj (rw (e, f, try_markdown_variant) at h) in
          let (named, is) = with_suffix-some path ".html.md" md (f ∙ ap some same) in
          page (with_suffix-none path ".md" e) named is
      | inl f ↦
          let (same, is) =
            try_path-IsFile (push path "index.html.md") md (rw (e, f, try_markdown_variant) at h) in
          index (with_suffix-none path ".md" e) (with_suffix-none path ".html.md" f) same is
    ]
  ]

  -- A Markdown file is served in place of a page only to a client that accepts the type by its name,
  -- and it is the first that is a regular file of: the page's name with `.md`, the page's name with
  -- `.html.md`, and `index.html.md` below it. The new path is the file's, without the base.
  pub pre_process-IsVariant :
      (parse_quality : String → Option ℕ) (accept : List (Option String))
      (base uri_path uri : String)
      → pre_process D parse_quality accept base uri_path ≡ some uri
      → (accepts_markdown parse_quality accept ≡ true)
        × (md : String) × (s : String) × IsVariant (asked_path D base uri_path) md
        × (strip_path md base ≡ some s)
        × (uri ≡ "/" ++ s)
  unfolding pre_process
  pre_process-IsVariant parse_quality accept base uri_path uri h =
      let path = asked_path D base uri_path in
      elim (Bool-cases (accepts_markdown parse_quality accept)) [
        | inr a ↦ cc (rw (a, pre_process) at h)
        | inl a ↦ elim (Option-cases (try_markdown_variant D path)) [
          | inl e ↦ cc (rw (a, e, pre_process) at h)
          | inr (md, e) ↦ elim (Option-cases (strip_path md base)) [
            | inl f ↦ cc (rw (a, e, f, pre_process) at h)
            | inr (s, f) ↦ (
              a,
              md,
              s,
              try_markdown_variant-IsVariant path md e,
              f,
              sym (some_inj (rw (a, e, f, pre_process) at h)),
            )
          ]
        ]
      ]
