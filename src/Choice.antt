-- ===== src/Choice.antt =====
-- static_files.rs, `get_composed_file_metadata`, with fs/meta.rs, on Unix: which file a path names,
-- with its index files, its `.html` suffix and its precompressed variant. A path is its text. `Disk`
-- holds what the file system tells.
pub mod Variants
pub mod Indexed
pub mod There
use Prim.Native.String.{◌++◌}
use mathlib.Core.Option
use mathlib.Core.List.{reverse}
use weave_gate.Common.{
  ℕ, String, Bool, true, false, ◌||◌, Option, none, some, List, [], ◌∷◌, ◌==◌, is_some, and_then,
  if◌then◌else◌,
}
use weave_gate.Common.Text.{split, join, is_empty}
use weave_gate.Paths.{push, AccessOpts}
use weave_gate.Encodings.{ContentCoding, precompressed_variant}

-- the parts of a path from its last one, without the empty ones and the dots before the last name
unfoldable pub drop_blank : List String → List String
drop_blank [] = []
drop_blank (p ∷ []) = p ∷ []
drop_blank (p ∷ (q ∷ ps)) =
    let rest = drop_blank (q ∷ ps) in if is_empty p || p == "." then rest else p ∷ (q ∷ ps)

unfoldable pub last_parts : String → List String
last_parts path = drop_blank (reverse (split b'/' path))

-- the text in front of the last name
unfoldable pub front_text : List String → String
front_text [] = ""
front_text (p ∷ []) = if is_empty p then "/" else p
front_text (p ∷ (q ∷ ps)) = join "/" (reverse (p ∷ (q ∷ ps)))

-- `PathBuf::pop`, which leaves the root and the empty path as they are
unfoldable pub pop : String → String
pop path = elim (last_parts path) [
  | [] ↦ path
  | p ∷ ps ↦ elim ps [
    | [] ↦ if is_empty p then path else ""
    | q ∷ qs ↦ front_text (drop_blank (q ∷ qs))
  ]
]

-- `Path::file_name`
unfoldable pub file_name : String → Option String
file_name path = elim (last_parts path) [
  | [] ↦ none
  | p ∷ ps ↦ if is_empty p || (p == "." || p == "..") then none else some p
]

-- `PathBuf::set_file_name`
unfoldable pub set_file_name : String → String → String
set_file_name path name = if is_some (file_name path) then push (pop path) name else push path name

pub record Disk : Type 1 where
  pub Meta : Type 0
  pub is_dir : Meta → Bool
  pub metadata : String → Option Meta
  pub canonicalize : String → Option String
  pub symlink_metadata : String → Option Bool

pub record FileMetadata (D : Disk) : Type 0 where
  pub file_path : String
  pub metadata : D.Meta
  pub is_dir : Bool
  pub precompressed_variant : Option (String × ContentCoding)

-- the options and the request's path, its query and the values of its `Accept-Encoding`
pub record HandleOpts : Type 0 where
  pub method : String
  pub accept_encoding : List (Option String)
  pub uri_path : String
  pub uri_query : Option String
  pub index_files : List String
  pub dir_listing : Bool
  pub redirect_trailing_slash : Bool
  pub compression_static : Bool
  pub access : AccessOpts

-- what a round of the loop over the index files leaves
pub data Search (D : Disk) : Type 0 where
  variant_found : FileMetadata D → Search D
  index_found : String → D.Meta → Search D
  no_index : String → Search D

module _ (D : Disk) where
  -- `try_metadata_with_html_suffix`: the path that it leaves, and the metadata
  unfoldable pub try_metadata_with_html_suffix : String → String × Option D.Meta
  try_metadata_with_html_suffix path = elim (file_name path) [
    | none ↦ (path, none)
    | some name ↦
        let html = set_file_name path (name ++ ".html") in
        elim (D.metadata html) [
          | some meta ↦ (html, some meta)
          | none ↦ (set_file_name html name, none)
        ]
  ]

  module _ (parse_quality : String → Option ℕ) (opts : HandleOpts) where
    -- `compression_static && let Some(p) = precompressed_variant(..)`, with its metadata
    unfoldable pub variant_at : String → Option (D.Meta × (String × ContentCoding))
    variant_at path =
        if opts.compression_static
        then and_then
            (precompressed_variant parse_quality (λ p. Option.map D.is_dir (D.metadata p))
              opts.accept_encoding (push (pop path) "") (file_name path))
            (λ v. Option.map (λ meta. (meta, v)) (D.metadata v.0))
        else none

    abbrev pub as_variant : String → D.Meta × (String × ContentCoding) → FileMetadata D
    as_variant path (meta, v) = record {
      file_path = path;
      metadata = meta;
      is_dir = false;
      precompressed_variant = some v;
    }

    abbrev pub or_html : Search D → String × Option D.Meta → Search D
    or_html rest (path, none) = rest
    or_html rest (path, some meta) = index_found path meta

    -- the loop over the index files
    unfoldable pub search_index : List String → String → Search D
    search_index [] path = no_index path
    search_index (index ∷ more) path =
        let file = push path index in
        let after = try_metadata_with_html_suffix (pop file) in
        let rest = search_index more after.0 in
        elim (variant_at file) [
          | some v ↦ variant_found (as_variant file v)
          | none ↦ elim (D.metadata file) [
            | some meta ↦ index_found file meta
            | none ↦ or_html rest after
          ]
        ]

    -- `DEFAULT_INDEX_FILES`
    abbrev pub or_default : List String → List String
    or_default [] = "index.html" ∷ []
    or_default (index ∷ more) = index ∷ more

    abbrev pub last_index : List String → String
    last_index [] = ""
    last_index (index ∷ []) = index
    last_index (index ∷ (next ∷ more)) = last_index (next ∷ more)

    -- the end of the branch for a path that is there
    unfoldable pub with_variant : String → D.Meta → Bool → FileMetadata D
    with_variant path meta dir = record {
      file_path = path;
      metadata = meta;
      is_dir = dir;
      precompressed_variant = Option.map (λ v. v.1) (variant_at path);
    }

    unfoldable pub directory_found : String → D.Meta → Search D → FileMetadata D
    directory_found path meta (variant_found found) = found
    directory_found path meta (index_found file file_meta) = with_variant file file_meta true
    directory_found path meta (no_index left) =
        with_variant (push left (last_index (or_default opts.index_files))) meta true

    unfoldable pub directory_metadata : String → D.Meta → FileMetadata D
    directory_metadata path meta =
        directory_found path meta (search_index (or_default opts.index_files) path)

    -- the branch for a path that is not there
    unfoldable pub absent_metadata : String → Option (FileMetadata D)
    absent_metadata path = elim (variant_at path) [
      | some v ↦ some (as_variant path v)
      | none ↦
          let after = try_metadata_with_html_suffix path in
          elim after.1 [
            | some meta ↦ some (record {
              file_path = after.0;
              metadata = meta;
              is_dir = false;
              precompressed_variant = none;
            })
            | none ↦ Option.map (as_variant after.0) (variant_at after.0)
          ]
    ]

    -- `none` stands for 404
    unfoldable pub get_composed_file_metadata : String → Option (FileMetadata D)
    get_composed_file_metadata path = elim (D.metadata path) [
      | none ↦ absent_metadata path
      | some meta ↦
          some
            (if D.is_dir meta then directory_metadata path meta else with_variant path meta false)
    ]
