-- ===== src/Listing/Reading.antt =====
-- directory_listing/dir.rs, `read_dir_entries`, and `auto_index`: which items of a directory are
-- listed, and the answer with the page.
pub mod Listed
pub mod Answered
use Prim.Native.String.{◌++◌, len}
use weave_gate.Common.{
  ℕ, String, ◌+◌, Bool, not, ◌&&◌, Option, none, some, List, [], ◌∷◌, ◌==◌, inl, inr, and_then,
  is_some, if◌then◌else◌,
}
use weave_gate.Common.Text.{
  is_empty, starts_with_char, ends_with_char, rsplit_once, trim, parse_uint, decimal,
}
use weave_gate.Http.{Http, Response}
use weave_gate.Paths.{push, components, strip_components}
use weave_gate.Choice.{pop}
use weave_gate.Listing.{
  FileType, directory, file, FileEntry, is_dir, SortingAttr, sort_file_entries, a_directory, a_file,
  a_symlink, another, ItemMeta, Item, not_found, permission_denied, other_error, Volume,
}

pub data DirListFmt : Type 0 where
  html json : DirListFmt

-- `DirListOpts`
pub record DirListOpts : Type 0 where
  pub root_path : String
  pub method : String
  pub current_path : String
  pub uri_query : Option String
  pub dir_listing_order : ℕ
  pub dir_listing_format : DirListFmt
  pub ignore_hidden_files : Bool
  pub disable_symlinks : Bool

-- what the crates make of texts, queries and pages
pub record Renderers : Type 0 where
  pub encode : String → String
  pub query_pairs : String → List (String × String)
  pub lowercase : String → String
  pub render_html : String → ℕ → ℕ → List FileEntry → SortingAttr → String
  pub render_json : List FileEntry → Option String

-- a page, or a status as an error
pub data Page (L : Http) : Type 0 where
  made : Response L → Page L
  failed : ℕ → Page L

-- the type and size of a target
unfoldable pub target_type : ItemMeta → FileType × Option ℕ
target_type meta = elim meta.kind [ a_directory ↦ (directory, none) | _ ↦ (file, some meta.size) ]

-- the first value under `sort`
unfoldable pub find_sort : List (String × String) → Option String
find_sort [] = none
find_sort ((key, value) ∷ pairs) =
    if (key == "sort") && not (is_empty key) then some value else find_sort pairs

module _ (v : Volume) (r : Renderers) (opts : DirListOpts) where
  -- a symbolic link, by what it leads to: in the root, or it is skipped
  unfoldable pub link_type : String → String → Option (FileType × Option ℕ)
  link_type root_path_abs path = and_then (v.canonicalize path) (λ target.
      if is_some (strip_components (components target) (components root_path_abs))
      then and_then (v.symlink_metadata target) (λ meta. some (target_type meta))
      else none)

  unfoldable pub kind_type : String → String → Item → ItemMeta → Option (FileType × Option ℕ)
  kind_type root_path_abs parent item meta = elim meta.kind [
    | a_directory ↦ some (directory, none)
    | a_file ↦ some (file, some meta.size)
    | a_symlink ↦
        if opts.disable_symlinks then none else link_type root_path_abs (push parent item.name)
    | another ↦ none
  ]

  -- the type and size that an item is listed with, `none` where it is skipped
  unfoldable pub item_type : String → String → Item → ItemMeta → Option (FileType × Option ℕ)
  item_type root_path_abs parent item meta =
      if opts.ignore_hidden_files && starts_with_char b'.' item.name
      then none
      else kind_type root_path_abs parent item meta

  -- a link relative to the request's path
  unfoldable pub entry_uri : String → FileType → String
  entry_uri name type_of =
      let encoded = r.encode name in
      let uri : String =
        if not (ends_with_char b'/' opts.current_path) && not (is_empty opts.current_path)
        then elim (rsplit_once b'/' opts.current_path) [
          | none ↦ opts.current_path ++ ("/" ++ encoded)
          | some (_, last) ↦ last ++ ("/" ++ encoded)
        ]
        else encoded in
      elim type_of [ directory ↦ uri ++ "/" | file ↦ uri ]

  unfoldable pub entry_of : String → String → Item → Option FileEntry
  entry_of root_path_abs parent item = and_then item.metadata (λ meta.
      and_then (item_type root_path_abs parent item meta) (λ (t : FileType × Option ℕ).
        some (record {
          name = item.name;
          mtime = meta.modified;
          size = t.1;
          type_of = t.0;
          uri = entry_uri item.name t.0;
        })))

  -- the loop: an item that cannot be read ends it
  unfoldable pub read_entries : String → String → List (Option Item) → Option (List FileEntry)
  read_entries root_path_abs parent [] = some []
  read_entries root_path_abs parent (none ∷ items) = none
  read_entries root_path_abs parent (some item ∷ items) =
      let rest = read_entries root_path_abs parent items in
      elim (entry_of root_path_abs parent item) [
        | none ↦ rest
        | some entry ↦ and_then rest (λ entries. some (entry ∷ entries))
      ]

  -- the two counters of the loop
  unfoldable pub dirs_count : List FileEntry → ℕ
  dirs_count [] = 0
  dirs_count (e ∷ es) = (if is_dir e then 1 else 0) + dirs_count es

  unfoldable pub files_count : List FileEntry → ℕ
  files_count [] = 0
  files_count (e ∷ es) = (if is_dir e then 0 else 1) + files_count es

  -- the order of the query, if it has one
  unfoldable pub order_code : ℕ
  order_code =
      elim (and_then opts.uri_query
        (λ q. and_then (find_sort (r.query_pairs q)) (λ value. parse_uint 256 (trim value)))) [
          | none ↦ opts.dir_listing_order
          | some code ↦ code
        ]

  unfoldable pub content : List FileEntry → Option String
  content entries =
      let (sorted, attrs) = sort_file_entries r.lowercase entries order_code in
      elim opts.dir_listing_format [
        | json ↦ r.render_json sorted
        | html ↦ some (
            r.render_html opts.current_path (dirs_count entries) (files_count entries) sorted attrs)
      ]

  module _ (L : Http) where
    unfoldable pub page_of : String → Response L
    page_of text =
        let mime : String = elim opts.dir_listing_format [
          | json ↦ "application/json"
          | html ↦ "text/html; charset=utf-8"
        ] in
        record {
          status = 200;
          headers =
              L.insert (L.insert L.empty "content-type" (L.from_static mime)) "content-length"
                (L.from_static (decimal (len text)));
          body = if opts.method == "HEAD" then "" else text;
        }

    -- `read_dir_entries`, whose errors are answered by 500
    unfoldable pub read_dir_entries : String → List (Option Item) → Page L
    read_dir_entries parent items =
        elim (and_then (v.canonicalize opts.root_path)
          (λ root_path_abs. and_then (read_entries root_path_abs parent items) content)) [
            | none ↦ failed 500
            | some text ↦ made (page_of text)
          ]

    unfoldable pub auto_index : String → Page L
    auto_index filepath =
        let parent = pop filepath in
        elim (v.read_dir parent) [
          | inr items ↦ read_dir_entries parent items
          | inl not_found ↦ failed 404
          | inl permission_denied ↦ failed 403
          | inl other_error ↦ failed 500
        ]
