-- ===== src/Listing.antt =====
-- directory_listing: the entries of a directory's listing, their order, and the answer with the
-- page. The file system gives the items of a directory, `none` for one that cannot be read;
-- `encode` stands for the percent-encoding, `query_pairs` for the parser of a query, `lowercase` for
-- `str::to_lowercase`, and `render_html` and `render_json` for the two pages (maud and serde_json).
-- A time is a number, and so is the size of a file.
pub mod Order
pub mod Download
pub mod Reading
pub mod Tests
use Prim.Native.Char.{code}
use mathlib.Core.List.{reverse}
use mathlib.Core.Option
use weave_gate.Common.{
  ℕ, String, Bool, true, false, Option, none, some, List, [], ◌∷◌, ◌⊎◌, ltb, eqb, if◌then◌else◌,
}
use weave_gate.Common.Sort.{sort_by}

pub data FileType : Type 0 where
  directory file : FileType

pub record FileEntry : Type 0 where
  pub name : String
  pub mtime : Option ℕ
  pub size : Option ℕ
  pub type_of : FileType
  pub uri : String

abbrev pub is_dir : FileEntry → Bool
is_dir e = elim e.type_of [ directory ↦ true | file ↦ false ]

-- sort.rs, `SortingAttr`: the order that each column's link asks for
pub record SortingAttr : Type 0 where
  pub name : String
  pub last_modified : String
  pub size : String

-- the order of texts, by their bytes
unfoldable pub text_after : String → String → Bool
text_after String.[] t = false
text_after (String.◌∷◌ c s) String.[] = true
text_after (String.◌∷◌ c s) (String.◌∷◌ d t) =
    let rest = text_after s t in
    if ltb (code d) (code c) then true else if ltb (code c) (code d) then false else rest

-- the order of `Option`: a missing value comes first
abbrev pub option_after : Option ℕ → Option ℕ → Bool
option_after none b = false
option_after (some m) none = true
option_after (some m) (some n) = ltb n m

-- what an order code asks for
pub data Column : Type 0 where
  by_name by_mtime by_size : Column

abbrev pub column_of : ℕ → Option (Column × Bool)
column_of code =
    if eqb code 0
    then some (by_name, false)
    else if eqb code 1
    then some (by_name, true)
    else if eqb code 2
    then some (by_mtime, false)
    else if eqb code 3
    then some (by_mtime, true)
    else if eqb code 4
    then some (by_size, false)
    else if eqb code 5
    then some (by_size, true)
    else none

abbrev pub entry_after : (String → String) → Column → FileEntry → FileEntry → Bool
entry_after lowercase by_name a b = text_after (lowercase a.name) (lowercase b.name)
entry_after lowercase by_mtime a b = option_after a.mtime b.mtime
entry_after lowercase by_size a b = option_after a.size b.size

-- the links: the column that is sorted asks for the other direction
abbrev pub sorting_attr : Option (Column × Bool) → SortingAttr
sorting_attr (some (by_name, false)) = record { name = "1"; last_modified = "2"; size = "4" }
sorting_attr (some (by_mtime, false)) = record { name = "0"; last_modified = "3"; size = "4" }
sorting_attr (some (by_size, false)) = record { name = "0"; last_modified = "2"; size = "5" }
sorting_attr _ = record { name = "0"; last_modified = "2"; size = "4" }

abbrev pub sorted_entries :
    (String → String) → Option (Column × Bool) → List FileEntry → List FileEntry
sorted_entries lowercase none files = files
sorted_entries lowercase (some (column, false)) files = sort_by (entry_after lowercase column) files
sorted_entries lowercase (some (column, true)) files =
    reverse (sort_by (entry_after lowercase column) files)

-- sort.rs, `sort_file_entries`: the sorted entries and the links
unfoldable pub sort_file_entries :
    (String → String) → List FileEntry → ℕ → List FileEntry × SortingAttr
sort_file_entries lowercase files order_code =
    let column = column_of order_code in
    (sorted_entries lowercase column files, sorting_attr column)

-- what the metadata of an item tell
pub data Kind : Type 0 where
  a_directory a_file a_symlink another : Kind

pub record ItemMeta : Type 0 where
  pub kind : Kind
  pub size : ℕ
  pub modified : Option ℕ

-- an item of a directory, with its metadata, `none` where these cannot be read
pub record Item : Type 0 where
  pub name : String
  pub metadata : Option ItemMeta

pub data ReadError : Type 0 where
  not_found permission_denied other_error : ReadError

pub record Volume : Type 0 where
  pub read_dir : String → ReadError ⊎ List (Option Item)
  pub canonicalize : String → Option String
  pub symlink_metadata : String → Option ItemMeta
