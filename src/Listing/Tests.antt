-- ===== src/Listing/Tests.antt =====
-- Runs of the directory listing.
use Prim.Native.String.{◌++◌}
use weave_gate.Common.{
  ℕ, String, ◌≡◌, refl, true, false, none, some, List, [], ◌∷◌, ◌==◌, inl, inr, if◌then◌else◌,
}
use mathlib.Core.List.{reverse, Perm}
use weave_gate.Common.{◌<◌}
use weave_gate.Common.Text.{parse_uint}
use weave_gate.Http.{Response}
use weave_gate.Http.Assoc.{assoc, drop_name}
use weave_gate.Choice.{pop, front_text, drop_blank, last_parts}
use weave_gate.Listing.{
  FileEntry, file, by_name, sort_file_entries, a_directory, a_file, a_symlink, ItemMeta, Item,
  not_found, Volume, text_after,
}
use weave_gate.Listing.Order.{
  InOrder, Precedes, sort_file_entries_lem, ascending, descending, sorted, links, link,
}
use weave_gate.Listing.Reading.{
  DirListOpts, Renderers, html, made, auto_index, read_dir_entries, page_of, read_entries, content,
  dirs_count, item_type, entry_of, files_count, target_type, find_sort, kind_type, link_type,
  entry_uri, order_code,
}
use weave_gate.Listing.Reading.Answered.{IsListing, auto_index-IsListing}
use weave_gate.Common.Text.{
  rsplit_once, decimal_digits, trim_start, trim_end, split, parse_uint, trim, strip_prefix, decimal,
  join,
}
use weave_gate.Paths.{push, part_component, components, strip_components}
use weave_gate.Common.Sort.{sort_by}

abbrev dir_meta : ItemMeta
dir_meta = record { kind = a_directory; size = 4096; modified = some 7 }

abbrev file_meta : ItemMeta
file_meta = record { kind = a_file; size = 12; modified = some 9 }

abbrev link_meta : ItemMeta
link_meta = record { kind = a_symlink; size = 3; modified = none }

abbrev item : String → ItemMeta → Item
item name meta = record { name = name; metadata = some meta }

-- two links, of which one leads out of the root
abbrev pub volume : Volume
volume = record {
  read_dir = λ path.
      if path == "/srv/docs"
      then inr (
          some (item "b.txt" file_meta)
          ∷ some (item ".git" dir_meta)
          ∷ some (item "A" dir_meta)
          ∷ some (item "in" link_meta)
          ∷ some (item "out" link_meta)
          ∷ [])
      else inl not_found;
  canonicalize = λ path.
      if path == "/srv/docs/in"
      then some "/srv/data"
      else if path == "/srv/docs/out"
      then some "/etc"
      else some path;
  symlink_metadata = λ path. some file_meta;
}

abbrev names : List FileEntry → String
names [] = ""
names (e ∷ es) = e.uri ++ (" " ++ names es)

abbrev pub plain : Renderers
plain = record {
  encode = λ s. s;
  query_pairs = λ s. [];
  lowercase = λ s. if s == "A" then "a" else s;
  render_html = λ base dirs files entries attrs. names entries;
  render_json = λ entries. none;
}

abbrev opts : DirListOpts
opts = record {
  root_path = "/srv";
  method = "GET";
  current_path = "/docs/";
  uri_query = none;
  dir_listing_order = 1;
  dir_listing_format = html;
  ignore_hidden_files = true;
  disable_symlinks = false;
}

abbrev page : Response assoc
page = record {
  status = 200;
  headers = ("content-length", "12") ∷ ("content-type", "text/html; charset=utf-8") ∷ [];
  body = "in b.txt A/ ";
}

docs_listed : auto_index volume plain opts assoc "/srv/docs/index.html" ≡ made page
unfolding auto_index pop last_parts drop_blank split front_text join read_dir_entries read_entries
    entry_of item_type kind_type link_type push strip_components components content page_of sort_by
    decimal decimal_digits parse_uint rsplit_once strip_prefix trim trim_end trim_start dirs_count
    entry_uri files_count find_sort order_code target_type sort_file_entries text_after
    part_component drop_name
docs_listed = refl

auto_index-IsListing_example : IsListing volume plain opts assoc (pop "/srv/docs/index.html") page
auto_index-IsListing_example =
    auto_index-IsListing volume plain opts assoc "/srv/docs/index.html" page docs_listed

abbrev entry : String → FileEntry
entry name = record { name = name; mtime = none; size = some 3; type_of = file; uri = name }

abbrev three : List FileEntry
three = entry "b" ∷ entry "ca" ∷ entry "c" ∷ []

by_name_down : (sort_file_entries (λ s. s) three 1).0 ≡ entry "ca" ∷ entry "c" ∷ entry "b" ∷ []
unfolding sort_file_entries sort_by text_after
by_name_down = refl

sort_file_entries_lem_example :
    Perm (sorted (λ s. s) three (ascending (λ s. s) by_name)) three
    × InOrder (Precedes (λ s. s) by_name) (sorted (λ s. s) three (ascending (λ s. s) by_name))
    × (sorted (λ s. s) three (descending (λ s. s) by_name)
        ≡ reverse (sorted (λ s. s) three (ascending (λ s. s) by_name)))
    × (parse_uint 256 (link (λ s. s) by_name (links (λ s. s) three (ascending (λ s. s) by_name)))
        ≡ some (descending (λ s. s) by_name))
    × (parse_uint 256 (link (λ s. s) by_name (links (λ s. s) three (descending (λ s. s) by_name)))
        ≡ some (ascending (λ s. s) by_name))
    × ((code : ℕ) → 5 < code → sorted (λ s. s) three code ≡ three)
sort_file_entries_lem_example = sort_file_entries_lem (λ s. s) three by_name
