-- ===== src/Statics/Tests.antt =====
-- Runs of the static files.
use weave_gate.Common.{
  ℕ, String, ◌≡◌, refl, Bool, true, false, ◌||◌, Option, none, some, [], ◌==◌, if◌then◌else◌,
}
use weave_gate.Common.Text.{split, join, trim_start_matches}
use weave_gate.Http.{Response}
use weave_gate.Http.Assoc.{assoc}
use weave_gate.Pages.{is_allowed}
use weave_gate.Paths.{
  push, components, part_component, push_component, push_components, sanitize_path, is_hidden,
  strip_components, contains_symlink, check_links, check_hidden, then_check, check_resolved,
  check_access,
}
use weave_gate.Encodings.{precompressed_variant}
use weave_gate.Choice.{
  drop_blank, last_parts, front_text, pop, file_name, set_file_name, Disk, FileMetadata, HandleOpts,
  try_metadata_with_html_suffix, variant_at, search_index, with_variant, directory_found,
  directory_metadata, get_composed_file_metadata,
}
use weave_gate.Statics.{
  Reply, replied, failed, served, variant_reply, reply, checked_path, handle_file, handle,
}
use weave_gate.Choice.There.{IsThere, get_composed_file_metadata-IsThere}
use weave_gate.Statics.Served.{IsServed, handle-IsServed}

popped : pop "docker/public//a/./" ≡ "docker/public"
unfolding pop last_parts front_text drop_blank split join
popped = refl

popped_root : pop "/a" ≡ "/"
unfolding pop last_parts front_text drop_blank split join
popped_root = refl

popped_name : pop "a" ≡ ""
unfolding pop last_parts front_text drop_blank split join
popped_name = refl

no_name : file_name "a/.." ≡ none
unfolding file_name last_parts drop_blank split
no_name = refl

renamed : set_file_name "srv/posts/" "posts.html" ≡ "srv/posts.html"
unfolding set_file_name file_name pop push last_parts front_text drop_blank split join
renamed = refl

-- a disk with one directory, its index file and that file's variant
abbrev disk_metadata : String → Option Bool
disk_metadata path =
    if path == "/srv/www/docs"
    then some true
    else if path == "/srv/www/docs/index.html" || path == "/srv/www/docs/index.html.gz"
    then some false
    else none

abbrev pub disk : Disk
disk = record {
  Meta = Bool;
  is_dir = λ meta. meta;
  metadata = disk_metadata;
  canonicalize = some;
  symlink_metadata = λ path. some false;
}

abbrev asked : HandleOpts
asked = record {
  method = "GET";
  accept_encoding = [];
  uri_path = "/docs/";
  uri_query = none;
  index_files = [];
  dir_listing = false;
  redirect_trailing_slash = true;
  compression_static = true;
  access = record { base_path = "/srv/www"; disable_symlinks = true; ignore_hidden_files = true };
}

abbrev same : String → String
same s = s

abbrev no_quality : String → Option ℕ
no_quality s = none

abbrev no_listing : HandleOpts → String → Reply assoc
no_listing opts path = failed 404

abbrev page : Response assoc
page = record { status = 200; headers = []; body = "docs" }

abbrev made_reply : String → Bool → Option String → Reply assoc
made_reply path meta variant = replied page

docs_served :
    handle assoc disk no_quality same no_listing made_reply asked
    ≡ served page "/srv/www/docs/index.html"
unfolding handle handle_file reply variant_reply checked_path get_composed_file_metadata
    directory_metadata directory_found search_index with_variant variant_at
    try_metadata_with_html_suffix pop file_name set_file_name last_parts front_text drop_blank split
    join push is_allowed sanitize_path push_components push_component components part_component
    trim_start_matches check_access check_links check_hidden check_resolved then_check
    strip_components contains_symlink is_hidden precompressed_variant
docs_served = refl

handle-IsServed_example :
    IsServed assoc disk no_quality same no_listing made_reply asked page "/srv/www/docs/index.html"
handle-IsServed_example =
    handle-IsServed assoc disk no_quality same no_listing made_reply asked page
      "/srv/www/docs/index.html" docs_served

abbrev docs_page : FileMetadata disk
docs_page = record {
  file_path = "/srv/www/docs/index.html";
  metadata = false;
  is_dir = true;
  precompressed_variant = none;
}

docs_found : get_composed_file_metadata disk no_quality asked "/srv/www/docs" ≡ some docs_page
unfolding get_composed_file_metadata directory_metadata directory_found search_index with_variant
    variant_at try_metadata_with_html_suffix pop file_name set_file_name last_parts front_text
    drop_blank split join push precompressed_variant
docs_found = refl

get_composed_file_metadata-IsThere_example :
    IsThere disk no_quality asked "/srv/www/docs"
      (get_composed_file_metadata disk no_quality asked "/srv/www/docs")
get_composed_file_metadata-IsThere_example =
    get_composed_file_metadata-IsThere disk no_quality asked "/srv/www/docs"

-- The index file is a link, and it is served: only its directory is checked.
abbrev linked : Disk
linked = record disk { symlink_metadata = λ path. some (path == "/srv/www/docs/index.html") }

link_served :
    handle assoc linked no_quality same no_listing made_reply asked
    ≡ served page "/srv/www/docs/index.html"
unfolding handle handle_file reply variant_reply checked_path get_composed_file_metadata
    directory_metadata directory_found search_index with_variant variant_at
    try_metadata_with_html_suffix pop file_name set_file_name last_parts front_text drop_blank split
    join push is_allowed sanitize_path push_components push_component components part_component
    trim_start_matches check_access check_links check_hidden check_resolved then_check
    strip_components contains_symlink is_hidden precompressed_variant
link_served = refl
