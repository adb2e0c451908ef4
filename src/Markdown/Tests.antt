-- ===== src/Markdown/Tests.antt =====
-- Runs of the Markdown negotiation.
use Prim.Native.String.{◌++◌}
use weave_gate.Common.{
  String, ◌≡◌, refl, Bool, true, false, ◌||◌, none, some, [], ◌∷◌, ◌==◌, if◌then◌else◌,
}
use weave_gate.Choice.{Disk, front_text, last_parts, file_name, pop, drop_blank, set_file_name}
use weave_gate.Markdown.{
  text_behind, strip_path, accepts_markdown, asked_path, pre_process, drop_components, try_path,
  try_markdown_variant, accepts, with_suffix,
}
use weave_gate.Markdown.Found.{IsVariant, pre_process-IsVariant}
use weave_gate.Common.Text.{
  join, split, eq_ignore_ascii_case, strip_prefix, trim_start_matches, trim_end, trim, trim_start,
}
use weave_gate.Encodings.{
  quality_from, from_str, metas, quality_step, coding_from, sorted_metas, quality_meta, joined,
}
use weave_gate.Common.Sort.{sort_by}
use weave_gate.Paths.{components, strip_components, push, part_component}

abbrev disk : Disk
disk = record {
  Meta = Bool;
  is_dir = λ meta. meta;
  metadata = λ path.
      if path == "/srv/docs"
      then some true
      else if path == "/srv/docs/index.html.md" || path == "/srv/my page.md"
      then some false
      else none;
  canonicalize = some;
  symlink_metadata = λ path. some false;
}

behind : text_behind 2 "/srv//docs/./a.md" ≡ "docs/./a.md"
unfolding text_behind join drop_components split
behind = refl

index_found :
    pre_process disk (λ s. none) (some "text/html, text/markdown" ∷ []) "/srv" "/docs/"
    ≡ some "/docs/index.html.md"
unfolding pre_process accepts_markdown accepts sorted_metas sort_by metas joined split quality_meta
    quality_from quality_step strip_prefix trim_start coding_from from_str trim eq_ignore_ascii_case
    try_markdown_variant drop_blank file_name front_text last_parts pop set_file_name join trim_end
    trim_start_matches asked_path drop_components strip_path text_behind try_path with_suffix
    components part_component push strip_components
index_found = refl

-- The path of the request is not decoded.
encoded_missed : pre_process disk (λ s. none) (some "text/markdown" ∷ []) "/srv" "/my%20page" ≡ none
unfolding pre_process accepts_markdown accepts sorted_metas sort_by metas joined split
    eq_ignore_ascii_case quality_meta trim try_markdown_variant with_suffix file_name last_parts
    drop_blank asked_path trim_start_matches front_text pop set_file_name join strip_prefix trim_end
    trim_start coding_from from_str quality_from quality_step drop_components strip_path text_behind
    try_path components part_component push strip_components
encoded_missed = refl

pre_process-IsVariant_example :
    (accepts_markdown (λ s. none) (some "text/html, text/markdown" ∷ []) ≡ true)
    × (md : String) × (s : String) × IsVariant disk (asked_path disk "/srv" "/docs/") md
    × (strip_path md "/srv" ≡ some s)
    × ("/docs/index.html.md" ≡ "/" ++ s)
pre_process-IsVariant_example =
    pre_process-IsVariant disk (λ s. none) (some "text/html, text/markdown" ∷ []) "/srv" "/docs/"
      "/docs/index.html.md" index_found
