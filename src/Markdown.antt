-- ===== src/Markdown.antt =====
-- markdown.rs, headers_ext/accept.rs and `try_markdown_variant` of fs/meta.rs: a client that accepts
-- Markdown is given the Markdown file beside the page that it asks for. A path is its text, as in
-- Choice; `accept` are the texts of the values of the header `Accept`.
pub mod Found
mod Tests
use Prim.Native.Nat.{zero, suc}
use Prim.Native.String.{◌++◌}
use mathlib.Core.Option
use weave_gate.Common.{
  ℕ, String, Bool, true, false, not, ◌||◌, Option, none, some, List, [], ◌∷◌, ◌==◌, any, and_then,
  or_else, length, if◌then◌else◌,
}
use weave_gate.Common.Text.{
  split, join, is_empty, starts_with_char, trim_start_matches, eq_ignore_ascii_case,
}
use weave_gate.Http.{Http, Response}
use weave_gate.Paths.{components, push, strip_components}
use weave_gate.Encodings.{QualityMeta, sorted_metas}
use weave_gate.Choice.{Disk, file_name, set_file_name}

-- accept.rs, `Accept::accepts`; without the header there are no values
unfoldable pub accepts : (String → Option ℕ) → List (Option String) → String → Bool
accepts parse_quality accept media_type =
    any (λ (m : QualityMeta). eq_ignore_ascii_case m.data_text media_type)
      (sorted_metas parse_quality accept)

unfoldable pub accepts_markdown : (String → Option ℕ) → List (Option String) → Bool
accepts_markdown parse_quality accept = accepts parse_quality accept "text/markdown"

-- a part between slashes that is no component
abbrev pub is_blank : String → Bool
is_blank part = is_empty part || part == "."

-- the parts behind the first `n` components
unfoldable pub drop_components : ℕ → List String → List String
drop_components n [] = []
drop_components zero (p ∷ ps) =
    let rest = drop_components zero ps in if is_blank p then rest else p ∷ ps
drop_components (suc n) (p ∷ ps) =
    let blank = drop_components (suc n) ps in
    let rest = drop_components n ps in if is_blank p then blank else rest

-- the text of a path behind its first components, of which the root is one
unfoldable pub text_behind : ℕ → String → String
text_behind zero path = path
text_behind (suc n) path = elim (starts_with_char b'/' path) [
  | true ↦ join "/" (drop_components n (split b'/' path))
  | false ↦ elim (split b'/' path) [
    | [] ↦ ""
    | p ∷ ps ↦
        join "/" (if p == "." then drop_components n ps else drop_components (suc n) (p ∷ ps))
  ]
]

-- `Path::strip_prefix`, as a text
unfoldable pub strip_path : String → String → Option String
strip_path path base =
    Option.map (λ rest. text_behind (length (components base)) path)
      (strip_components (components path) (components base))

module _ (D : Disk) where
  -- a path that is there and is no directory
  unfoldable pub try_path : String → Option String
  try_path path = and_then (D.metadata path) (λ meta. if D.is_dir meta then none else some path)

  unfoldable pub with_suffix : String → String → Option String
  with_suffix path suffix =
      and_then (file_name path) (λ name. try_path (set_file_name path (name ++ suffix)))

  unfoldable pub try_markdown_variant : String → Option String
  try_markdown_variant path =
      or_else (with_suffix path ".md")
        (or_else (with_suffix path ".html.md") (try_path (push path "index.html.md")))

  -- the path in the base that the request names
  unfoldable pub asked_path : String → String → String
  asked_path base uri_path =
      let sanitized = trim_start_matches b'/' uri_path in
      if is_empty sanitized then base else push base sanitized

  unfoldable pub pre_process :
      (String → Option ℕ) → List (Option String) → String → String → Option String
  pre_process parse_quality accept base uri_path =
      if not (accepts_markdown parse_quality accept)
      then none
      else and_then (try_markdown_variant (asked_path base uri_path))
          (λ md_path. Option.map (λ s. "/" ++ s) (strip_path md_path base))

module _ (L : Http) where
  unfoldable pub post_process : Bool → Bool → Response L → Response L
  post_process is_markdown_variant accept_markdown resp =
      if not is_markdown_variant || not accept_markdown then resp else record resp {
        headers =
            L.insert resp.headers "content-type" (L.from_static "text/markdown; charset=utf-8");
      }
