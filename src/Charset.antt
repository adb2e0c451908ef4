-- ===== src/Charset.antt =====
-- mime_ext.rs and text_charset.rs: the classes of media types, and the default charset of texts. A
-- media type is what the crate `mime` parses: its type, its suffix, its essence, and whether it has a
-- parameter `charset`. `parse_mime` is that parser.
pub mod Declared
pub mod Tests
use Prim.Native.String.{◌++◌}
use mathlib.Core.Option
use weave_gate.Common.{
  String, Bool, true, false, not, ◌||◌, ◌&&◌, Option, none, some, List, [], ◌∷◌, ◌==◌, any,
  and_then, if◌then◌else◌,
}
use weave_gate.Common.Text.{trim_end, trim_end_matches}
use weave_gate.Http.{Http, Response}

pub record Mime : Type 0 where
  pub type_name : String
  pub suffix : Option String
  pub essence : String
  pub has_charset : Bool

abbrev pub text_mime_types : List String
text_mime_types =
    "application/csv" ∷ "application/graphql" ∷ "application/javascript" ∷ "application/json"
    ∷ "application/rtf" ∷ "application/sql" ∷ "application/x-yaml" ∷ "application/xml"
    ∷ "application/yaml" ∷ []

abbrev pub additional_compressible_types : List String
additional_compressible_types =
    "application/wasm" ∷ "application/font-sfnt" ∷ "application/vnd.ms-fontobject" ∷ "image/x-icon"
    ∷ "image/vnd.microsoft.icon" ∷ []

-- `list.contains(&s)`
abbrev pub lists : List String → String → Bool
lists names s = any (λ n. n == s) names

abbrev pub is_text_only : Mime → Bool
is_text_only m = m.type_name == "text"

-- the suffixes of structured texts
unfoldable pub has_text_suffix : Option String → Bool
has_text_suffix none = false
has_text_suffix (some s) = s == "json" || (s == "xml" || (s == "yaml" || s == "svg"))

unfoldable pub is_text : Mime → Bool
is_text m = is_text_only m || (has_text_suffix m.suffix || lists text_mime_types m.essence)

unfoldable pub contains_text_only : Mime → List String → Bool
contains_text_only m list = if not (is_text_only m) then false else lists list m.essence

unfoldable pub is_compressible : Mime → Bool
is_compressible m =
    if is_text m
    then true
    else if m.type_name == "font"
    then not (m.essence == "font/woff2")
    else lists additional_compressible_types m.essence

abbrev pub text_only_types : List String
text_only_types =
    "application/atom+xml" ∷ "application/rss+xml" ∷ "text/calendar" ∷ "text/csv" ∷ "text/html"
    ∷ "text/markdown" ∷ "text/plain" ∷ "text/xml" ∷ []

-- the filter of `post_process`
unfoldable pub wants_charset : Mime → Bool
wants_charset m = contains_text_only m text_only_types && not m.has_charset

-- the text without white space and semicolons at its end, and the parameter
unfoldable pub with_charset : String → String
with_charset s = trim_end_matches b';' (trim_end s) ++ "; charset=utf-8"

module _ (L : Http) (parse_mime : String → Option Mime) where
  -- the text for a media type that is to have the parameter
  unfoldable pub charset_text : String → Option String
  charset_text s =
      and_then (parse_mime s) (λ m. if wants_charset m then some (with_charset s) else none)

  unfoldable pub new_header : L.Headers → Option L.Value
  new_header headers =
      and_then (and_then (and_then (L.get headers "content-type") L.to_str) charset_text) L.from_str

  unfoldable pub post_process : Bool → Response L → Response L
  post_process text_charset resp =
      if not text_charset then resp else elim (new_header resp.headers) [
        | none ↦ resp
        | some value ↦ record resp { headers = L.insert resp.headers "content-type" value }
      ]
