-- ===== src/Finish.antt =====
-- control_headers.rs, security_headers.rs and custom_headers.rs: the last three steps of the handler
-- on the response for a static file, in their order. A compiled glob is the test that it makes of a
-- path, and the headers of an entry are what their map iterates over.
pub mod Names
mod Tests
use Prim.Native.String.{◌++◌}
use mathlib.Core.Option
use weave_gate.Common.{
  ℕ, String, Bool, not, ◌||◌, Option, none, some, List, [], ◌∷◌, ◌==◌, any, leb, unwrap_or,
  if◌then◌else◌,
}
use weave_gate.Common.Text.{rsplit_once, ends_with_char, decimal}
use weave_gate.Http.{Http, Request, Response}
use weave_gate.Rules.{Glob}

abbrev pub cache_ext_one_hour : List String
cache_ext_one_hour = "atom" ∷ "json" ∷ "rss" ∷ "xml" ∷ []

abbrev pub cache_ext_one_year : List String
cache_ext_one_year =
    "avif" ∷ "bmp" ∷ "bz2" ∷ "css" ∷ "doc" ∷ "gif" ∷ "gz" ∷ "htc" ∷ "ico" ∷ "jpeg" ∷ "jpg" ∷ "js"
    ∷ "jxl" ∷ "map" ∷ "mjs" ∷ "mp3" ∷ "mp4" ∷ "ogg" ∷ "ogv" ∷ "pdf" ∷ "png" ∷ "rar" ∷ "rtf" ∷ "tar"
    ∷ "tgz" ∷ "wav" ∷ "weba" ∷ "webm" ∷ "webp" ∷ "woff" ∷ "woff2" ∷ "zip" ∷ []

abbrev pub get_file_extension : String → Option String
get_file_extension uri = Option.map (λ (p : String × String). p.1) (rsplit_once b'.' uri)

-- the binary search of a sorted list finds what is in it
unfoldable pub max_age_for : Option String → ℕ
max_age_for none = 86400
max_age_for (some extension) =
    if any (λ e. e == extension) cache_ext_one_hour
    then 3600
    else if any (λ e. e == extension) cache_ext_one_year
    then 31536000
    else 86400

unfoldable pub get_max_age : String → ℕ
get_max_age uri = max_age_for (get_file_extension uri)

-- settings/mod.rs, `Headers`
pub record HeadersEntry (L : Http) : Type 0 where
  pub source : Glob
  pub headers : List (String × L.Value)

pub record FinishOpts (L : Http) : Type 0 where
  pub cache_control_headers : Bool
  pub security_headers : Bool
  pub headers : Option (List (HeadersEntry L))
  pub redirect_trailing_slash : Bool

-- the path that is matched: with the name of the file that was served for a directory
unfoldable pub matched_path : String → Option String → Bool → String
matched_path uri_path none redirect = uri_path
matched_path uri_path (some name) redirect =
    if ends_with_char b'/' uri_path || not redirect
    then (if uri_path == "/" then "/" ++ name else uri_path ++ ("/" ++ name))
    else uri_path

module _ (L : Http) where
  unfoldable pub append_cache_control : String → L.Headers → L.Headers
  append_cache_control uri h =
      let max_age = get_max_age uri in
      let capped = if leb max_age 4294967295 then max_age else 4294967295 in
      L.insert h "cache-control" (L.from_static ("max-age=" ++ decimal capped))

  abbrev pub security_values : List (String × L.Value)
  security_values =
      ("strict-transport-security", L.from_static "max-age=63072000; includeSubDomains; preload")
      ∷ ("x-frame-options", L.from_static "DENY")
      ∷ ("x-content-type-options", L.from_static "nosniff")
      ∷ ("content-security-policy", L.from_static "frame-ancestors 'self'")
      ∷ []

  -- `insert` of each pair in turn
  unfoldable pub insert_each : List (String × L.Value) → L.Headers → L.Headers
  insert_each [] h = h
  insert_each ((name, value) ∷ pairs) h = insert_each pairs (L.insert h name value)

  unfoldable pub append_security : L.Headers → L.Headers
  append_security h = insert_each security_values h

  unfoldable pub append_custom : String → List (HeadersEntry L) → L.Headers → L.Headers
  append_custom uri_path [] h = h
  append_custom uri_path (e ∷ es) h =
      append_custom uri_path es (if e.source uri_path then insert_each e.headers h else h)

  -- `file_name` is the last component of the file's path, where it is a text
  unfoldable pub finish_headers : FinishOpts L → String → Option String → L.Headers → L.Headers
  finish_headers opts uri_path file_name h =
      let cached = if opts.cache_control_headers then append_cache_control uri_path h else h in
      let secured = if opts.security_headers then append_security cached else cached in
      append_custom (matched_path uri_path file_name opts.redirect_trailing_slash)
        (unwrap_or opts.headers []) secured

  unfoldable pub finish : FinishOpts L → Request L → Option String → Response L → Response L
  finish opts req file_name resp = record resp {
    headers = finish_headers opts (L.path req.uri) file_name resp.headers;
  }
