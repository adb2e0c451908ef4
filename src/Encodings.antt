-- ===== src/Encodings.antt =====
-- headers_ext/quality_value.rs, content_coding.rs and accept_encoding.rs, and the uses of the sorted
-- encodings in compression.rs and compression_static.rs, with all codings compiled in.
-- `parse_quality` is the parse of a number as `f32` and its thousandths as `u16`; `values` are the
-- texts of the header's values, `none` for one that is no text; `try_metadata` tells of a path
-- whether it is a directory, `none` where it cannot be read.
pub mod Preferred
pub mod Variant
mod Tests
use Prim.Native.String.{◌++◌}
use mathlib.Core.Option
use weave_gate.Common.{
  ℕ, String, Bool, true, false, ◌||◌, ◌&&◌, Option, none, some, List, [], ◌∷◌, map, ◌==◌, ltb, eqb,
  and_then, if◌then◌else◌,
}
use weave_gate.Common.Text.{split, trim, trim_start, strip_prefix}
use weave_gate.Common.Sort.{sort_by}

pub data ContentCoding : Type 0 where
  brotli compress deflate gzip identity zstd : ContentCoding

-- `ContentCoding::as_str`
abbrev pub as_str : ContentCoding → String
as_str brotli = "br"
as_str compress = "compress"
as_str deflate = "deflate"
as_str gzip = "gzip"
as_str identity = "identity"
as_str zstd = "zstd"

-- `from_str`: the coding's name in the source, or its token
unfoldable pub from_str : String → Option ContentCoding
from_str s =
    if s == "BROTLI" || s == "br"
    then some brotli
    else if s == "COMPRESS" || s == "compress"
    then some compress
    else if s == "DEFLATE" || s == "deflate"
    then some deflate
    else if s == "GZIP" || s == "gzip"
    then some gzip
    else if s == "IDENTITY" || s == "identity"
    then some identity
    else if s == "ZSTD" || s == "zstd"
    then some zstd
    else none

-- `ContentCoding::from`: anything else is the identity
unfoldable pub coding_from : String → ContentCoding
coding_from s = elim (from_str s) [ none ↦ identity | some coding ↦ coding ]

abbrev pub priority : ContentCoding → ℕ
priority identity = 1
priority compress = 2
priority deflate = 3
priority gzip = 4
priority brotli = 5
priority zstd = 6

pub record QualityMeta : Type 0 where
  pub data_text : String
  pub quality : ℕ

-- `AVAILABLE_ENCODINGS.contains`
abbrev pub is_available : ContentCoding → Bool
is_available deflate = true
is_available gzip = true
is_available brotli = true
is_available zstd = true
is_available compress = false
is_available identity = false

-- `Ordering::Greater` of the comparison of `iter`: by quality, then by priority
abbrev pub stands_behind : QualityMeta → QualityMeta → Bool
stands_behind a b =
    ltb a.quality b.quality
    || (eqb a.quality b.quality
        && ltb (priority (coding_from a.data_text)) (priority (coding_from b.data_text)))

module _ (parse_quality : String → Option ℕ) where
  -- one round of the loop over the parameters
  unfoldable pub quality_step : ℕ → String → ℕ
  quality_step quality part =
      elim (and_then (strip_prefix (trim_start part) "q=") (λ value. parse_quality (trim value))) [
        | none ↦ quality
        | some parsed ↦ parsed
      ]

  unfoldable pub quality_from : ℕ → List String → ℕ
  quality_from quality [] = quality
  quality_from quality (part ∷ parts) = quality_from (quality_step quality part) parts

  abbrev pub first_part : List String → String
  first_part [] = ""
  first_part (part ∷ parts) = trim part

  -- `QualityMeta::try_from`, which never fails, for a split gives at least one part
  unfoldable pub quality_meta : String → QualityMeta
  quality_meta val =
      let parts = split b';' val in
      record { data_text = first_part parts; quality = quality_from 1000 parts }

  -- the texts of all values joined, if each of them is one
  unfoldable pub joined : List (Option String) → Option String
  joined [] = some ""
  joined (none ∷ vs) = none
  joined (some v ∷ []) = some v
  joined (some v ∷ (w ∷ vs)) = Option.map (λ rest. v ++ (", " ++ rest)) (joined (w ∷ vs))

  -- the items of the header, in its order
  unfoldable pub metas : List (Option String) → List QualityMeta
  metas values = elim (joined values) [
    | none ↦ []
    | some value_str ↦ map quality_meta (split b',' value_str)
  ]

  -- `sorted_encodings`, still with their qualities
  unfoldable pub sorted_metas : List (Option String) → List QualityMeta
  sorted_metas values = sort_by stands_behind (metas values)

  unfoldable pub first_available : List QualityMeta → Option ContentCoding
  first_available [] = none
  first_available (m ∷ ms) =
      let rest = first_available ms in
      if is_available (coding_from m.data_text) then some (coding_from m.data_text) else rest

  -- a header that is not there has no values, and no coding is preferred
  unfoldable pub get_preferred_encoding : List (Option String) → Option ContentCoding
  get_preferred_encoding [] = none
  get_preferred_encoding (v ∷ vs) = first_available (sorted_metas (v ∷ vs))

  -- the extension of a variant's file
  abbrev pub comp_ext : ContentCoding → Option String
  comp_ext gzip = some "gz"
  comp_ext deflate = some "gz"
  comp_ext brotli = some "br"
  comp_ext zstd = some "zst"
  comp_ext compress = none
  comp_ext identity = none

  module _ (try_metadata : String → Option Bool) where
    -- `with_file_name`, of a file's directory with its last slash and its name
    unfoldable pub variant_path : String → Option String → ContentCoding → Option String
    variant_path parent file_name coding =
        and_then (comp_ext coding)
          (λ ext. Option.map (λ name. parent ++ (name ++ ("." ++ ext))) file_name)

    -- the variant for a coding, if it is there and no directory
    unfoldable pub variant_for :
        String → Option String → ContentCoding → Option (String × ContentCoding)
    variant_for parent file_name coding = and_then (variant_path parent file_name coding) (λ path.
        elim (try_metadata path) [
          | none ↦ none
          | some is_dir ↦ if is_dir then none else some (path, coding)
        ])

    unfoldable pub first_variant :
        String → Option String → List QualityMeta → Option (String × ContentCoding)
    first_variant parent file_name [] = none
    first_variant parent file_name (m ∷ ms) =
        let rest = first_variant parent file_name ms in
        elim (variant_for parent file_name (coding_from m.data_text)) [
          | none ↦ rest
          | some v ↦ some v
        ]

    unfoldable pub precompressed_variant :
        List (Option String) → String → Option String → Option (String × ContentCoding)
    precompressed_variant [] parent file_name = none
    precompressed_variant (v ∷ vs) parent file_name =
        first_variant parent file_name (sorted_metas (v ∷ vs))
