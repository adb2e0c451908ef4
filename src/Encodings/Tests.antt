-- ===== src/Encodings/Tests.antt =====
-- Runs of the choice of a coding.
use weave_gate.Common.{
  ℕ, String, ◌≡◌, refl, Bool, true, false, Option, none, some, List, [], ◌∷◌, All, ◌==◌,
  if◌then◌else◌,
}
use weave_gate.Common.Text.{split, trim, trim_start, strip_prefix}
use weave_gate.Common.Sort.{sort_by}
use weave_gate.Encodings.{
  gzip, brotli, deflate, QualityMeta, from_str, coding_from, is_available, quality_step,
  quality_from, quality_meta, joined, metas, sorted_metas, first_available, get_preferred_encoding,
  variant_path, variant_for, first_variant, precompressed_variant,
}
use weave_gate.Encodings.Preferred.{coding_of, IsBeaten, get_preferred_encoding-IsBeaten}
use weave_gate.Encodings.Variant.{IsVariant, IsPassed, precompressed_variant-IsVariant}

-- the numbers of these runs, in thousandths
abbrev thousandths : String → Option ℕ
thousandths s =
    if s == "0.5"
    then some 500
    else if s == "1.0"
    then some 1000
    else if s == "0"
    then some 0
    else none

abbrev accept : List (Option String)
accept = some "deflate, gzip;q=0.5" ∷ some "br;q=1.0" ∷ []

prefers-br : get_preferred_encoding thousandths accept ≡ some brotli
unfolding get_preferred_encoding sorted_metas sort_by metas joined quality_meta quality_from
    quality_step first_available coding_from from_str split trim trim_start strip_prefix
prefers-br = refl

-- a quality of zero, by which a client refuses a coding, only puts it last
refused-gzip : get_preferred_encoding thousandths (some "gzip;q=0" ∷ []) ≡ some gzip
unfolding get_preferred_encoding sorted_metas sort_by metas joined quality_meta quality_from
    quality_step first_available coding_from from_str split trim trim_start strip_prefix
refused-gzip = refl

get_preferred_encoding-IsBeaten_example :
    (m : QualityMeta) × (coding_of m ≡ brotli)
    × (is_available brotli ≡ true)
    × All (IsBeaten m) (metas thousandths accept)
get_preferred_encoding-IsBeaten_example =
    get_preferred_encoding-IsBeaten thousandths accept brotli prefers-br

-- there is only the variant in the format of gzip
abbrev only_gz : String → Option Bool
only_gz path = if path == "/srv/app.js.gz" then some false else none

-- a client that accepts `deflate` is served the file in the format of gzip under the other name
gz_as_deflate :
    precompressed_variant thousandths only_gz (some "deflate" ∷ []) "/srv/" (some "app.js")
    ≡ some ("/srv/app.js.gz", deflate)
unfolding precompressed_variant first_variant variant_for variant_path sorted_metas sort_by metas
    joined quality_meta quality_from quality_step coding_from from_str split trim trim_start
    strip_prefix
gz_as_deflate = refl

precompressed_variant-IsVariant_example :
    (m : QualityMeta) × (coding_of m ≡ deflate)
    × IsVariant thousandths only_gz "/srv/" (some "app.js") "/srv/app.js.gz" deflate
    × All
        (IsPassed thousandths only_gz "/srv/" (some "app.js") m)
        (metas thousandths (some "deflate" ∷ []))
precompressed_variant-IsVariant_example =
    precompressed_variant-IsVariant thousandths only_gz "/srv/" (some "app.js")
      (some "deflate" ∷ []) ("/srv/app.js.gz", deflate) gz_as_deflate
