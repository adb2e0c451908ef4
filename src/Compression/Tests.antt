-- ===== src/Compression/Tests.antt =====
-- Runs of the compression.
use Prim.Native.String.{◌++◌}
use weave_gate.Common.{◌≡◌, ◌⊎◌, refl, true, none, some, [], ◌∷◌, is_some}
use weave_gate.Http.{Request, Response, first_value}
use weave_gate.Http.Assoc.{assoc, drop_name}
use weave_gate.Encodings.{
  as_str, get_preferred_encoding, sorted_metas, from_str, metas, joined, coding_from,
  first_available, quality_step, quality_from, quality_meta,
}
use weave_gate.Compression.{
  Coders, vary, vary_text, text_of, create_encoding_header, encoded, skips_type, auto, with_vary,
  post_process,
}
use weave_gate.Compression.Encoded.{Varies, IsEncoded, post_process-cases}
use weave_gate.Common.Sort.{sort_by}
use weave_gate.Common.Text.{strip_prefix, trim_end, trim_start, contains, split, trim}
use weave_gate.Charset.{has_text_suffix, is_compressible, is_text}

abbrev pub coders : Coders assoc
coders = record {
  parse_quality = λ s. none;
  accept_encoding =
      λ h. elim (first_value "accept-encoding" h) [ none ↦ [] | some v ↦ some v ∷ [] ];
  content_type = λ h. none;
  encode = λ coding body. as_str coding ++ (":" ++ body);
}

abbrev asked : Request assoc
asked = record {
  method = "GET";
  uri = record {
    scheme = none;
    authority = none;
    host = none;
    port = none;
    path = "/a.txt";
    query = none;
  };
  headers = ("accept-encoding", "gzip") ∷ [];
  body = "";
}

-- Bytes of a part of a file, with the range of the whole file that they are.
abbrev part : Response assoc
part = record {
  status = 206;
  headers = ("content-range", "bytes 0-3/9") ∷ ("content-length", "4") ∷ [];
  body = "text";
}

-- They are encoded by themselves, and the range still speaks of the file.
part_encoded : post_process assoc coders true asked part ≡ record part {
  headers =
      ("content-encoding", "gzip")
      ∷ ("vary", "accept-encoding")
      ∷ ("content-range", "bytes 0-3/9")
      ∷ [];
  body = "gzip:text";
}
unfolding post_process first_value auto get_preferred_encoding first_available sorted_metas sort_by
    metas joined split coding_from from_str quality_meta trim skips_type encoded with_vary
    create_encoding_header drop_name vary has_text_suffix is_compressible is_text contains
    strip_prefix trim_end trim_start text_of vary_text quality_from quality_step
part_encoded = refl

post_process-cases_example :
    ((is_some (assoc.get part.headers "content-encoding") ≡ true)
      × (post_process assoc coders true asked part ≡ part))
    ⊎ ((assoc.get part.headers "content-encoding" ≡ none)
        × Varies assoc coders (vary assoc (assoc.get part.headers "vary"))
        × ((post_process assoc coders true asked part ≡ with_vary assoc coders part)
            ⊎ IsEncoded assoc coders asked part (post_process assoc coders true asked part)))
post_process-cases_example = post_process-cases assoc coders asked part
