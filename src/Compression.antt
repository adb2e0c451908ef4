-- ===== src/Compression.antt =====
-- compression.rs, with all codings compiled in, and the last step of compression_static.rs: the
-- header `Vary`, and the encoding of a response's body. `encode` stands for the encoders of the crate
-- `async-compression`, `content_type` for the typed header, and `accept_encoding` for the texts of the
-- values of that header, `none` for one that is no text. `auto` never fails, so that
-- `post_process` makes no error page.
pub mod Encoded
pub mod Tests
use Prim.Native.String.{◌++◌}
use weave_gate.Common.{
  String, Bool, false, not, ◌||◌, Option, none, some, List, ◌==◌, is_some, unwrap_or, if◌then◌else◌,
  ℕ,
}
use weave_gate.Common.Text.{contains, is_empty}
use weave_gate.Http.{Http, Request, Response}
use weave_gate.Encodings.{ContentCoding, as_str, get_preferred_encoding}
use weave_gate.Charset.{Mime, is_compressible}

pub record Coders (L : Http) : Type 0 where
  pub parse_quality : String → Option ℕ
  pub accept_encoding : L.Headers → List (Option String)
  pub content_type : L.Headers → Option Mime
  pub encode : ContentCoding → String → String

module _ (L : Http) where
  -- `h.to_str().unwrap_or_default()`
  unfoldable pub text_of : L.Value → String
  text_of h = unwrap_or (L.to_str h) ""

  -- compression_static.rs, `post_process`
  unfoldable pub static_vary : Option L.Value → L.Value
  static_vary none = L.from_static "accept-encoding"
  static_vary (some h) = L.from_static (text_of h ++ ("," ++ "accept-encoding"))

  unfoldable pub static_post_process : Bool → Response L → Response L
  static_post_process compression_static resp =
      if not compression_static then resp else record resp {
        headers = L.insert resp.headers "vary" (static_vary (L.get resp.headers "vary"));
      }

  -- the text of `Vary` with the header's name in it
  unfoldable pub vary_text : String → String
  vary_text a =
      if contains a "accept-encoding"
      then a
      else (if is_empty a then a else a ++ ",") ++ "accept-encoding"

  unfoldable pub vary : Option L.Value → L.Value
  vary none = L.from_static "accept-encoding"
  vary (some h) = L.from_static (vary_text (text_of h))

  unfoldable pub create_encoding_header : Option L.Value → ContentCoding → L.Value
  create_encoding_header none coding = L.from_static (as_str coding)
  create_encoding_header (some val) coding = elim (L.to_str val) [
    | none ↦ L.from_static (as_str coding)
    | some str_val ↦
        unwrap_or (L.from_str (str_val ++ (", " ++ as_str coding))) (L.from_static (as_str coding))
  ]

  module _ (c : Coders L) where
    -- `gzip`, `deflate`, `brotli` and `zstd`, which differ in their encoder only
    unfoldable pub encoded : ContentCoding → Response L → Response L
    encoded coding resp =
        let header = create_encoding_header (L.get resp.headers "content-encoding") coding in
        let head = L.remove (L.remove resp.headers "content-encoding") "content-length" in
        record resp {
          headers = L.insert head "content-encoding" header;
          body = c.encode coding resp.body;
        }

    -- a type that is known and not worth it
    unfoldable pub skips_type : L.Headers → Bool
    skips_type headers = elim (c.content_type headers) [
      | none ↦ false
      | some mime ↦ not (is_compressible mime)
    ]

    -- the preferred encoding is one of the four
    unfoldable pub auto : String → L.Headers → Response L → Response L
    auto method headers resp =
        if method == "HEAD" || method == "OPTIONS"
        then resp
        else elim (get_preferred_encoding c.parse_quality (c.accept_encoding headers)) [
          | none ↦ resp
          | some coding ↦ if skips_type resp.headers then resp else encoded coding resp
        ]

    unfoldable pub with_vary : Response L → Response L
    with_vary resp = record resp {
      headers = L.insert resp.headers "vary" (vary (L.get resp.headers "vary"));
    }

    unfoldable pub post_process : Bool → Request L → Response L → Response L
    post_process compression req resp =
        if not compression
        then resp
        else if is_some (L.get resp.headers "content-encoding")
        then resp
        else auto req.method req.headers (with_vary resp)
