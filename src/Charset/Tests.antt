-- ===== src/Charset/Tests.antt =====
-- Runs of the default charset.
use weave_gate.Common.{
  String, ◌≡◌, ◌⊎◌, refl, true, false, Option, none, some, [], ◌∷◌, ◌==◌, if◌then◌else◌, Bool,
}
use weave_gate.Common.Text.{contains, trim_end, trim_end_matches, strip_prefix}
use weave_gate.Common.Text.Laws.{contains-append}
use weave_gate.Common.{arith}
use weave_gate.Http.{Response, first_value}
use weave_gate.Http.Assoc.{assoc, drop_name}
use weave_gate.Charset.{
  Mime, contains_text_only, wants_charset, with_charset, charset_text, new_header, post_process,
}
use weave_gate.Charset.Declared.{Laws, IsDeclared, IsKept, post_process-declares}

-- enough of the parser of media types for the runs
abbrev pub some_type : String → Bool → Mime
some_type s charset = record {
  type_name = "text";
  suffix = none;
  essence = s;
  has_charset = charset;
}

abbrev pub parse_mime : String → Option Mime
parse_mime s =
    if contains s "; charset=utf-8"
    then some (some_type "text/html" true)
    else if s == "text/html"
    then some (some_type "text/html" false)
    else if s == "application/rss+xml"
    then some (record {
      type_name = "application";
      suffix = some "xml";
      essence = "application/rss+xml";
      has_charset = false;
    })
    else none

laws : Laws assoc parse_mime
unfolding with_charset
laws = record { to_str-from_str = λ s v h. cc; parsed_charset = parsed }
  where
    parsed : (s : String) (m : Mime) → parse_mime (with_charset s) ≡ some m → m.has_charset ≡ true
    parsed s m h =
        ground (arith, contains-append (trim_end_matches b';' (trim_end s)) "; charset=utf-8" "", h)

abbrev page : Response assoc
page = record { status = 200; headers = ("content-type", "text/html") ∷ []; body = "" }

declared :
    post_process assoc parse_mime true page
    ≡ record page { headers = ("content-type", "text/html; charset=utf-8") ∷ [] }
unfolding post_process new_header charset_text wants_charset contains_text_only with_charset
    trim_end trim_end_matches contains first_value strip_prefix drop_name
declared = refl

-- The listed types that are not of the type `text` get no charset.
feed :
    post_process assoc parse_mime true
      (record page { headers = ("content-type", "application/rss+xml") ∷ [] })
    ≡ record page { headers = ("content-type", "application/rss+xml") ∷ [] }
unfolding post_process new_header charset_text wants_charset contains_text_only contains first_value
    strip_prefix
feed = refl

post_process-declares_example :
    ((IsKept assoc parse_mime page × (post_process assoc parse_mime true page ≡ page))
      ⊎ ((value : String) × IsDeclared assoc parse_mime page value
          × (post_process assoc parse_mime true page
              ≡ record page { headers = assoc.insert page.headers "content-type" value })))
    × (post_process assoc parse_mime true (post_process assoc parse_mime true page)
        ≡ post_process assoc parse_mime true page)
    × (post_process assoc parse_mime false page ≡ page)
post_process-declares_example = post_process-declares assoc parse_mime laws page
