-- ===== src/Statics/Files/Tests.antt =====
-- Runs of the reply with a file.
use weave_gate.Common.{
  ℕ, String, ◌≡◌, refl, Bool, true, false, ◌||◌, none, some, List, [], ◌∷◌, ◌==◌, eqb, inl, inr,
  if◌then◌else◌, is_some,
}
use weave_gate.Common.Text.{decimal}
use weave_gate.Http.{first_value}
use weave_gate.Http.Assoc.{assoc, drop_name}
use weave_gate.Listing.{not_found}
use weave_gate.Ranges.{
  included, requested, range_for, available, fails_unmodified, is_unmodified, answer_body,
  answer_range, bytes_range, check, response_body,
}
use weave_gate.Ranges.Tests.{seconds}
use weave_gate.Statics.{replied}
use weave_gate.Statics.Files.{
  Files, new_conditionals, modified_of, file_reply, header_map, insert_some, as_reply,
}

-- one file of four bytes with its variant
abbrev pub site : Files assoc Bool
site = record {
  dates = seconds;
  SystemTime = ℕ;
  open_file = λ path.
      if path == "/srv/www/docs/index.html" || path == "/srv/www/docs/index.html.gz"
      then inr (record { content = 1 ∷ 2 ∷ 3 ∷ 4 ∷ []; seek_works = true })
      else inl not_found;
  len = λ meta. if meta then 3 else 4;
  modified = λ meta. some 100;
  is_epoch = λ t. eqb t 0;
  last_modified = λ t. t;
  content_type = λ path. "text/html";
  if_modified_since = λ headers. none;
  if_unmodified_since = λ headers. none;
  if_range = λ headers. none;
  range = λ headers.
      if is_some (first_value "range" headers) then some ((included 1, included 2) ∷ []) else none;
  time_value = decimal;
  range_value = λ (r : ℕ × ℕ). decimal r.0;
  body_of = λ bytes. elim bytes [ [] ↦ "" | first ∷ rest ↦ decimal first ];
}

abbrev range_headers : List (String × String)
range_headers = ("range", "bytes=1-2") ∷ []

-- two of the four bytes
part_replied :
    file_reply assoc site range_headers "/srv/www/docs/index.html" false none
    ≡ replied (record {
      status = 206;
      headers =
          ("last-modified", "100")
          ∷ ("accept-ranges", "bytes")
          ∷ ("content-type", "text/html")
          ∷ ("content-length", "2")
          ∷ ("content-range", "1")
          ∷ [];
      body = "2";
    })
unfolding file_reply as_reply response_body check fails_unmodified new_conditionals is_unmodified
    answer_body bytes_range range_for first_value requested available answer_range header_map
    decimal insert_some modified_of drop_name
part_replied = refl

-- the variant has four bytes; with the metadata of a file of three, its last one is not sent
cut_off :
    file_reply assoc site [] "/srv/www/docs/index.html" true (some "/srv/www/docs/index.html.gz")
    ≡ replied (record {
      status = 200;
      headers =
          ("last-modified", "100")
          ∷ ("accept-ranges", "bytes")
          ∷ ("content-type", "text/html")
          ∷ ("content-length", "3")
          ∷ [];
      body = "1";
    })
unfolding file_reply as_reply response_body check fails_unmodified new_conditionals is_unmodified
    answer_body bytes_range range_for first_value requested available answer_range header_map
    decimal insert_some modified_of drop_name
cut_off = refl
