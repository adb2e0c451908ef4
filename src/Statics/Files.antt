-- ===== src/Statics/Files.antt =====
-- static_files.rs, `file_reply`: the reply with a file, over `response_body` of response.rs, whose
-- headers are put into a header map here. `Files` holds what belongs to the system and to crates: how
-- a file is opened, which gives its bytes and whether it can be positioned, the length and the time of
-- modification that metadata tell, the media type of a path, and the typed headers of a request and of a response.
pub mod Replied
pub mod Tests
use weave_gate.Common.{
  ℕ, String, Bool, true, false, Option, none, some, List, ◌⊎◌, inl, inr, and_then, unwrap_or,
  if◌then◌else◌,
}
use weave_gate.Common.Text.{decimal}
use weave_gate.Http.{Http}
use weave_gate.Listing.{ReadError, not_found, permission_denied, other_error}
use weave_gate.Ranges.{Dates, ConditionalHeaders, Range, FileResponse, Served, sent, response_body}
use weave_gate.Ranges
use weave_gate.Statics.{Reply, replied, failed}

-- an open file: its bytes, and whether a seek works
pub record File : Type 0 where
  pub content : List ℕ
  pub seek_works : Bool

pub record Files (L : Http) (Meta : Type 0) : Type 1 where
  pub dates : Dates
  pub SystemTime : Type 0
  pub open_file : String → ReadError ⊎ File
  pub len : Meta → ℕ
  pub modified : Meta → Option SystemTime
  pub is_epoch : SystemTime → Bool
  pub last_modified : SystemTime → dates.Time
  pub content_type : String → String
  pub if_modified_since : L.Headers → Option dates.Time
  pub if_unmodified_since : L.Headers → Option dates.Time
  pub if_range : L.Headers → Option dates.IfRange
  pub range : L.Headers → Option Range
  pub time_value : dates.Time → L.Value
  pub range_value : dates.ContentRange → L.Value
  pub body_of : List ℕ → String

module _ (L : Http) where
  -- `typed_insert`, if there is something to insert
  unfoldable pub insert_some : String → Option L.Value → L.Headers → L.Headers
  insert_some name none headers = headers
  insert_some name (some value) headers = L.insert headers name value

  abbrev pub map_some {ℓ} : {A : Type ℓ} → (A → L.Value) → Option A → Option L.Value
  map_some g o = and_then o (λ a. some (g a))

  abbrev pub bytes_value : Bool → Option L.Value
  bytes_value true = some (L.from_static "bytes")
  bytes_value false = none

module _ (L : Http) {Meta : Type 0} (f : Files L Meta) where
  -- `ConditionalHeaders::new`
  unfoldable pub new_conditionals : L.Headers → ConditionalHeaders f.dates
  new_conditionals headers = record {
    if_modified_since = f.if_modified_since headers;
    if_unmodified_since = f.if_unmodified_since headers;
    if_range = f.if_range headers;
    range = f.range headers;
  }

  -- without a time that is not valid
  unfoldable pub modified_of : Meta → Option f.dates.Time
  modified_of meta =
      and_then (f.modified meta) (λ t. if f.is_epoch t then none else some (f.last_modified t))

  -- the headers in the order of the source
  unfoldable pub header_map : FileResponse f.dates → L.Headers
  header_map r = insert_some L "last-modified" (map_some L f.time_value r.last_modified) (
      insert_some L "accept-ranges" (bytes_value L r.accept_ranges) (
        insert_some L "content-type" (map_some L L.from_static r.content_type) (
          insert_some L "content-length"
            (map_some L (λ n. L.from_static (decimal n)) r.content_length)
            (insert_some L "content-range" (map_some L f.range_value r.content_range) L.empty))))

  unfoldable pub as_reply : Served f.dates → Reply L
  as_reply (sent r) =
      replied (record { status = r.status; headers = header_map r; body = f.body_of r.body })
  as_reply (Ranges.failed status) = failed status

  unfoldable pub status_of_open : ReadError → ℕ
  status_of_open not_found = 404
  status_of_open permission_denied = 403
  status_of_open other_error = 500

  unfoldable pub file_reply : L.Headers → String → Meta → Option String → Reply L
  file_reply headers path meta path_precompressed =
      elim (f.open_file (unwrap_or path_precompressed path)) [
        | inl error ↦ failed (status_of_open error)
        | inr file ↦ as_reply (
            response_body f.dates (f.content_type path) (modified_of meta) (f.len meta) file.content
              file.seek_works (new_conditionals headers))
      ]
