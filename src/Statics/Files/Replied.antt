-- ===== src/Statics/Files/Replied.antt =====
-- What the reply with a file is.
use weave_gate.Common.{
  ℕ, String, ◌≡◌, false, Option, none, or_else, ◌==◌, if◌then◌else◌, All, [], ◌∷◌,
}
use weave_gate.Common.Text.{decimal}
use weave_gate.Http.{Http, Response}
use weave_gate.Ranges.{FileResponse, Served, sent}
use weave_gate.Ranges
use weave_gate.Statics.{Reply, replied, failed}
use weave_gate.Statics.Files.{Files, map_some, bytes_value}

module _ (L : Http) where
  abbrev layer : String → Option L.Value → Option L.Value → String → Option L.Value
  layer k o rest j = if k == j then or_else o rest else rest

module _ (L : Http) {Meta : Type 0} (f : Files L Meta) where
  -- The headers of a response: those that were set, under their names, and no other.
  pub record HasHeaders (r : FileResponse f.dates) (headers : L.Headers) : Type 0 where
    pub content_range : L.get headers "content-range" ≡ map_some L f.range_value r.content_range
    pub content_length :
        L.get headers "content-length"
        ≡ map_some L (λ n. L.from_static (decimal n)) r.content_length
    pub content_type : L.get headers "content-type" ≡ map_some L L.from_static r.content_type
    pub accept_ranges : L.get headers "accept-ranges" ≡ bytes_value L r.accept_ranges
    pub last_modified : L.get headers "last-modified" ≡ map_some L f.time_value r.last_modified
    pub no_other :
        (j : String)
        → All
            (λ k. (k == j) ≡ false)
            ("content-range" ∷ "content-length" ∷ "content-type" ∷ "accept-ranges" ∷ "last-modified"
              ∷ [])
        → L.get headers j ≡ none

  layered : FileResponse f.dates → String → Option L.Value
  layered r j =
      layer L "last-modified" (map_some L f.time_value r.last_modified)
        (layer L "accept-ranges" (bytes_value L r.accept_ranges)
          (layer L "content-type" (map_some L L.from_static r.content_type)
            (layer L "content-length" (map_some L (λ n. L.from_static (decimal n)) r.content_length)
              (layer L "content-range" (map_some L f.range_value r.content_range) none j) j)
            j)
          j)
        j

  -- the reply that shows what `response_body` gives
  pub data IsReply : Served f.dates → Reply L → Type 0 where
    shown :
        (r : FileResponse f.dates) (resp : Response L)
        → resp.status ≡ r.status
        → resp.body ≡ f.body_of r.body
        → HasHeaders r resp.headers
        → IsReply (sent r) (replied resp)
    broken : (status : ℕ) → IsReply (Ranges.failed status) (failed status)
