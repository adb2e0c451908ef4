-- ===== src/Ranges.antt =====
-- conditional_headers.rs and response.rs: whether a request for a file has an answer without a
-- body, and which bytes of the file the answer holds. A file is the list of its bytes, and its length
-- what its metadata give. The typed
-- headers and their comparisons belong to the crate `headers` and are the parameter `Dates`;
-- an excluded bound, which its ranges do not have and for which the code panics, is left out.
pub mod Bytes
pub mod Answers
pub mod Tests
use weave_gate.Common.{
  ℕ, ◌+◌, ◌-◌, ◌%◌, ◌^◌, String, Bool, true, false, ◌&&◌, not, Option, none, some, List, [], ◌∷◌,
  ltb, leb, eqb, and_then, if◌then◌else◌, take, drop,
}

-- 2 ^ 64, for `u64`
abbrev pub u64_mod : ℕ
u64_mod = 2 ^ 64

pub data Bound : Type 0 where
  unbounded : Bound
  included : ℕ → Bound

-- what `range.iter()` gives
abbrev pub Range : Type 0
Range = List (Bound × Bound)

-- the bytes that one range asks for; `none` stands for `BadRangeError`
unfoldable pub requested : ℕ → Bound × Bound → Option (ℕ × ℕ)
requested max_len (unbounded, unbounded) = some (0, max_len)
requested max_len (included a, included b) =
    if ltb b a then none else some (a, if eqb b max_len then b else (b + 1) % u64_mod)
requested max_len (included a, unbounded) = some (a, max_len)
requested max_len (unbounded, included b) =
    if ltb max_len b then some (0, max_len) else some (max_len - b, max_len)

-- ... and those of them that there are
unfoldable pub available : ℕ → ℕ × ℕ → Option (ℕ × ℕ)
available max_len (start, end) =
    if ltb start end && leb end max_len
    then some (start, end)
    else if ltb start end && leb start max_len
    then some (start, max_len)
    else none

-- only the first range counts
unfoldable pub bytes_range : Option Range → ℕ → Option (ℕ × ℕ)
bytes_range none max_len = some (0, max_len)
bytes_range (some []) max_len = none
bytes_range (some (range ∷ ranges)) max_len = and_then (requested max_len range) (available max_len)

-- The typed headers: `precondition_passes` of `If-Unmodified-Since`, `is_modified` of
-- `If-Modified-Since` and of `If-Range`, and `ContentRange::bytes`, which takes a start, the end
-- behind the last byte and the length.
pub record Dates : Type 1 where
  pub Time : Type 0
  pub IfRange : Type 0
  pub ContentRange : Type 0
  pub precondition_passes : Time → Time → Bool
  pub is_modified : Time → Time → Bool
  pub range_is_modified : IfRange → Option Time → Bool
  pub content_range : ℕ → ℕ → ℕ → Option ContentRange
  pub unsatisfied_bytes : ℕ → ContentRange

pub record ConditionalHeaders (D : Dates) : Type 0 where
  pub if_modified_since : Option D.Time
  pub if_unmodified_since : Option D.Time
  pub if_range : Option D.IfRange
  pub range : Option Range

-- an answer with its status alone, or one with a body
pub data ConditionalBody : Type 0 where
  no_body : ℕ → ConditionalBody
  with_body : Option Range → ConditionalBody

-- the headers that `response_body` sets
pub record FileResponse (D : Dates) : Type 0 where
  pub status : ℕ
  pub body : List ℕ
  pub content_range : Option D.ContentRange
  pub content_length : Option ℕ
  pub content_type : Option String
  pub accept_ranges : Bool
  pub last_modified : Option D.Time

-- `Result<Response, StatusCode>`
pub data Served (D : Dates) : Type 0 where
  sent : FileResponse D → Served D
  failed : ℕ → Served D

module _ (D : Dates) where
  -- `last_modified.map(…).unwrap_or(false)`
  abbrev pub holds_for : (D.Time → Bool) → Option D.Time → Bool
  holds_for test none = false
  holds_for test (some time) = test time

  -- the first check: 412 where the file changed since
  unfoldable pub fails_unmodified : Option D.Time → Option D.Time → Bool
  fails_unmodified none last_modified = false
  fails_unmodified (some since) last_modified =
      not (holds_for (λ time. D.precondition_passes since time) last_modified)

  -- the second check: 304 where the file did not change since
  unfoldable pub is_unmodified : Option D.Time → Option D.Time → Bool
  is_unmodified none last_modified = false
  is_unmodified (some since) last_modified =
      holds_for (λ time. not (D.is_modified since time)) last_modified

  -- the third check: the range counts only for the version that the client knows
  unfoldable pub range_for : Option D.IfRange → Option D.Time → Option Range → Option Range
  range_for none last_modified range = range
  range_for (some if_range) last_modified range =
      if D.range_is_modified if_range last_modified then none else range

  unfoldable pub check : ConditionalHeaders D → Option D.Time → ConditionalBody
  check c last_modified =
      if fails_unmodified c.if_unmodified_since last_modified
      then no_body 412
      else if is_unmodified c.if_modified_since last_modified
      then no_body 304
      else with_body (range_for c.if_range last_modified c.range)

  -- a response without headers
  abbrev pub bare : ℕ → FileResponse D
  bare status = record {
    status = status;
    body = [];
    content_range = none;
    content_length = none;
    content_type = none;
    accept_ranges = false;
    last_modified = none;
  }

  abbrev pub not_satisfiable : ℕ → FileResponse D
  not_satisfiable len = record (bare 416) { content_range = some (D.unsatisfied_bytes len) }

  -- `len` is the length that the metadata give, and `content` what the open file holds
  module _ (content_type : String) (modified : Option D.Time) (len : ℕ) (content : List ℕ) where
    abbrev pub filled : ℕ → Option D.ContentRange → ℕ → ℕ → FileResponse D
    filled status range start sub_len = record {
      status = status;
      body = take sub_len (drop start content);
      content_range = range;
      content_length = some sub_len;
      content_type = some content_type;
      accept_ranges = true;
      last_modified = modified;
    }

    -- the answer with the bytes from `start` to `end`
    unfoldable pub answer_range : Bool → ℕ × ℕ → Served D
    answer_range seek_works (start, end) =
        let sub_len = end - start in
        if not seek_works
        then failed 500
        else if eqb sub_len len
        then sent (filled 200 none start len)
        else elim (D.content_range start end len) [
          | none ↦ sent (not_satisfiable len)
          | some range ↦ sent (filled 206 (some range) start sub_len)
        ]

    unfoldable pub answer_body : Bool → Option Range → Served D
    answer_body seek_works range = elim (bytes_range range len) [
      | none ↦ sent (not_satisfiable len)
      | some part ↦ answer_range seek_works part
    ]

    unfoldable pub response_body : Bool → ConditionalHeaders D → Served D
    response_body seek_works conditionals = elim (check conditionals modified) [
      | no_body status ↦ sent (bare status)
      | with_body range ↦ answer_body seek_works range
    ]
