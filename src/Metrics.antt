-- ===== src/Metrics.antt =====
-- metrics.rs, the instrumentation, with its calls in `RequestHandler::handle` (handler.rs) and in
-- service.rs. The collectors belong to the crate prometheus: a call of one is an `Op`, and the
-- program's effect the list of its calls. `Time` is the type of a duration.
pub mod Accounted
mod Tests
use weave_gate.Common.{
  ℕ, suc, ◌+◌, ◌/◌, ◌^◌, ◌≡◌, String, Bool, true, false, not, Option, none, some, List, [], ◌∷◌,
  ◌++◌, ◌==◌, eqb, and_then, unwrap_or, if◌then◌else◌,
}
use weave_gate.Common.Text.{parse_uint}
use weave_gate.Http.{Http, Request, Response}

pub record Labels : Type 0 where
  pub method : String
  pub status : String
  pub host : String

-- a call of a collector
pub data Op (Time : Type 0) : Type 0 where
  inc_inflight dec_inflight inc_connections dec_connections : Op Time
  inc_requests : Labels → Op Time
  observe_duration : Labels → Time → Op Time
  add_bytes : Labels → ℕ → Op Time

unfoldable pub status_class : ℕ → String
status_class code =
    if eqb (code / 100) 1
    then "1xx"
    else if eqb (code / 100) 2
    then "2xx"
    else if eqb (code / 100) 3
    then "3xx"
    else if eqb (code / 100) 4
    then "4xx"
    else "5xx"

module _ (L : Http) (Time : Type 0) where
  unfoldable pub labels_of : Request L → ℕ → Labels
  labels_of req status = record {
    method = req.method;
    status = status_class status;
    host = unwrap_or (and_then (L.get req.headers "host") L.to_str) "";
  }

  unfoldable pub record_request : Request L → ℕ → ℕ → Time → List (Op Time)
  record_request req status bytes elapsed =
      if L.path req.uri == "/metrics"
      then []
      else inc_requests (labels_of req status)
        ∷ observe_duration (labels_of req status) elapsed
        ∷ (if not (eqb bytes 0) then add_bytes (labels_of req status) bytes ∷ [] else [])

  -- the bytes that `handle` reports
  unfoldable pub content_length : Response L → ℕ
  content_length resp =
      unwrap_or
        (and_then (and_then (L.get resp.headers "content-length") L.to_str) (parse_uint (2 ^ 64))) 0

  -- what `handle` does before and after the answer, `none` being an error
  unfoldable pub on_arrival : Bool → List (Op Time)
  on_arrival enabled = if enabled then inc_inflight ∷ [] else []

  unfoldable pub on_end : Bool → Request L → Option (Response L) → Time → List (Op Time)
  on_end false req result elapsed = []
  on_end true req none elapsed = dec_inflight ∷ []
  on_end true req (some resp) elapsed =
      dec_inflight ∷ record_request req resp.status (content_length resp) elapsed

  -- a service of a connection, made and dropped
  abbrev pub new_service : List (Op Time)
  new_service = inc_connections ∷ []

  abbrev pub dropped_service : List (Op Time)
  dropped_service = dec_connections ∷ []

  -- The server as its collectors see it: the open connections, the requests on their way, those whose
  -- future was dropped before its end, the answers, and all calls so far.
  pub record Traffic : Type 0 where
    pub connections : ℕ
    pub inflight : ℕ
    pub cancelled : ℕ
    pub answers : List (Request L × Response L)
    pub ops : List (Op Time)

  -- the states that are reached, with each step's calls at the end
  pub data Course (enabled : Bool) : Traffic → Type 0 where
    started :
        Course enabled
          (record { connections = 0; inflight = 0; cancelled = 0; answers = []; ops = [] })
    connected :
        {s t : Traffic}
        → Course enabled s
        → t ≡ record s { connections = s.connections + 1; ops = s.ops ++ new_service }
        → Course enabled t
    disconnected :
        {s t : Traffic} {n : ℕ}
        → Course enabled s
        → s.connections ≡ suc n
        → t ≡ record s { connections = n; ops = s.ops ++ dropped_service }
        → Course enabled t
    arrived :
        {s t : Traffic}
        → Course enabled s
        → t ≡ record s { inflight = s.inflight + 1; ops = s.ops ++ on_arrival enabled }
        → Course enabled t
    answered :
        {s t : Traffic} {n : ℕ}
        → Course enabled s
        → s.inflight ≡ suc n
        → (req : Request L) (resp : Response L) (elapsed : Time)
        → t ≡ record s {
          inflight = n;
          answers = (req, resp) ∷ s.answers;
          ops = s.ops ++ on_end enabled req (some resp) elapsed;
        }
        → Course enabled t
    failed :
        {s t : Traffic} {n : ℕ}
        → Course enabled s
        → s.inflight ≡ suc n
        → (req : Request L) (elapsed : Time)
        → t ≡ record s { inflight = n; ops = s.ops ++ on_end enabled req none elapsed }
        → Course enabled t
    -- the client goes away, and the future of `handle` is dropped where it waits
    cancelled :
        {s t : Traffic} {n : ℕ}
        → Course enabled s
        → s.inflight ≡ suc n
        → t ≡ record s { inflight = n; cancelled = s.cancelled + 1 }
        → Course enabled t
