-- ===== src/Pages.antt =====
-- error_page.rs, fallback_page.rs, maintenance_mode.rs, health.rs and the endpoint of metrics.rs:
-- the answers that the gateway makes itself. `files` gives the text of a regular file, `reason`
-- the reason phrase of a status, and `gathered` the text of the metrics' registry; they stand for
-- the file system and for the crates `http` and `prometheus`.
pub mod Head
pub mod Tests
use Prim.Native.String.{len, ◌++◌}
use weave_gate.Common.{
  ℕ, String, Bool, ◌&&◌, not, Option, none, some, List, [], ◌∷◌, ◌==◌, any, eqb, if◌then◌else◌,
}
use weave_gate.Common.Text.{trim, is_empty, decimal}
use weave_gate.Http.{Http, Request, Response}

-- http_ext.rs, `is_allowed`
unfoldable pub is_allowed : String → Bool
is_allowed method = any (λ m. m == method) ("OPTIONS" ∷ "HEAD" ∷ "GET" ∷ [])

abbrev pub client_errors : List ℕ
client_errors =
    400 ∷ 401 ∷ 402 ∷ 403 ∷ 404 ∷ 405 ∷ 406 ∷ 407 ∷ 408 ∷ 409 ∷ 410 ∷ 411 ∷ 412 ∷ 413 ∷ 414 ∷ 415
    ∷ 416 ∷ 417 ∷ []

abbrev pub server_errors : List ℕ
server_errors = 500 ∷ 501 ∷ 502 ∷ 503 ∷ 504 ∷ 505 ∷ 506 ∷ 507 ∷ 508 ∷ []

abbrev pub style : String
style = "html { color-scheme: light dark; } body { font-family: sans-serif; text-align: center; }"

-- what the `html!` template renders
unfoldable pub default_page : String → String
default_page title =
    "<!DOCTYPE html><html><head><meta charset=\"utf-8\"><meta name=\"viewport\" content=\"width=device-width,minimum-scale=1,initial-scale=1\"><title>"
    ++ (title
        ++ ("</title><style>"
            ++ (style ++ ("</style></head><body><h1>" ++ (title ++ "</h1></body></html>")))))

abbrev pub html : String
html = "text/html; charset=utf-8"

module _ (L : Http) where
  -- A page as the three functions build it: without its body for `HEAD`.
  unfoldable pub page_response : Bool → ℕ → String → Response L
  page_response is_head status content = record {
    status = status;
    headers =
        L.insert
          (L.insert (L.insert L.empty "content-type" (L.from_static html)) "content-length"
            (L.from_static (decimal (len content))))
          "accept-ranges" (L.from_static "bytes");
    body = if is_head then "" else content;
  }

  module _ (files : String → Option String) (reason : ℕ → String) where
    -- the trimmed text of a page's file, empty where it is no regular file
    unfoldable pub page_text : String → String
    page_text path = elim (files path) [ none ↦ "" | some text ↦ trim text ]

    -- the configured page for a status
    unfoldable pub configured_page : ℕ → String → String → String
    configured_page status page404 page50x =
        if any (λ e. eqb e status) client_errors
        then (if eqb status 404 then page_text page404 else "")
        else if any (λ e. eqb e status) server_errors
        then page_text page50x
        else ""

    unfoldable pub page_content : ℕ → String → String → String
    page_content status page404 page50x =
        let text = configured_page status page404 page50x in
        if is_empty text then default_page (decimal status ++ (" " ++ reason status)) else text

    unfoldable pub error_response : String → ℕ → String → String → Response L
    error_response method status page404 page50x =
        page_response (method == "HEAD") status (page_content status page404 page50x)

  -- maintenance_mode.rs: the file's text, or a default one
  unfoldable pub maintenance_content : (String → Option String) → (ℕ → String) → ℕ → String → String
  maintenance_content files reason status path = elim (files path) [
    | none ↦
        "<html><head><title>"
        ++ (decimal status
            ++ (" "
                ++ (reason status
                    ++ "</title></head><body><center><h1>The server is in maintenance mode.</h1></center></body></html>")))
    | some text ↦ trim text
  ]

  unfoldable pub get_response :
      (String → Option String) → (ℕ → String) → String → ℕ → String → Response L
  get_response files reason method status path =
      page_response (method == "HEAD") status (maintenance_content files reason status path)

  -- health.rs, `pre_process`
  unfoldable pub health_answer : Bool → Request L → Option (Response L)
  health_answer enabled req =
      let headers = L.insert L.empty "content-type" (L.from_static "text/html") in
      if not enabled
      then none
      else if not (L.path req.uri == "/health")
      then none
      else if req.method == "HEAD"
      then some (record { status = 200; headers = headers; body = "" })
      else if req.method == "GET"
      then some (record { status = 200; headers = headers; body = "OK" })
      else none

  -- metrics.rs, `pre_process`
  unfoldable pub metrics_answer : Bool → String → Request L → Option (Response L)
  metrics_answer enabled gathered req =
      if not enabled
      then none
      else if not (L.path req.uri == "/metrics")
      then none
      else if not (req.method == "GET") && not (req.method == "HEAD")
      then none
      else some (record {
        status = 200;
        headers = L.insert L.empty "content-type" (L.from_static "text/plain; charset=utf-8");
        body = if req.method == "GET" then gathered else "";
      })

  -- fallback_page.rs
  unfoldable pub fallback_response : String → Response L
  fallback_response page = record {
    status = 200;
    headers =
        L.insert
          (L.insert (L.insert L.empty "content-length" (L.from_static (decimal (len page))))
            "content-type" (L.from_static html))
          "accept-ranges" (L.from_static "bytes");
    body = page;
  }

  unfoldable pub fallback_answer : String → Request L → Response L → Response L
  fallback_answer page req resp =
      if (req.method == "GET") && (eqb resp.status 404 && not (is_empty page))
      then fallback_response page
      else resp
