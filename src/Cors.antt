-- ===== src/Cors.antt =====
-- cors.rs: the check of cross-origin requests, and the two steps of the handler that use it.
-- The sets of names are lists, and the three typed headers that `build` makes of them are values.
-- `Method::from_bytes` and `HeaderName::from_bytes` are the parameters `method_of` and `name_of`.
pub mod Checked
pub mod Answered
pub mod Built
mod Tests
use weave_gate.Common.{
  ℕ, String, Bool, true, false, not, Option, none, some, List, [], ◌∷◌, ◌==◌, any, all, is_nil,
  if◌then◌else◌,
}
use weave_gate.Common.Text.{split, trim, is_empty, decimal}
use weave_gate.Http.{Http, Request, Response}

pub record Cors (L : Http) : Type 0 where
  pub allowed_headers : List String
  pub exposed_headers : List String
  pub max_age : Option ℕ
  pub allowed_methods : List String
  pub origins : Option (List L.Value)

pub record Configured (L : Http) : Type 0 where
  pub cors : Cors L
  pub allowed_headers : L.Value
  pub exposed_headers : L.Value
  pub methods_header : L.Value

pub data Validated (L : Http) : Type 0 where
  preflight : L.Value → Validated L
  simple : L.Value → Validated L
  not_cors : Validated L

pub data Forbidden : Type 0 where
  forbidden_origin forbidden_method forbidden_header : Forbidden

-- `Result<(HeaderMap, Validated), Forbidden>`
pub data CheckResult (L : Http) : Type 0 where
  valid : L.Headers → Validated L → CheckResult L
  forbidden : Forbidden → CheckResult L

module _ (L : Http) (method_of : L.Value → Option String) (name_of : String → Option String) where
  unfoldable pub is_method_allowed : Configured L → L.Value → Bool
  is_method_allowed c value = elim (method_of value) [
    | none ↦ false
    | some method ↦ any (λ m. m == method) c.cors.allowed_methods
  ]

  unfoldable pub is_header_allowed : Configured L → String → Bool
  is_header_allowed c text = if is_empty text then false else elim (name_of text) [
    | none ↦ false
    | some name ↦ any (λ n. n == name) c.cors.allowed_headers
  ]

  unfoldable pub is_origin_allowed : Configured L → L.Value → Bool
  is_origin_allowed c value = if L.value_is_empty value then false else elim c.cors.origins [
    | none ↦ true
    | some origins ↦ any (λ o. L.value_eq o value) origins
  ]

  unfoldable pub append_preflight_headers : Configured L → L.Headers → L.Headers
  append_preflight_headers c headers =
      let h₁ = L.insert headers "access-control-allow-headers" c.allowed_headers in
      let h₂ = L.insert h₁ "access-control-expose-headers" c.exposed_headers in
      let h₃ = L.insert h₂ "access-control-allow-methods" c.methods_header in
      elim c.cors.max_age [
        | none ↦ h₃
        | some max_age ↦ L.insert h₃ "access-control-max-age" (L.from_static (decimal max_age))
      ]

  -- the headers of a valid request with an origin
  unfoldable pub cors_headers : Configured L → L.Value → L.Headers
  cors_headers c value =
      L.insert (append_preflight_headers c L.empty) "access-control-allow-origin" value

  -- `Access-Control-Request-Method`, which a preflight request must have
  unfoldable pub requested_method_allowed : Configured L → Option L.Value → Bool
  requested_method_allowed c none = false
  requested_method_allowed c (some value) = is_method_allowed c value

  -- `Access-Control-Request-Headers`, which may be missing
  unfoldable pub requested_headers_allowed : Configured L → Option L.Value → Bool
  requested_headers_allowed c none = true
  requested_headers_allowed c (some value) = elim (L.to_str value) [
    | none ↦ false
    | some text ↦ all (λ part. is_header_allowed c (trim part)) (split b',' text)
  ]

  unfoldable pub check_preflight : Configured L → L.Value → L.Headers → CheckResult L
  check_preflight c value headers =
      if not (is_origin_allowed c value)
      then forbidden forbidden_origin
      else if not (requested_method_allowed c (L.get headers "access-control-request-method"))
      then forbidden forbidden_method
      else if not (requested_headers_allowed c (L.get headers "access-control-request-headers"))
      then forbidden forbidden_header
      else valid (cors_headers c value) (preflight value)

  unfoldable pub check_simple : Configured L → L.Value → CheckResult L
  check_simple c value =
      if is_origin_allowed c value
      then valid (cors_headers c value) (simple value)
      else forbidden forbidden_origin

  unfoldable pub check_request : Configured L → String → L.Headers → CheckResult L
  check_request c method headers = elim (L.get headers "origin") [
    | none ↦ valid L.empty not_cors
    | some value ↦
        if method == "OPTIONS" then check_preflight c value headers else check_simple c value
  ]

  -- `pre_process`: whether the request is answered by the page for 403
  unfoldable pub rejects : Option (Configured L) → Request L → Bool
  rejects none req = false
  rejects (some c) req = elim (check_request c req.method req.headers) [
    | valid headers state ↦ false
    | forbidden reason ↦ true
  ]

  -- the loop of `post_process`
  unfoldable pub insert_all : List (String × L.Value) → L.Headers → L.Headers
  insert_all [] dst = dst
  insert_all ((name, value) ∷ src) dst = insert_all src (L.insert dst name value)

  -- the headers of a response to a request for which the check gave `headers`
  unfoldable pub add_headers : L.Headers → L.Headers → L.Headers
  add_headers headers dst =
      if is_nil (L.iter headers)
      then dst
      else L.remove (L.insert (insert_all (L.iter headers) dst) "vary" (L.from_static "origin"))
          "allow"

  unfoldable pub post_process : Option (Configured L) → Request L → Response L → Response L
  post_process none req resp = resp
  post_process (some c) req resp = elim (check_request c req.method req.headers) [
    | valid headers state ↦ record resp { headers = add_headers headers resp.headers }
    | forbidden reason ↦ resp
  ]
