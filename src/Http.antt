-- ===== src/Http.antt =====
-- The crates `http` and `headers`, which the program calls and does not contain: header maps,
-- header values and URIs stand behind an interface of operations with their documented laws.
-- Requests and responses are records over it. A method is its text and a status its number; a
-- header name is its text in lower case, as the crate keeps it.
pub mod Assoc
use weave_gate.Common.{
  ℕ, String, ◌≡◌, Bool, Option, none, some, List, [], ◌∷◌, ◌==◌, if◌then◌else◌, is_some,
}

-- the first value under a name
unfoldable pub first_value {ℓ} : {V : Type ℓ} → String → List (String × V) → Option V
first_value j [] = none
first_value j ((k, v) ∷ l) = if k == j then some v else first_value j l

pub record Http : Type 1 where
  -- `HeaderValue`
  pub Value : Type 0
  pub value_eq : Value → Value → Bool
  pub value_is_empty : Value → Bool
  pub to_str : Value → Option String
  pub from_str : String → Option Value
  pub from_static : String → Value
  -- `HeaderMap`
  pub Headers : Type 0
  pub empty : Headers
  pub get : Headers → String → Option Value
  pub insert : Headers → String → Value → Headers
  pub remove : Headers → String → Headers
  pub iter : Headers → List (String × Value)
  -- `Uri`
  pub Uri : Type 0
  pub parse_uri : String → Option Uri
  pub scheme_str : Uri → Option String
  pub authority : Uri → Option String
  pub host : Uri → Option String
  pub port : Uri → Option ℕ
  pub path : Uri → String
  pub query : Uri → Option String
  pub path_and_query : Uri → Option String
  -- what the documentation of `HeaderMap` says
  pub get_empty : (j : String) → get empty j ≡ none
  pub get_insert :
      (h : Headers) (k : String) (v : Value) (j : String)
      → get (insert h k v) j ≡ (if k == j then some v else get h j)
  pub get_remove :
      (h : Headers) (k j : String) → get (remove h k) j ≡ (if k == j then none else get h j)
  pub get_iter : (h : Headers) (j : String) → get h j ≡ first_value j (iter h)

module _ (L : Http) where
  -- `headers.contains_key(k)`
  abbrev pub contains_key : L.Headers → String → Bool
  contains_key h k = is_some (L.get h k)

-- `Request<Body>`
pub record Request (L : Http) : Type 0 where
  pub method : String
  pub uri : L.Uri
  pub headers : L.Headers
  pub body : String

-- `Response<Body>`
pub record Response (L : Http) : Type 0 where
  pub status : ℕ
  pub headers : L.Headers
  pub body : String
