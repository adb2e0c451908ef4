-- ===== src/Http/Assoc.antt =====
-- A concrete header map and URI, which show that the interface's laws can be met, for the runs.
use Prim.Native.String.{◌++◌}
use weave_gate.Common.{
  ℕ, String, ◌≡◌, refl, Option, none, some, List, [], ◌∷◌, ◌==◌, eq_iff, arith, if◌then◌else◌,
}
use weave_gate.Common.Text.{strip_prefix, split_once, is_empty}
use weave_gate.Http.{Http, first_value}

unfoldable pub drop_name : String → List (String × String) → List (String × String)
drop_name k [] = []
drop_name k ((j, v) ∷ l) = if j == k then drop_name k l else (j, v) ∷ drop_name k l

pub first_value-nil : (j : String) → first_value {V = String} j [] ≡ none
unfolding first_value
first_value-nil j = refl

pub first_value-drop_name :
    (k j : String) (l : List (String × String))
    → first_value j (drop_name k l) ≡ (if k == j then none else first_value j l)
unfolding first_value drop_name
first_value-drop_name k j [] = ground arith
first_value-drop_name k j ((i, v) ∷ l) =
    ground (arith, eq_iff i k, eq_iff k j, eq_iff i j, first_value-drop_name k j l)

pub first_value-insert :
    (k j v : String) (l : List (String × String))
    → first_value j ((k, v) ∷ drop_name k l) ≡ (if k == j then some v else first_value j l)
unfolding first_value
first_value-insert k j v l = ground (arith, first_value-drop_name k j l)

pub record PlainUri : Type 0 where
  pub scheme : Option String
  pub authority : Option String
  pub host : Option String
  pub port : Option ℕ
  pub path : String
  pub query : Option String

-- the path and the query of what stands behind the authority
unfoldable pub with_path : Option String → Option String → String → PlainUri
with_path scheme authority rest = elim (split_once b'?' rest) [
  | none ↦ record {
    scheme = scheme;
    authority = authority;
    host = authority;
    port = none;
    path = rest;
    query = none;
  }
  | some (p, q) ↦ record {
    scheme = scheme;
    authority = authority;
    host = authority;
    port = none;
    path = p;
    query = some q;
  }
]

-- `scheme://authority/path?query`, or `/path?query`
unfoldable pub parse : String → Option PlainUri
unfolding with_path
parse s = elim (split_once b':' s) [
  | none ↦ if is_empty s then none else some (with_path none none s)
  | some (scheme, rest) ↦ elim (strip_prefix rest "//") [
    | none ↦ none
    | some after ↦ elim (split_once b'/' after) [
      | none ↦ some (with_path (some scheme) (some after) "")
      | some (authority, tail) ↦ some (with_path (some scheme) (some authority) ("/" ++ tail))
    ]
  ]
]

unfoldable pub whole_path : PlainUri → Option String
whole_path u = elim u.query [
  | none ↦ if is_empty u.path then none else some u.path
  | some q ↦ some (u.path ++ ("?" ++ q))
]

abbrev pub assoc : Http
assoc = record {
  Value = String;
  value_eq = ◌==◌;
  value_is_empty = is_empty;
  to_str = some;
  from_str = some;
  from_static = λ s. s;
  Headers = List (String × String);
  empty = [];
  get = λ h k. first_value k h;
  insert = λ h k v. (k, v) ∷ drop_name k h;
  remove = λ h k. drop_name k h;
  iter = λ h. h;
  Uri = PlainUri;
  parse_uri = parse;
  scheme_str = λ u. u.scheme;
  authority = λ u. u.authority;
  host = λ u. u.host;
  port = λ u. u.port;
  path = λ u. u.path;
  query = λ u. u.query;
  path_and_query = whole_path;
  get_empty = first_value-nil;
  get_insert = λ h k v j. first_value-insert k j v h;
  get_remove = λ h k j. first_value-drop_name k j h;
  get_iter = λ h j. refl;
}
