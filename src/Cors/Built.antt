-- ===== src/Cors/Built.antt =====
-- cors.rs, `new` and `init`: what the settings make of the check. A name or an origin that is none
-- ends the program. `try_from_parts` gives the header value of an origin of a scheme and the rest, and
-- `header_of` the typed header for the names of a set. The set of origins, which is only asked for
-- its members, is a list that may name one twice.
pub mod Members
use weave_gate.Common.{
  String, Option, none, some, List, [], ◌∷◌, ◌++◌, ◌==◌, any, map, and_then, if◌then◌else◌,
}
use weave_gate.Common.Text.{split, trim, is_empty, strip_prefix}
use weave_gate.Http.{Http}
use weave_gate.Cors.{Cors, Configured}

-- the configured check, or none, unless a panic ended the construction
pub data Build (L : Http) : Type 0 where
  panicked : Build L
  built : Option (Configured L) → Build L

-- `self.splitn(2, "://")`: none where the second part is missing
unfoldable pub split_scheme : String → Option (String × String)
split_scheme String.[] = none
split_scheme (String.◌∷◌ ch s) = elim (strip_prefix (String.◌∷◌ ch s) "://") [
  | some rest ↦ some ("", rest)
  | none ↦ elim (split_scheme s) [ none ↦ none | some (a, b) ↦ some (String.◌∷◌ ch a, b) ]
]

-- the names of a setting, or the default ones
unfoldable pub name_parts : String → List String
name_parts s = if is_empty s then "origin" ∷ "content-type" ∷ [] else map trim (split b',' s)

-- `HashSet::insert` and `HashSet::extend`
unfoldable pub add_member : List String → String → List String
add_member set n = if any (λ m. m == n) set then set else set ++ (n ∷ [])

unfoldable pub extend : List String → List String → List String
extend set [] = set
extend set (n ∷ ns) = extend (add_member set n) ns

module _ {ℓ κ} {A : Type ℓ} {B : Type κ} where
  -- a `map` whose function may panic
  unfoldable pub map_all : (A → Option B) → List A → Option (List B)
  map_all f [] = some []
  map_all f (x ∷ xs) = and_then (f x) (λ y. and_then (map_all f xs) (λ ys. some (y ∷ ys)))

module _ (L : Http) (name_of : String → Option String)
    (try_from_parts : String → String → Option L.Value) (header_of : List String → L.Value) where
  unfoldable pub into_origin : String → Option L.Value
  into_origin s = and_then (split_scheme s) (λ (p : String × String). try_from_parts p.0 p.1)

  -- `allow_headers` and `expose_headers` on an empty set
  unfoldable pub name_set : String → Option (List String)
  name_set setting =
      and_then (map_all name_of (name_parts setting)) (λ names. some (extend [] names))

  -- `build`
  unfoldable pub build : Cors L → Configured L
  build cors = record {
    cors = cors;
    allowed_headers = header_of cors.allowed_headers;
    exposed_headers = header_of cors.exposed_headers;
    methods_header = header_of cors.allowed_methods;
  }

  -- `allow_any_origin` or `allow_origins`
  unfoldable pub origin_set : String → Option (Option (List L.Value))
  origin_set origins_str =
      if origins_str == "*"
      then some none
      else and_then (map_all into_origin (map trim (split b',' origins_str))) (λ os. some (some os))

  unfoldable pub new_cors : String → String → String → Option (Cors L)
  new_cors origins_str allow_headers_str expose_headers_str =
      and_then (origin_set origins_str) (λ origins.
        and_then (name_set allow_headers_str) (λ allowed.
          and_then (name_set expose_headers_str) (λ exposed. some (record {
            allowed_headers = allowed;
            exposed_headers = exposed;
            max_age = none;
            allowed_methods = extend [] ("GET" ∷ "HEAD" ∷ "OPTIONS" ∷ []);
            origins = origins;
          }))))

  unfoldable pub new : String → String → String → Build L
  new origins_str allow_headers_str expose_headers_str =
      if is_empty origins_str
      then built none
      else elim (new_cors origins_str allow_headers_str expose_headers_str) [
        | none ↦ panicked
        | some cors ↦ built (some (build cors))
      ]

  unfoldable pub init : String → String → String → Build L
  init origins allow_headers expose_headers =
      new (trim origins) (trim allow_headers) (trim expose_headers)
