-- ===== src/Routes.antt =====
-- routes/document.rs: the routes document of the control plane, its validation and its
-- conversion to proxy definitions (settings/file.rs, `Proxy`). An error is its message without
-- the values that the program formats into it.
pub mod Document
pub mod Bootstrap
mod Tests
use weave_gate.Common.{
  ℕ, String, Option, none, some, List, [], ◌∷◌, ◌++◌, eqb, not, Result, ok, ◌>>=◌, ◌>>◌, ensure,
}
use weave_gate.Common.Text.{contains, starts_with_char}

-- settings/file.rs
pub record Proxy : Type 0 where
  pub name : Option String
  pub host : Option String
  pub source : String
  pub target : Option String
  pub targets : Option (List String)
  pub strip_prefix : Option String

pub record RouteEntry : Type 0 where
  pub name : Option String
  pub host : Option String
  pub source : String
  pub target : Option String
  pub targets : Option (List String)
  pub strip_prefix : Option String

pub record AppRoutes : Type 0 where
  pub id : String
  pub routes : List RouteEntry

pub record RoutesDocument : Type 0 where
  pub version : ℕ
  pub apps : List AppRoutes

abbrev pub bad_version : String
bad_version = "routes bootstrap: unsupported document version"

abbrev pub bad_source : String
bad_source = "routes bootstrap: source must start with '/'"

abbrev pub dotted_source : String
dotted_source = "routes bootstrap: source must not contain '..'"

abbrev pub bad_prefix : String
bad_prefix = "routes bootstrap: strip-prefix must start with '/'"

unfoldable pub validate_route_source : String → Result (Unit {0})
validate_route_source source = do
  ensure (starts_with_char b'/' source) bad_source
  ensure (not (contains source "..")) dotted_source

-- `if let Some(ref prefix) = route.strip_prefix { if !prefix.starts_with('/') … }`
unfoldable pub validate_prefix : Option String → String → Result (Unit {0})
validate_prefix none e = ok tt
validate_prefix (some p) e = ensure (starts_with_char b'/' p) e

-- the value that is pushed for a route
abbrev pub to_proxy : RouteEntry → Proxy
to_proxy r = record {
  name = r.name;
  host = r.host;
  source = r.source;
  target = r.target;
  targets = r.targets;
  strip_prefix = r.strip_prefix;
}

-- the loop over the routes of one application, which pushes to `defs`
push_routes : List RouteEntry → List Proxy → Result (List Proxy)
unfolding validate_route_source validate_prefix
push_routes [] defs = ok defs
push_routes (r ∷ rs) defs = do
  validate_route_source r.source
  validate_prefix r.strip_prefix bad_prefix
  push_routes rs (defs ++ (to_proxy r ∷ []))

-- the loop over the applications
push_apps : List AppRoutes → List Proxy → Result (List Proxy)
unfolding push_routes
push_apps [] defs = ok defs
push_apps (a ∷ apps) defs = do defs' ← push_routes a.routes defs; push_apps apps defs'

unfoldable pub into_proxy_defs : RoutesDocument → Result (List Proxy)
unfolding push_apps
into_proxy_defs doc = do ensure (eqb doc.version 1) bad_version; push_apps doc.apps []
