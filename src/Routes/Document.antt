-- ===== src/Routes/Document.antt =====
-- Which routes documents are accepted, and what they become.
use Prim.Native.Char.{code}
use Prim.Native.String
use Prim.Native.String.{◌++◌ as ◌+++◌}
use mathlib.Core.List.{append_assoc, append-nil, map-append}
use weave_gate.Common.{
  String, ◌≡◌, refl, ◌↔◌, true, false, Option, none, some, List, [], ◌∷◌, ◌++◌, map, All,
  All-append, arith, Result, ok, err, ◌>>◌, ensure, >>=-eq-ok, ◌⊎◌, All-split, eqb, eqb_eq,
  Bool-cases, inl, inr, ap, ◌∙◌, sym,
}
use weave_gate.Common.Text.{contains, starts_with_char}
use weave_gate.Common.Text.Laws.{contains_sound, contains-append}
use weave_gate.Routes.{
  Proxy, RouteEntry, AppRoutes, RoutesDocument, validate_route_source, validate_prefix, to_proxy,
  push_routes, push_apps, into_proxy_defs, bad_prefix,
}

-- The text begins with a slash.
abbrev pub IsRooted : String → Type 0
IsRooted String.[] = ⊥
IsRooted (String.◌∷◌ c s) = code c ≡ b'/'

-- Two dots stand together somewhere in the text.
abbrev pub HasDots : String → Type 0
HasDots s = (a : String) × (b : String) × (s ≡ String.◌++◌ a (String.◌++◌ ".." b))

abbrev pub IsRootedIfGiven : Option String → Type 0
IsRootedIfGiven none = Unit
IsRootedIfGiven (some p) = IsRooted p

pub record IsValid (r : RouteEntry) : Type 0 where
  pub rooted : IsRooted r.source
  pub no_dots : ¬ HasDots r.source
  pub prefix : IsRootedIfGiven r.strip_prefix

-- the routes of all applications, in order
abbrev pub routes_of : List AppRoutes → List RouteEntry
routes_of [] = []
routes_of (a ∷ apps) = a.routes ++ routes_of apps

pub IsRooted-iff : (s : String) → (starts_with_char b'/' s ≡ true) ↔ IsRooted s
IsRooted-iff String.[] = (λ h. cc, λ h. elim h [ ])
IsRooted-iff (String.◌∷◌ c s) = (λ h. eqb_eq _ _ h, λ h. ground arith)

no_dots_iff : (s : String) → (contains s ".." ≡ false) ↔ (¬ HasDots s)
no_dots_iff s = (
  λ h (a, b, e). cc (h, contains-append a ".." b, ap (λ t. contains t "..") e),
  λ h. elim (Bool-cases (contains s "..")) [
    | inl t ↦ absurd (h (contains_sound s ".." t))
    | inr f ↦ f
  ],
)

pub prefix_iff :
    (o : Option String) (e : String) → (validate_prefix o e ≡ ok tt) ↔ IsRootedIfGiven o
unfolding validate_prefix
prefix_iff none e = (λ h. tt, λ h. refl)
prefix_iff (some p) e = (λ h. (IsRooted-iff p).0 (ground arith), λ h. rw ((IsRooted-iff p).1 h))

source_iff : (s : String) → (validate_route_source s ≡ ok tt) ↔ (IsRooted s × (¬ HasDots s))
unfolding validate_route_source
source_iff s = (
  λ h. ((IsRooted-iff s).0 (ground arith), (no_dots_iff s).0 (ground arith)),
  λ (r, d). rw ((IsRooted-iff s).1 r, (no_dots_iff s).1 d),
)

-- the two checks of one route
check : RouteEntry → Result (Unit {0})
check r = validate_route_source r.source >> validate_prefix r.strip_prefix bad_prefix

check_iff : (r : RouteEntry) → (check r ≡ ok tt) ↔ IsValid r
unfolding check
check_iff r = (
  λ h.
      let (u, e, f) = >>=-eq-ok (validate_route_source r.source) _ h in
      let (rooted, no_dots) = (source_iff r.source).0 e in
      record {
        rooted = rooted;
        no_dots = no_dots;
        prefix = (prefix_iff r.strip_prefix bad_prefix).0 f;
      },
  λ v.
      rw ((source_iff r.source).1 (v.rooted, v.no_dots))
        ((prefix_iff r.strip_prefix bad_prefix).1 v.prefix),
)

check_cases : (r : RouteEntry) → IsValid r ⊎ ((e : String) × (check r ≡ err e) × (¬ IsValid r))
check_cases r = go (check r) refl
  where
    go :
        (m : Result (Unit {0}))
        → check r ≡ m
        → IsValid r ⊎ ((e : String) × (check r ≡ err e) × (¬ IsValid r))
    go (ok u) e = inl ((check_iff r).0 e)
    go (err x) e = inr (x, e, λ v. cc ((check_iff r).1 v))

push_routes_step :
    (r : RouteEntry) (rs : List RouteEntry) (defs : List Proxy)
    → push_routes (r ∷ rs) defs ≡ (check r >> push_routes rs (defs ++ (to_proxy r ∷ [])))
unfolding push_routes check
push_routes_step r rs defs = ground arith

push_routes-ok :
    (rs : List RouteEntry) (defs : List Proxy)
    → All IsValid rs
    → push_routes rs defs ≡ ok (defs ++ map to_proxy rs)
push_routes-ok [] defs v = unfold push_routes in ap ok (sym (append-nil defs))
push_routes-ok (r ∷ rs) defs (v, vs) =
    rw (push_routes_step r rs defs, (check_iff r).1 v)
      (push_routes-ok rs (defs ++ (to_proxy r ∷ [])) vs
        ∙ ap ok (append_assoc defs (to_proxy r ∷ []) (map to_proxy rs)))

push_routes-IsValid :
    (rs : List RouteEntry) (defs out : List Proxy) → push_routes rs defs ≡ ok out → All IsValid rs
push_routes-IsValid [] defs out h = tt
push_routes-IsValid (r ∷ rs) defs out h =
    let (u, e, f) = >>=-eq-ok (check r) _ (sym (push_routes_step r rs defs) ∙ h) in
    ((check_iff r).0 e, push_routes-IsValid rs _ out f)

push_apps-ok :
    (apps : List AppRoutes) (defs : List Proxy)
    → All IsValid (routes_of apps)
    → push_apps apps defs ≡ ok (defs ++ map to_proxy (routes_of apps))
unfolding push_apps
push_apps-ok [] defs v = ap ok (sym (append-nil defs))
push_apps-ok (a ∷ apps) defs v =
    let (here, later) = All-split IsValid a.routes (routes_of apps) v in
    rw (push_routes-ok a.routes defs here) (
      push_apps-ok apps (defs ++ map to_proxy a.routes) later
      ∙ ap ok (
          append_assoc defs (map to_proxy a.routes) (map to_proxy (routes_of apps))
          ∙ ap (◌++◌ defs) (sym (map-append to_proxy a.routes (routes_of apps)))))

push_apps-IsValid :
    (apps : List AppRoutes) (defs out : List Proxy)
    → push_apps apps defs ≡ ok out
    → All IsValid (routes_of apps)
unfolding push_apps
push_apps-IsValid [] defs out h = tt
push_apps-IsValid (a ∷ apps) defs out h =
    let (mid, e, f) = >>=-eq-ok (push_routes a.routes defs) _ h in
    All-append IsValid a.routes (routes_of apps) (push_routes-IsValid a.routes defs mid e)
      (push_apps-IsValid apps mid out f)

-- A document is converted exactly when its version is 1 and every route of every application is
-- valid: its source begins with a slash and has no two dots together, and its prefix, if one is
-- given, begins with a slash. The result is then every route, in the document's order.
pub into_proxy_defs_iff :
    (doc : RoutesDocument) (defs : List Proxy)
    → (into_proxy_defs doc ≡ ok defs) ↔ (
        (doc.version ≡ 1)
        × All IsValid (routes_of doc.apps)
        × (defs ≡ map to_proxy (routes_of doc.apps)))
unfolding into_proxy_defs
into_proxy_defs_iff doc defs = (
  λ h.
      let (u, e, f) = >>=-eq-ok (ensure (eqb doc.version 1) _) _ h in
      let v = push_apps-IsValid doc.apps [] defs f in
      (ground arith, v, ground (arith, push_apps-ok doc.apps [] v)),
  λ (version, v, e). rw (version, push_apps-ok doc.apps [] v) (ap ok (sym e)),
)
