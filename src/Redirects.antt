-- ===== src/Redirects.antt =====
-- redirects.rs, rewrites.rs and virtual_hosts.rs: the first entry that matches a request, and what
-- comes of it. A compiled `Regex` is its function from a text to the captures of a match, an
-- unmatched group being the empty text. `Texts` holds the replacement of the crate `aho-corasick`,
-- whose pattern `i` is `$i`, and the parsers and builders of the crate `http`.
pub mod Matched
pub mod Tests
use mathlib.Core.Option
use Prim.Native.String.{◌++◌}
use weave_gate.Common.{
  ℕ, String, Bool, true, ◌&&◌, Option, none, some, List, [], ◌∷◌, ◌==◌, is_some, is_nil, and_then,
  or_else, unwrap_or, if◌then◌else◌, Result, ok, err, ok_or, ◌>>=◌,
}
use weave_gate.Common.Text.{decimal}
use weave_gate.Http.{Http, Request, Response}
use weave_gate.Proxy.Matching.{request_host}

abbrev pub Regex : Type 0
Regex = String → Option (List String)

-- settings/mod.rs; `kind` is the status
pub record Redirects : Type 0 where
  pub host : Option String
  pub source : Regex
  pub destination : String
  pub kind : ℕ

-- settings/file.rs
pub data RedirectsKind : Type 0 where
  permanent temporary : RedirectsKind

pub record Rewrites : Type 0 where
  pub source : Regex
  pub destination : String
  pub redirect : Option RedirectsKind

pub record VirtualHosts : Type 0 where
  pub host : String
  pub root : String

-- `replace_all` of a text by the captures; `from_parts` of a scheme, an authority and a path with
-- its query; whether such a path parses.
pub record Texts (L : Http) : Type 0 where
  pub replace_all : String → List String → Option String
  pub from_parts : Option String → Option String → Option String → Option L.Uri
  pub path_query : String → Option String
  pub valid_path : String → Bool

-- a response with a `Location` and no body
unfoldable pub location_response : (L : Http) → ℕ → L.Value → Response L
location_response L status value = record {
  status = status;
  headers = L.insert L.empty "location" value;
  body = "";
}

-- `match redirect_type`
abbrev pub status_of : RedirectsKind → ℕ
status_of permanent = 301
status_of temporary = 302

abbrev pub redirect_fits : String → String → Redirects → Bool
redirect_fits uri_host uri_path r =
    elim r.host [ none ↦ true | some host ↦ host == uri_host ] && is_some (r.source uri_path)

-- `redirects_opts` that are missing are no entries
unfoldable pub get_redirection : String → String → List Redirects → Option Redirects
get_redirection uri_host uri_path [] = none
get_redirection uri_host uri_path (r ∷ rs) =
    let rest = get_redirection uri_host uri_path rs in
    if redirect_fits uri_host uri_path r then some r else rest

unfoldable pub rewrite_uri_path : String → List Rewrites → Option Rewrites
rewrite_uri_path uri_path [] = none
rewrite_uri_path uri_path (r ∷ rs) =
    let rest = rewrite_uri_path uri_path rs in if is_some (r.source uri_path) then some r else rest

unfoldable pub find_root : String → List VirtualHosts → Option String
find_root host [] = none
find_root host (v ∷ vs) =
    let rest = find_root host vs in if v.host == host then some v.root else rest

module _ (L : Http) where
  -- virtual_hosts.rs
  unfoldable pub get_real_root : Request L → Option (List VirtualHosts) → Option String
  get_real_root req none = none
  get_real_root req (some vhosts) =
      if is_nil vhosts then none else and_then (request_host L req) (λ host. find_root host vhosts)

  -- the host of `redirects::pre_process`: the URI's, or else the `Host` header as it is, and the
  -- URI's port
  unfoldable pub redirect_host : Request L → String
  redirect_host req =
      let host = unwrap_or (and_then (L.get req.headers "host") L.to_str) "" in
      let uri_host = unwrap_or (L.host req.uri) host in
      elim (L.port req.uri) [ none ↦ uri_host | some port ↦ uri_host ++ (":" ++ decimal port) ]

  module _ (texts : Texts L) where
    unfoldable pub replace_placeholders : String → Regex → String → Result String
    replace_placeholders orig_uri regex dest_uri = do
      caps ← ok_or (regex orig_uri) "regex didn't match, extracting captures failed"
      ok_or (texts.replace_all dest_uri caps) "failed replacing captures"

    -- The response to a request that an entry matches; an error is answered by the page for 500.
    unfoldable pub redirect_to : ℕ → Result String → Result (Response L)
    redirect_to status dest = do
      text ← dest
      value ← ok_or (L.from_str text) "invalid header value from current uri"
      ok (location_response L status value)

    unfoldable pub redirects_answer :
        Option (List Redirects) → Request L → Option (Result (Response L))
    redirects_answer none req = none
    redirects_answer (some redirects) req =
        let uri_path = L.path req.uri in
        Option.map
          (λ (m : Redirects).
            redirect_to m.kind (replace_placeholders uri_path m.source m.destination))
          (get_redirection (redirect_host req) uri_path redirects)

    -- the query of the original URI, if the new one has none
    unfoldable pub keep_query : L.Uri → Option String → Result (Option String)
    keep_query orig_uri none = ok none
    keep_query orig_uri (some pq) = elim (texts.path_query pq) [
      | some own ↦ ok (some pq)
      | none ↦ elim (L.query orig_uri) [
        | none ↦ ok (some pq)
        | some query ↦
            let whole = pq ++ ("?" ++ query) in
            if texts.valid_path whole then ok (some whole) else err "invalid path and query"
      ]
    ]

    unfoldable pub merge_uris : L.Uri → String → Result L.Uri
    merge_uris orig_uri new_uri = do
      parts ← ok_or (L.parse_uri new_uri) "invalid uri"
      let scheme = or_else (L.scheme_str parts) (L.scheme_str orig_uri)
      let authority = or_else (L.authority parts) (L.authority orig_uri)
      path_and_query ←
          keep_query orig_uri (or_else (L.path_and_query parts) (L.path_and_query orig_uri))
      ok_or (texts.from_parts scheme authority path_and_query) "invalid uri parts"

    -- the `Host` header of a rewritten request
    unfoldable pub host_of : L.Uri → Option L.Value
    host_of uri = and_then (L.host uri) (λ host.
        L.from_str (elim (L.port uri) [ none ↦ host | some port ↦ host ++ (":" ++ decimal port) ]))

    unfoldable pub rewritten : Request L → L.Uri → Request L
    rewritten req uri = record req {
      uri = uri;
      headers = elim (host_of uri) [
        | none ↦ req.headers
        | some host ↦ L.insert req.headers "host" host
      ];
    }

    -- an internal rewrite: the new request, or an error
    unfoldable pub rewrite_request : Request L → Result String → Result (Request L)
    rewrite_request req dest = do text ← dest; uri ← merge_uris req.uri text; ok (rewritten req uri)

    -- an answer, and the request that the next steps see
    unfoldable pub answer_or_go_on :
        Request L → Result (Request L) → Option (Result (Response L)) × Request L
    answer_or_go_on req (ok req') = (none, req')
    answer_or_go_on req (err e) = (some (err e), req)

    unfoldable pub rewrite_by :
        Option RedirectsKind → Result String → Request L → Option (Result (Response L)) × Request L
    rewrite_by (some kind) dest req = (some (redirect_to (status_of kind) dest), req)
    rewrite_by none dest req = answer_or_go_on req (rewrite_request req dest)

    unfoldable pub rewrite_with : Rewrites → Request L → Option (Result (Response L)) × Request L
    rewrite_with matched req =
        rewrite_by matched.redirect
          (replace_placeholders (L.path req.uri) matched.source matched.destination) req

    unfoldable pub rewrites_answer :
        Option (List Rewrites) → Request L → Option (Result (Response L)) × Request L
    rewrites_answer none req = (none, req)
    rewrites_answer (some rewrites) req = elim (rewrite_uri_path (L.path req.uri) rewrites) [
      | none ↦ (none, req)
      | some matched ↦ rewrite_with matched req
    ]
