-- ===== src/Proxy/Headers.antt =====
-- proxy.rs: the header maps of the upstream request and of the response, and what the proxy reads
-- from the request's headers.
pub mod Copied
pub mod Sent
use weave_gate.Common.{
  String, Bool, false, ◌||◌, Option, none, some, List, [], ◌∷◌, ◌==◌, any, and_then, or_else,
  unwrap_or, if◌then◌else◌, Result, ok, ok_or, ◌>>=◌,
}
use mathlib.Core.Option
use weave_gate.Common.Text.{split, trim, eq_ignore_ascii_case, lower_contains}
use weave_gate.Http.{Http, Request, contains_key}

abbrev pub hop_by_hop_names : List String
hop_by_hop_names =
    "connection" ∷ "keep-alive" ∷ "proxy-authenticate" ∷ "proxy-authorization" ∷ "te" ∷ "trailers"
    ∷ "transfer-encoding" ∷ "upgrade" ∷ "proxy-connection" ∷ []

unfoldable pub is_hop_by_hop_header : String → Bool
is_hop_by_hop_header name = any (λ n. n == name) hop_by_hop_names

abbrev pub removed_names : List String
removed_names =
    "connection" ∷ "proxy-authorization" ∷ "te" ∷ "trailer" ∷ "transfer-encoding" ∷ "upgrade"
    ∷ "keep-alive" ∷ "proxy-authenticate" ∷ "proxy-connection" ∷ []

abbrev pub streaming_removed_names : List String
streaming_removed_names = "proxy-authorization" ∷ "proxy-authenticate" ∷ "proxy-connection" ∷ []

abbrev pub not_forwarded : String → Bool
not_forwarded name = is_hop_by_hop_header name || "host" == name

module _ (L : Http) where
  -- a header's value as text, if it has one: `.get(name).and_then(|v| v.to_str().ok())`
  abbrev pub text_of : L.Headers → String → Option String
  text_of headers name = and_then (L.get headers name) L.to_str

  unfoldable pub connection_header_has_token : L.Headers → String → Bool
  connection_header_has_token headers token = elim (text_of headers "connection") [
    | none ↦ false
    | some value ↦ any (λ part. eq_ignore_ascii_case (trim part) token) (split b',' value)
  ]

  unfoldable pub is_protocol_upgrade : Request L → Bool
  unfolding connection_header_has_token
  is_protocol_upgrade req =
      if contains_key L req.headers "upgrade"
      then connection_header_has_token req.headers "upgrade"
      else false

  unfoldable pub is_streaming_request : Request L → Bool
  is_streaming_request req = elim (text_of req.headers "accept") [
    | none ↦ false
    | some accept ↦ lower_contains accept "text/event-stream"
  ]

  -- the loop of the two copies: `insert` of every header that is not skipped
  unfoldable pub copy_headers : (String → Bool) → List (String × L.Value) → L.Headers → L.Headers
  copy_headers skip [] dst = dst
  copy_headers skip ((name, value) ∷ src) dst =
      copy_headers skip src (if skip name then dst else L.insert dst name value)

  unfoldable pub copy_forwardable_headers : L.Headers → L.Headers → L.Headers
  unfolding copy_headers
  copy_forwardable_headers src dst = copy_headers not_forwarded (L.iter src) dst

  unfoldable pub copy_upgrade_request_headers : L.Headers → L.Headers → L.Headers
  unfolding copy_headers
  copy_upgrade_request_headers src dst = copy_headers (λ name. "host" == name) (L.iter src) dst

  unfoldable pub set_upstream_host : L.Headers → L.Uri → Result L.Headers
  set_upstream_host headers upstream_uri = do
    authority ← ok_or (L.authority upstream_uri) "upstream URI has no authority"
    host ← ok_or (L.from_str authority) "invalid upstream Host header value"
    ok (L.insert headers "host" host)

  -- `X-Forwarded-For`: the peer's address, or else what the client sent; `remote_ip` is the text
  -- of `remote_addr`'s IP address
  set_forwarded_for : L.Headers → Request L → Option String → L.Headers
  set_forwarded_for headers req (some ip) = elim (L.from_str ip) [
    | none ↦ headers
    | some value ↦ L.insert headers "x-forwarded-for" value
  ]
  set_forwarded_for headers req none = elim (L.get req.headers "x-forwarded-for") [
    | none ↦ headers
    | some existing ↦ L.insert headers "x-forwarded-for" existing
  ]

  -- `X-Forwarded-Proto`: what the client sent, or the URI's scheme, or `http`
  abbrev pub forwarded_proto : Request L → L.Value
  forwarded_proto req =
      unwrap_or
        (or_else (L.get req.headers "x-forwarded-proto")
          (and_then (L.scheme_str req.uri) L.from_str))
        (L.from_static "http")

  set_forwarded_host : L.Headers → Request L → L.Headers
  set_forwarded_host headers req = elim (L.get req.headers "host") [
    | none ↦ headers
    | some host ↦ L.insert headers "x-forwarded-host" host
  ]

  unfoldable pub append_forwarded_headers : L.Headers → Request L → Option String → L.Headers
  unfolding set_forwarded_for set_forwarded_host
  append_forwarded_headers headers req remote_ip =
      set_forwarded_host
        (L.insert (set_forwarded_for headers req remote_ip) "x-forwarded-proto"
          (forwarded_proto req))
        req

  -- `headers.remove` of each name, in order
  unfoldable pub remove_all : List String → L.Headers → L.Headers
  remove_all [] headers = headers
  remove_all (name ∷ names) headers = remove_all names (L.remove headers name)

  unfoldable pub remove_hop_by_hop_request_headers : L.Headers → L.Headers
  unfolding remove_all
  remove_hop_by_hop_request_headers headers = remove_all removed_names headers

  unfoldable pub preserve_streaming_response_headers : L.Headers → L.Headers
  unfolding remove_all
  preserve_streaming_response_headers headers = remove_all streaming_removed_names headers
