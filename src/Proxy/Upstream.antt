-- ===== src/Proxy/Upstream.antt =====
-- proxy.rs: the URI of the upstream request, `build_upstream_uri_from_template` and
-- `upstream_uri_for_rule`.
pub mod Origin
pub mod Rotated
use Prim.Native.String.{◌++◌}
use weave_gate.Common.{
  String, ◌||◌, Option, none, some, ◌==◌, if◌then◌else◌, unwrap_or, get_elem?, Result, ok, err,
  ok_or, ◌>>=◌,
}
use weave_gate.Common.Text.{is_empty, starts_with_char, trim_end_matches}
use weave_gate.Common.Text
use weave_gate.Http.{Http}
use weave_gate.Balancer.{next_index}
use weave_gate.Rules.{UpstreamUriTemplate, ProxyRule}

-- `path_and_query.strip_prefix(prefix).unwrap_or(path_and_query)`, if there is a prefix
unfoldable pub without_prefix : Option String → String → String
without_prefix none path = path
without_prefix (some prefix) path = unwrap_or (Text.strip_prefix path prefix) path

-- what is left must be empty or begin with a slash
unfoldable pub rooted_path : String → Result String
rooted_path path =
    if is_empty path
    then ok "/"
    else if starts_with_char b'/' path
    then ok path
    else err "invalid path after strip-prefix"

unfoldable pub merged_path : String → String → String
merged_path base_path path =
    if is_empty base_path || base_path == "/" then path else trim_end_matches b'/' base_path ++ path

-- the text `full` that is parsed as the upstream's URI
unfoldable pub upstream_text : UpstreamUriTemplate → String → Result String
upstream_text template path_and_query = do
  path ← rooted_path (without_prefix template.strip_prefix path_and_query)
  ok (template.origin ++ merged_path template.base_path path)

module _ (L : Http) where
  unfoldable pub build_upstream_uri_from_template : UpstreamUriTemplate → L.Uri → Result L.Uri
  build_upstream_uri_from_template template req_uri = do
    full ← upstream_text template (unwrap_or (L.path_and_query req_uri) "/")
    ok_or (L.parse_uri full) "invalid upstream URI"

  -- the URI for the next instance, and the rule with its balancer moved on
  unfoldable pub upstream_uri_for_rule : ProxyRule L → L.Uri → Result L.Uri × ProxyRule L
  upstream_uri_for_rule rule req_uri =
      let (index, balancer) = next_index rule.balancer in
      let template =
        ok_or (get_elem? rule.uri_templates index) "proxy URI template index out of range" in
      (
        template >>= λ t. build_upstream_uri_from_template t req_uri,
        record rule { balancer = balancer },
      )
