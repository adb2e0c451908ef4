-- ===== src/Proxy/Tests.antt =====
-- Runs of the choice of a rule and of the upstream URI.
pub mod Forwarding
pub mod Starting
use Prim.Native.String.{◌++◌}
use weave_gate.Common.{
  inr, ◌+◌, ◌%◌, String, ◌≡◌, refl, true, false, Option, none, some, [], ◌∷◌, get_elem?, is_some,
  ok,
}
use weave_gate.Common.Text.{
  strip_prefix, split_once, trim, trim_end_matches, count_char, split, eq_ignore_ascii_case,
  rsplit_once, parse_uint,
}
use weave_gate.Common.Sort.{sort_by}
use weave_gate.Common.Pairs.{Pairs-All}
use weave_gate.Http.{Request, first_value}
use weave_gate.Http.Assoc.{assoc, PlainUri, parse}
use weave_gate.Balancer
use weave_gate.Balancer.{Balancer, len}
use weave_gate.Routes.{Proxy, validate_prefix}
use weave_gate.Routes.Document.{IsRooted}
use weave_gate.Rules.{
  Glob, ProxyRule, UpstreamUriTemplate, sort_proxy_defs_by_specificity, compile_proxy_rules,
  compile_rule, compile_proxy_targets, parse_proxy_target_url, upstream_uri_template,
}
use weave_gate.Rules.Specificity.{Precedes}
use weave_gate.Rules.Aligned.{IsAligned, IsCompiled, compile_proxy_rules_lem}
use weave_gate.Proxy.Upstream.{
  upstream_text, merged_path, without_prefix, rooted_path, build_upstream_uri_from_template,
  upstream_uri_for_rule,
}
use weave_gate.Proxy.Upstream.Origin.{upstream_text-IsRooted}
use weave_gate.Proxy.Upstream.Rotated.{upstream_uri_for_rule_lem}
use weave_gate.Proxy.Matching.{request_host, find_rule, find_from, without_port}
use weave_gate.Proxy.Matching.Specific.{Applies, find_rule-Precedes}
use weave_gate.Proxy.Headers.{is_protocol_upgrade, connection_header_has_token}
use weave_gate.Proxy.Forward.Shared.{AllAligned}

abbrev pub api : Proxy
api = record {
  name = none;
  host = none;
  source = "/api/";
  target = some "http://a:1";
  targets = none;
  strip_prefix = some "/api";
}

abbrev pub users : Proxy
users = record api { source = "/api/users/"; target = some "http://b:2/v1" }

-- a glob that matches what begins with its text
abbrev pub globs : String → Option Glob
globs s = some (λ p. is_some (strip_prefix p s))

abbrev pub base : String → String → PlainUri
base authority path = record {
  scheme = some "http";
  authority = some authority;
  host = some authority;
  port = none;
  path = path;
  query = none;
}

abbrev pub rule : Proxy → PlainUri → UpstreamUriTemplate → ProxyRule assoc
rule def target template = record {
  host = none;
  source = λ p. is_some (strip_prefix p def.source);
  balancer = record { name = none; targets = target ∷ []; next = 0 };
  strip_prefix = def.strip_prefix;
  uri_templates = template ∷ [];
}

abbrev pub users_template : UpstreamUriTemplate
users_template = record { origin = "http://b:2"; base_path = "/v1"; strip_prefix = some "/api" }

abbrev pub users_rule : ProxyRule assoc
users_rule = rule users (base "b:2" "/v1") users_template

abbrev pub api_rule : ProxyRule assoc
api_rule =
    rule api (base "a:1" "")
      (record { origin = "http://a:1"; base_path = "/"; strip_prefix = some "/api" })

compile-both :
    compile_proxy_rules assoc globs (sort_proxy_defs_by_specificity (api ∷ users ∷ []))
    ≡ ok (users_rule ∷ api_rule ∷ [])
unfolding compile_proxy_rules compile_rule compile_proxy_targets parse_proxy_target_url
    upstream_uri_template validate_prefix Balancer.new trim parse strip_prefix split_once
    sort_proxy_defs_by_specificity sort_by count_char
compile-both = refl

sort-both : sort_proxy_defs_by_specificity (api ∷ users ∷ []) ≡ users ∷ api ∷ []
unfolding sort_proxy_defs_by_specificity sort_by count_char
sort-both = refl

abbrev pub req : Request assoc
req = record {
  method = "GET";
  uri = record {
    scheme = none;
    authority = none;
    host = none;
    port = none;
    path = "/api/users/7";
    query = some "q=1";
  };
  headers =
      ("host", "gateway.local:8080")
      ∷ ("connection", "keep-alive")
      ∷ ("cookie", "a=1")
      ∷ ("cookie", "b=2")
      ∷ [];
  body = "";
}

abbrev pub ws_req : Request assoc
ws_req = record req {
  headers =
      ("host", "gateway.local")
      ∷ ("connection", "keep-alive, Upgrade")
      ∷ ("upgrade", "websocket")
      ∷ [];
}

host-req : request_host assoc req ≡ some "gateway.local"
unfolding request_host without_port rsplit_once parse_uint first_value strip_prefix
host-req = refl

pub upgrade-ws : (is_protocol_upgrade assoc ws_req ≡ true) × (is_protocol_upgrade assoc req ≡ false)
unfolding is_protocol_upgrade connection_header_has_token split trim eq_ignore_ascii_case
    first_value
upgrade-ws = (refl, refl)

find-req : find_rule assoc (some (users_rule ∷ api_rule ∷ [])) req ≡ some (0, users_rule)
unfolding find_rule find_from request_host without_port rsplit_once parse_uint first_value
    strip_prefix
find-req = refl

Applies-api : Applies assoc globs "gateway.local" "/api/users/7" api
unfolding strip_prefix
Applies-api = record {
  host_ok = refl;
  glob = λ p. is_some (strip_prefix p "/api/");
  compiled = refl;
  matches = refl;
}

api_second : get_elem? (sort_proxy_defs_by_specificity (api ∷ users ∷ [])) 1 ≡ some api
unfolding sort_proxy_defs_by_specificity sort_by count_char
api_second = refl

text-users : upstream_text users_template "/api/users/7?q=1" ≡ ok "http://b:2/v1/users/7?q=1"
unfolding upstream_text without_prefix rooted_path merged_path strip_prefix trim_end_matches
text-users = refl

built-users : upstream_uri_template assoc (some "/api") (base "b:2" "/v1") ≡ ok users_template
unfolding upstream_uri_template
built-users = refl

upstream_text-IsRooted_example :
    (scheme : String) × (authority : String) × (p : String) × (assoc.scheme_str (base "b:2" "/v1")
      ≡ some scheme)
    × (assoc.authority (base "b:2" "/v1") ≡ some authority)
    × IsRooted p
    × ("http://b:2/v1/users/7?q=1" ≡ (scheme ++ ("://" ++ authority)) ++ p)
upstream_text-IsRooted_example =
    upstream_text-IsRooted assoc (some "/api") (base "b:2" "/v1") users_template (inr refl)
      built-users "/api/users/7?q=1" "http://b:2/v1/users/7?q=1" text-users

pub both-AllAligned : AllAligned assoc (some (users_rule ∷ api_rule ∷ []))
both-AllAligned =
    Pairs-All (IsAligned assoc) (λ def r (c : IsCompiled assoc globs def r). c.aligned)
      (compile_proxy_rules_lem assoc globs _ _ compile-both)

upstream_uri_for_rule_lem_example :
    (target : PlainUri) × (template : UpstreamUriTemplate) × (get_elem? users_rule.balancer.targets
        (users_rule.balancer.next % len users_rule.balancer)
      ≡ some target)
    × (upstream_uri_template assoc users_rule.strip_prefix target ≡ ok template)
    × ((upstream_uri_for_rule assoc users_rule req.uri).0
        ≡ build_upstream_uri_from_template assoc template req.uri)
    × IsAligned assoc (upstream_uri_for_rule assoc users_rule req.uri).1
upstream_uri_for_rule_lem_example =
    upstream_uri_for_rule_lem assoc users_rule both-AllAligned.0 req.uri

find_rule-Precedes_example : (d : Proxy) × IsCompiled assoc globs d users_rule × Precedes d api
find_rule-Precedes_example =
    find_rule-Precedes assoc globs (api ∷ users ∷ []) (users_rule ∷ api_rule ∷ []) req
      "gateway.local" (0, users_rule) api 1 compile-both host-req find-req api_second Applies-api
