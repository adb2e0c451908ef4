-- ===== src/Rules.antt =====
-- proxy_sort.rs and proxy_compile.rs, with the compiled types and `upstream_uri_template` of
-- settings/mod.rs. `Glob::new` and the parser of URIs belong to the crates `globset` and `http`: a
-- compiled glob is the test that it makes of a path.
pub mod Specificity
pub mod Aligned
mod Tests
use Prim.Native.String.{len, ◌++◌ as ◌+++◌}
use weave_gate.Common.{
  ℕ, String, Bool, true, false, Option, none, some, List, [], ◌∷◌, ◌++◌, ◌&&◌, ◌||◌, not, ltb, eqb,
  is_some, is_nil, if◌then◌else◌, Result, ok, err, ok_or, ◌>>=◌, ◌>>◌, ensure, traverse, unwrap_or,
}
use weave_gate.Common.Text.{trim, is_empty, count_char}
use weave_gate.Common.Sort.{sort_by}
use weave_gate.Http.{Http}
use weave_gate.Balancer
use weave_gate.Balancer.{Balancer}
use weave_gate.Routes.{Proxy, validate_prefix}

-- proxy_sort.rs: the length in bytes, and the number of stars
abbrev pub specificity_key : String → ℕ × ℕ
specificity_key source = (len source, count_char b'*' source)

-- `Ordering::Greater` of the comparison of the keys of `b` and of `a`, in that order
abbrev pub comes_after : Proxy → Proxy → Bool
comes_after a b =
    let (la, wa) = specificity_key a.source in
    let (lb, wb) = specificity_key b.source in ltb la lb || (eqb la lb && ltb wa wb)

unfoldable pub sort_proxy_defs_by_specificity : List Proxy → List Proxy
sort_proxy_defs_by_specificity = sort_by comes_after

-- settings/mod.rs
pub record UpstreamUriTemplate : Type 0 where
  pub origin : String
  pub base_path : String
  pub strip_prefix : Option String

-- `GlobMatcher`, as the test of a path
abbrev pub Glob : Type 0
Glob = String → Bool

pub record ProxyRule (L : Http) : Type 0 where
  pub host : Option String
  pub source : Glob
  pub balancer : Balancer L.Uri
  pub strip_prefix : Option String
  pub uri_templates : List UpstreamUriTemplate

module _ (L : Http) where
  -- settings/mod.rs
  unfoldable pub upstream_uri_template : Option String → L.Uri → Result UpstreamUriTemplate
  upstream_uri_template strip_prefix upstream_base = do
    authority ← ok_or (L.authority upstream_base) "upstream URI has no authority"
    scheme ← ok_or (L.scheme_str upstream_base) "upstream URI has no scheme"
    let base_path = L.path upstream_base
    ok (record {
      origin = scheme +++ ("://" +++ authority);
      base_path = if is_empty base_path then "/" else base_path;
      strip_prefix = strip_prefix;
    })

  unfoldable pub parse_proxy_target_url : String → Result L.Uri
  parse_proxy_target_url url = do
    target ← ok_or (L.parse_uri (trim url)) "invalid proxy target URL"
    ensure (is_some (L.scheme_str target)) "proxy target must include a scheme"
    ensure (is_some (L.authority target)) "proxy target must include a host"
    ok target

  -- `entry.target.as_ref().is_some_and(|t| !t.trim().is_empty())`
  abbrev pub has_target : Option String → Bool
  has_target none = false
  has_target (some t) = not (is_empty (trim t))

  -- `entry.targets.as_ref().is_some_and(|ts| !ts.is_empty())`
  abbrev pub has_targets : Option (List String) → Bool
  has_targets none = false
  has_targets (some ts) = not (is_nil ts)

  -- the four cases of `(has_target, has_targets)`
  choose_targets : Bool → Bool → Proxy → Result (List L.Uri)
  choose_targets true true entry = err "proxy rule must use either `target` or `targets`, not both"
  choose_targets false false entry = err "proxy rule must define `target` or `targets`"
  choose_targets true false entry = do
    uri ← parse_proxy_target_url (unwrap_or entry.target "")
    ok (uri ∷ [])
  choose_targets false true entry = traverse parse_proxy_target_url (unwrap_or entry.targets [])

  unfoldable pub compile_proxy_targets : Proxy → Result (List L.Uri)
  unfolding choose_targets
  compile_proxy_targets entry =
      choose_targets (has_target entry.target) (has_targets entry.targets) entry

  module _ (glob_new : String → Option Glob) where
    -- one round of the loop of `compile_proxy_rules`
    unfoldable pub compile_rule : Proxy → Result (ProxyRule L)
    compile_rule entry = do
      source ← ok_or (glob_new entry.source) "can not compile glob pattern for proxy source"
      validate_prefix entry.strip_prefix "proxy strip-prefix must start with '/'"
      upstreams ← compile_proxy_targets entry
      uri_templates ← traverse (upstream_uri_template entry.strip_prefix) upstreams
      balancer ← Balancer.new entry.name upstreams
      ok (record {
        host = entry.host;
        source = source;
        balancer = balancer;
        strip_prefix = entry.strip_prefix;
        uri_templates = uri_templates;
      })

    unfoldable pub compile_proxy_rules : List Proxy → Result (List (ProxyRule L))
    compile_proxy_rules = traverse compile_rule
