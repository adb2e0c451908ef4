-- ===== src/Proxy/Matching.antt =====
-- proxy.rs: `request_host` and `find_rule`. A reference to a rule of the configuration is its
-- index in the list with the rule itself.
pub mod First
pub mod Specific
use weave_gate.Common.{
  ℕ, zero, suc, ◌^◌, String, Bool, true, ◌&&◌, Option, none, some, List, [], ◌∷◌, ◌==◌, is_some,
  and_then, if◌then◌else◌,
}
use mathlib.Core.Option
use weave_gate.Common.Text.{rsplit_once, parse_uint}
use weave_gate.Http.{Http, Request}
use weave_gate.Rules.{ProxyRule}

-- a `Host` header without its port, if what stands behind the last colon is a port
unfoldable pub without_port : String → String
without_port host_header = elim (rsplit_once b':' host_header) [
  | none ↦ host_header
  | some (potential_host, potential_port) ↦
      if is_some (parse_uint (2 ^ 16) potential_port) then potential_host else host_header
]

module _ (L : Http) where
  -- The host of the URI's authority, or else that of the `Host` header.
  unfoldable pub request_host : Request L → Option String
  request_host req = elim (L.host req.uri) [
    | some host ↦ some host
    | none ↦ Option.map without_port (and_then (L.get req.headers "host") L.to_str)
  ]

  -- the test of one rule in the loop of `find_rule`
  abbrev pub host_fits : Option String → String → Bool
  host_fits none request_host = true
  host_fits (some host) request_host = host == request_host

  abbrev pub rule_fits : String → String → ProxyRule L → Bool
  rule_fits host path rule = host_fits rule.host host && rule.source path

  -- the loop, from the rule with index `i`
  unfoldable pub find_from : ℕ → String → String → List (ProxyRule L) → Option (ℕ × ProxyRule L)
  find_from i host path [] = none
  find_from i host path (rule ∷ rules) =
      let rest = find_from (suc i) host path rules in
      if rule_fits host path rule then some (i, rule) else rest

  -- `proxies` is `advanced_opts.as_ref()?.proxies.as_deref()?`
  unfoldable pub find_rule : Option (List (ProxyRule L)) → Request L → Option (ℕ × ProxyRule L)
  unfolding find_from
  find_rule none req = none
  find_rule (some proxies) req =
      and_then (request_host req) (λ host. find_from zero host (L.path req.uri) proxies)
