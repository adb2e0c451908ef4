-- ===== src/Rules/Tests.antt =====
-- Runs of the sort and of the compiler of rules.
use mathlib.Core.List.{Perm}
use weave_gate.Common.{ℕ, String, ◌≡◌, refl, Option, none, some, List, [], ◌∷◌, ok, is_some}
use weave_gate.Common.Text.{strip_prefix, trim, count_char, split_once}
use weave_gate.Common.Sort.{sort_by, keep}
use weave_gate.Http.Assoc.{assoc, parse}
use weave_gate.Balancer
use weave_gate.Routes.{Proxy, validate_prefix}
use weave_gate.Rules.{
  Glob, ProxyRule, sort_proxy_defs_by_specificity, compile_proxy_rules, compile_rule,
  compile_proxy_targets, parse_proxy_target_url, upstream_uri_template,
}
use weave_gate.Rules.Specificity.{Descending, has_key, sort_proxy_defs_lem}

abbrev gateway : Proxy
gateway = record {
  name = some "api-gateway";
  host = none;
  source = "/app1/api/**";
  target = some "https://gateway.corp.internal";
  targets = none;
  strip_prefix = some "/app1/api";
}

abbrev users : Proxy
users = record gateway {
  source = "/app1/api/users/**";
  target = none;
  targets = some ("http://a:1" ∷ "http://b:2/v1" ∷ []);
}

abbrev one_star : Proxy
one_star = record gateway { source = "/app1/apis/*" }

sort-sample : sort_proxy_defs_by_specificity (gateway ∷ users ∷ []) ≡ users ∷ gateway ∷ []
unfolding sort_proxy_defs_by_specificity sort_by count_char
sort-sample = refl

sort_proxy_defs_lem_example :
    Perm (sort_proxy_defs_by_specificity (gateway ∷ users ∷ [])) (gateway ∷ users ∷ [])
    × Descending (sort_proxy_defs_by_specificity (gateway ∷ users ∷ []))
    × ((k : ℕ × ℕ)
        → keep (has_key k) (sort_proxy_defs_by_specificity (gateway ∷ users ∷ []))
          ≡ keep (has_key k) (gateway ∷ users ∷ []))
sort_proxy_defs_lem_example = sort_proxy_defs_lem (gateway ∷ users ∷ [])

-- a glob that matches what begins with its text
abbrev globs : String → Option Glob
globs s = some (λ p. is_some (strip_prefix p s))

abbrev compiled : List (ProxyRule assoc)
compiled =
    record {
      host = none;
      source = λ p. is_some (strip_prefix p "/app1/api/users/**");
      balancer = record {
        name = some "api-gateway";
        targets =
            record {
              scheme = some "http";
              authority = some "a:1";
              host = some "a:1";
              port = none;
              path = "";
              query = none;
            }
            ∷ record {
              scheme = some "http";
              authority = some "b:2";
              host = some "b:2";
              port = none;
              path = "/v1";
              query = none;
            }
            ∷ [];
        next = 0;
      };
      strip_prefix = some "/app1/api";
      uri_templates =
          record { origin = "http://a:1"; base_path = "/"; strip_prefix = some "/app1/api" }
          ∷ record { origin = "http://b:2"; base_path = "/v1"; strip_prefix = some "/app1/api" }
          ∷ [];
    }
    ∷ []

compile-users : compile_proxy_rules assoc globs (users ∷ []) ≡ ok compiled
unfolding compile_proxy_rules compile_rule compile_proxy_targets parse_proxy_target_url
    upstream_uri_template validate_prefix Balancer.new trim parse strip_prefix split_once
compile-users = refl
