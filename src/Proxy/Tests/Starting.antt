-- ===== src/Proxy/Tests/Starting.antt =====
-- Runs of the startup of the proxy.
use weave_gate.Common.{◌≡◌, refl, true, false, none, some, [], ◌∷◌, ok, err}
use weave_gate.Common.Text.{strip_prefix, split_once, trim, count_char}
use weave_gate.Common.Sort.{sort_by}
use weave_gate.Http.Assoc.{assoc, parse}
use weave_gate.Balancer
use weave_gate.Routes.{validate_prefix}
use weave_gate.Routes.Bootstrap.{
  RoutesBootstrap, Outside, policy, timed_fetch, fetch_routes_defs, fetch_or_recover,
  handle_fetch_failure,
}
use weave_gate.Rules.{
  sort_proxy_defs_by_specificity, compile_proxy_rules, compile_rule, compile_proxy_targets,
  parse_proxy_target_url, upstream_uri_template,
}
use weave_gate.Proxy.Startup.{Advanced, resolve_rules, resolve_missing, install, extend_defs}
use weave_gate.Proxy.Tests.{api, users, globs, users_rule, api_rule}

-- a control plane that does not answer
abbrev pub down : Outside
down = record {
  env_var = λ name. none;
  encode = λ s. s;
  valid_uri = λ s. true;
  client_builds = true;
  times_out = λ n. true;
  send = λ req. none;
  parse_json = λ s. none;
  write_works = λ path. false;
}

abbrev bootstrap : RoutesBootstrap
bootstrap = record {
  url = "https://control.example.com/routes";
  token_env = none;
  timeout_secs = some 1;
  cache_path = some "routes.cache.json";
  on_failure = none;
  client_id = none;
}

abbrev settings : Advanced assoc
settings = record {
  proxies = none;
  proxy_defs = some (api ∷ users ∷ []);
  routes_bootstrap = some bootstrap;
  max_upgrade_tunnels = some 2;
}

timed_out : timed_fetch down bootstrap "1.0" ≡ err "routes bootstrap request timed out"
unfolding timed_fetch
timed_out = refl

abbrev resolved : Advanced assoc
resolved = record settings { proxies = some (users_rule ∷ api_rule ∷ []) }

resolve : (resolve_rules assoc globs down "1.0" (some settings) none).1 ≡ ok (some resolved)
unfolding resolve_rules resolve_missing install extend_defs compile_proxy_rules compile_rule
    compile_proxy_targets parse_proxy_target_url upstream_uri_template validate_prefix Balancer.new
    trim parse strip_prefix split_once sort_proxy_defs_by_specificity sort_by count_char
    fetch_routes_defs timed_fetch policy fetch_or_recover handle_fetch_failure
resolve = refl
