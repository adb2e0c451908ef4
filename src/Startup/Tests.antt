-- ===== src/Startup/Tests.antt =====
-- A run of the start.
use weave_gate.Common.{ℕ, ◌≡◌, ◌≤◌, refl, true, false, none, some, List, [], ◌∷◌, ok}
use weave_gate.Http.Assoc.{assoc, parse}
use weave_gate.Proxy.Tests.{api, users, globs, users_rule, api_rule}
use weave_gate.Proxy.Tests.Starting.{down}
use weave_gate.Proxy.Forward.{ProxyState}
use weave_gate.Proxy.Forward.Shared.{AllAligned}
use weave_gate.Settings.{Settings}
use weave_gate.Settings.General.{General}
use weave_gate.Settings.Advanced.{Advanced, get_valid_dirpath}
use weave_gate.Settings.Tests.{cli, compilers}
use weave_gate.Handler.Tests.{services}
use weave_gate.Handler.Answering.Tests.{file_services, docs}
use weave_gate.Startup.{
  Site, Started, page_path, index_names, handler_options, file_options, checked_site, proxy_state,
  start_server, or_panic, proxy_advanced,
}
use weave_gate.Startup.Running.{Event, request_came, tunnel_closed, run, run-IsSafe}
use weave_gate.Paths.{push, components, strip_components}
use weave_gate.Common.Text.{split, trim, strip_prefix, split_once}
use weave_gate.Cors.Built.{init as init_cors, new as new_cors_check}
use weave_gate.Proxy.Startup.{
  resolve_missing, install, extend_defs, resolve_rules, init as init_proxy,
}
use weave_gate.Rules.{
  upstream_uri_template, sort_proxy_defs_by_specificity, compile_proxy_targets, compile_rule,
  compile_proxy_rules, parse_proxy_target_url,
}
use weave_gate.Common.Sort.{sort_by}
use weave_gate.Routes.{validate_prefix}
use weave_gate.Balancer.{new}

abbrev site : Site assoc
site = record {
  compilers = record compilers { glob_new = globs };
  outside = down;
  read_text = λ path. none;
  name_of = some;
  try_from_parts = λ scheme rest. none;
  header_of = λ names. "";
  builds = true;
}

abbrev general : General
general = record cli { root = "/srv/a"; page404 = "404.html" }

abbrev advanced : Advanced assoc
advanced = record {
  headers = none;
  rewrites = none;
  redirects = none;
  virtual_hosts = none;
  proxy_defs = some (api ∷ users ∷ []);
  routes_bootstrap = none;
  proxy_settings = record {
    pool_max_idle_per_host = 32;
    pool_idle_timeout_secs = 90;
    proxy_first = true;
    max_upgrade_tunnels = some 2;
    tls = record { ca_files = []; use_webpki_roots = false };
  };
}

abbrev settings : Settings assoc
settings = record { general = general; config_file = "./weavegate.toml"; advanced = some advanced }

abbrev state : ProxyState assoc
state = record {
  proxies = some (users_rule ∷ api_rule ∷ []);
  has_client = true;
  permits = some 2;
  tunnels = 0;
}

abbrev started : Started assoc
started = record {
  handler = handler_options assoc site "1.0" general "/srv/a" none (some advanced) state;
  files = file_options assoc site "1.0" general "/srv/a" (some advanced);
  proxy = state;
}

-- a relative error page is below the root, and an empty list of index files has one empty name
page_below : page_path "/srv/a" "404.html" ≡ "/srv/a/404.html"
unfolding page_path strip_components components split push
page_below = refl

no_index_files : index_names assoc site "1.0" "" ≡ "" ∷ []
unfolding split trim
no_index_files = refl

checked : checked_site assoc site "1.0" general ≡ ok ("/srv/a", none)
unfolding checked_site get_valid_dirpath split or_panic init_cors new_cors_check trim
checked = refl

resolved : (proxy_state assoc site "1.0" (some advanced) none).1 ≡ ok state
unfolding proxy_state init_proxy weave_gate.Balancer.new resolve_rules proxy_advanced
    resolve_missing extend_defs install compile_proxy_rules sort_proxy_defs_by_specificity sort_by
    compile_rule validate_prefix compile_proxy_targets trim parse_proxy_target_url parse split_once
    strip_prefix upstream_uri_template
resolved = refl

starts : (start_server assoc site "1.0" settings none).1 ≡ ok started
unfolding start_server
starts = rw (checked, start_server, resolved) refl

abbrev events : List (Event assoc)
events = request_came docs none ∷ tunnel_closed ∷ []

run-IsSafe_example :
    AllAligned assoc (run assoc services file_services started events state).proxies
    × ((limit : ℕ)
        → state.permits ≡ some limit
        → (run assoc services file_services started events state).tunnels ≤ limit)
run-IsSafe_example =
    run-IsSafe assoc site "1.0" settings none started starts services file_services events
