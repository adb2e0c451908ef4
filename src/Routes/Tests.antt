-- ===== src/Routes/Tests.antt =====
-- Runs of the routes document and of the bootstrap.
use weave_gate.Common.{
  ℕ, ◌≤◌, ◌<◌, String, ◌≡◌, refl, ◌↔◌, true, false, none, some, [], ◌∷◌, map, All, arith, ok, err,
  is_ok, ◌==◌, if◌then◌else◌,
}
use weave_gate.Common.Text.{contains, strip_prefix}
use weave_gate.Routes.{RouteEntry, RoutesDocument, into_proxy_defs, to_proxy, bad_version}
use weave_gate.Routes.Document.{IsValid, routes_of, into_proxy_defs_iff}
use weave_gate.Routes.Bootstrap.{
  RoutesBootstrap, Outside, FetchRequest, cache_then_file, policy, timed_fetch, http_fetch_document,
  read_answer, build_bootstrap_uri, authorize, fetch_routes_defs,
}
use weave_gate.Routes.Bootstrap.Policy.{
  fetch_goes_on, restart_recovers, invalid_document_spoils_cache, fetch_sound,
}

abbrev users : RouteEntry
users = record {
  name = some "user-service";
  host = none;
  source = "/app1/api/users/**";
  target = some "https://user-svc.corp.internal";
  targets = none;
  strip_prefix = some "/app1/api/users";
}

abbrev sample : RoutesDocument
sample = record { version = 1; apps = record { id = "app1"; routes = users ∷ [] } ∷ [] }

abbrev sample_2 : RoutesDocument
sample_2 = record sample { version = 2 }

into_proxy_defs-sample : into_proxy_defs sample ≡ ok (to_proxy users ∷ [])
unfolding into_proxy_defs contains strip_prefix
into_proxy_defs-sample = refl

into_proxy_defs-sample_2 : into_proxy_defs sample_2 ≡ err bad_version
unfolding into_proxy_defs
into_proxy_defs-sample_2 = refl

abbrev dotted : RouteEntry
dotted = record users { source = "/app1/../secret/**" }

into_proxy_defs-dotted :
    into_proxy_defs (record sample { apps = record { id = "app1"; routes = dotted ∷ [] } ∷ [] })
    ≡ err "routes bootstrap: source must not contain '..'"
unfolding into_proxy_defs contains strip_prefix
into_proxy_defs-dotted = refl

into_proxy_defs_iff_example : (into_proxy_defs sample ≡ ok (to_proxy users ∷ [])) ↔ (
    (sample.version ≡ 1)
    × All IsValid (routes_of sample.apps)
    × (to_proxy users ∷ [] ≡ map to_proxy (routes_of sample.apps)))
into_proxy_defs_iff_example = into_proxy_defs_iff sample (to_proxy users ∷ [])

abbrev config : RoutesBootstrap
config = record {
  url = "https://control.example.com/routes";
  token_env = some "TOKEN";
  timeout_secs = none;
  cache_path = some "routes.cache.json";
  on_failure = none;
  client_id = some "desktop";
}

-- a control plane that answers with the text of a document, `one` or `two`
abbrev outside : String → Outside
outside body = record {
  env_var = λ name. if name == "TOKEN" then some "secret" else none;
  encode = λ s. s;
  valid_uri = λ s. true;
  client_builds = true;
  times_out = λ n. false;
  send = λ req. some (200, body);
  parse_json = λ s. if s == "one" then some sample else if s == "two" then some sample_2 else none;
  write_works = λ path. true;
}

fetch_one : timed_fetch (outside "one") config "1.0" ≡ ok sample
unfolding timed_fetch http_fetch_document read_answer build_bootstrap_uri authorize contains
    strip_prefix
fetch_one = refl

fetch_two : timed_fetch (outside "two") config "1.0" ≡ ok sample_2
unfolding timed_fetch http_fetch_document read_answer build_bootstrap_uri authorize contains
    strip_prefix
fetch_two = refl

fetch_none :
    timed_fetch (outside "down") config "1.0" ≡ err "routes bootstrap: invalid JSON response"
unfolding timed_fetch http_fetch_document read_answer build_bootstrap_uri authorize contains
    strip_prefix
fetch_none = refl

not_file_only : policy config ≡ cache_then_file
unfolding policy
not_file_only = refl

restart_recovers_example :
    (fetch_routes_defs (outside "one") config "1.0" none
      ≡ (some sample, ok (some (to_proxy users ∷ []))))
    × (fetch_routes_defs
          (outside "down")
          config
          "1.0"
          (fetch_routes_defs (outside "one") config "1.0" none).0
        ≡ (some sample, ok (some (to_proxy users ∷ []))))
restart_recovers_example =
    restart_recovers (outside "one") config "1.0" none (outside "down") "1.0" "routes.cache.json"
      sample (to_proxy users ∷ []) "routes bootstrap: invalid JSON response"
      (λ e. cc (not_file_only, e)) refl refl fetch_one into_proxy_defs-sample fetch_none

invalid_document_spoils_cache_example :
    (fetch_routes_defs (outside "two") config "1.0" (some sample)
      ≡ (some sample_2, err bad_version))
    × (fetch_routes_defs
          (outside "down")
          config
          "1.0"
          (fetch_routes_defs (outside "two") config "1.0" (some sample)).0
        ≡ (some sample_2, err bad_version))
invalid_document_spoils_cache_example =
    invalid_document_spoils_cache (outside "two") config "1.0" (some sample) (outside "down") "1.0"
      "routes.cache.json" sample_2 bad_version "routes bootstrap: invalid JSON response"
      (λ e. cc (not_file_only, e)) refl refl fetch_two into_proxy_defs-sample_2 fetch_none

fetch_sound_example :
    (req : FetchRequest) × (status : ℕ) × (body : String) × ((outside "one").send req
      ≡ some (status, body))
    × (200 ≤ status)
    × (status < 300)
    × ((outside "one").parse_json body ≡ some sample)
    × (build_bootstrap_uri (outside "one") config.url config.client_id "1.0" ≡ ok req.uri)
    × (authorize (outside "one") config.token_env ≡ ok req.authorization)
fetch_sound_example = fetch_sound (outside "one") config "1.0" none sample fetch_one

fetched_valid :
    (d : RoutesDocument)
    → timed_fetch (outside "one") config "1.0" ≡ ok d
    → is_ok (into_proxy_defs d) ≡ true
fetched_valid d e = ground (arith, fetch_one, into_proxy_defs-sample)

no_cache : (d : RoutesDocument) → none ≡ some d → is_ok (into_proxy_defs d) ≡ true
no_cache d e = cc

fetch_goes_on_example : is_ok (fetch_routes_defs (outside "one") config "1.0" none).1 ≡ true
fetch_goes_on_example =
    fetch_goes_on (outside "one") config "1.0" none (λ e. cc (not_file_only, e)) fetched_valid
      no_cache
