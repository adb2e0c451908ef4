-- ===== src/Routes/Bootstrap.antt =====
-- routes/bootstrap.rs: the fetch of the routes document at startup, with its cache file and the
-- policy for a failed fetch. The network, the environment variables, the encoders and the clock
-- are `Outside`; the cache file is the document that a read of it gives, `none` where the read
-- or the parse fails, and it is passed on as state.
pub mod Policy
use Prim.Native.String.{◌++◌ as ◌+++◌}
use weave_gate.Common.{
  ℕ, String, Bool, ◌&&◌, Option, none, some, List, leb, ltb, not, if◌then◌else◌, unwrap_or, Result,
  ok, err, ok_or, ◌>>=◌, ◌>>◌, ensure,
}
use weave_gate.Common.Text.{contains, is_empty}
use weave_gate.Routes.{Proxy, RoutesDocument, into_proxy_defs}

-- settings/file.rs
pub data OnFailure : Type 0 where
  cache_then_file fail file_only : OnFailure

pub record RoutesBootstrap : Type 0 where
  pub url : String
  pub token_env : Option String
  pub timeout_secs : Option ℕ
  pub cache_path : Option String
  pub on_failure : Option OnFailure
  pub client_id : Option String

-- the request that is sent to the control plane
pub record FetchRequest : Type 0 where
  pub uri : String
  pub accept : String
  pub user_agent : String
  pub authorization : Option String

-- `valid_uri` is whether a text parses as a URI, `send` answers with a status and a body within
-- the timeout, or with `none`; `write_works` is whether the cache file can be replaced.
pub record Outside : Type 0 where
  pub env_var : String → Option String
  pub encode : String → String
  pub valid_uri : String → Bool
  pub client_builds : Bool
  pub times_out : ℕ → Bool
  pub send : FetchRequest → Option (ℕ × String)
  pub parse_json : String → Option RoutesDocument
  pub write_works : String → Bool

-- `config.on_failure.unwrap_or_default()`
unfoldable pub policy : RoutesBootstrap → OnFailure
policy config = unwrap_or config.on_failure cache_then_file

module _ (o : Outside) where
  -- `client_id.filter(|s| !s.is_empty())` and what is pushed for it
  client_part : Option String → String
  client_part none = ""
  client_part (some client) = if is_empty client then "" else "&" +++ "client=" +++ o.encode client

  unfoldable pub build_bootstrap_uri : String → Option String → String → Result String
  unfolding client_part
  build_bootstrap_uri base client_id version = do
    let sep = if contains base "?" then "&" else "?"
    let url = base +++ sep +++ "weavegate=" +++ o.encode version +++ client_part client_id
    ensure (o.valid_uri url) "routes bootstrap: invalid URL"
    ok url

  -- the `Authorization` header
  unfoldable pub authorize : Option String → Result (Option String)
  authorize none = ok none
  authorize (some name) = do
    token ← ok_or (o.env_var name) "routes bootstrap: environment variable is not set"
    ok (if is_empty token then none else some ("Bearer " +++ token))

  -- the checks of the answer
  unfoldable pub read_answer : ℕ × String → Result RoutesDocument
  read_answer (status, body) = do
    ensure (leb 200 status && ltb status 300) "routes bootstrap: control plane returned an error"
    ok_or (o.parse_json body) "routes bootstrap: invalid JSON response"

  unfoldable pub http_fetch_document : RoutesBootstrap → String → Result RoutesDocument
  http_fetch_document config version = do
    uri ← build_bootstrap_uri config.url config.client_id version
    ensure o.client_builds "routes bootstrap: TLS client"
    authorization ← authorize config.token_env
    resp ←
        ok_or
          (o.send (record {
            uri = uri;
            accept = "application/json";
            user_agent = "weavegate/" +++ version;
            authorization = authorization;
          }))
          "routes bootstrap HTTP request failed"
    read_answer resp

  -- `timeout(…).await`, a timeout being one more error
  unfoldable pub timed_fetch : RoutesBootstrap → String → Result RoutesDocument
  timed_fetch config version =
      if o.times_out (unwrap_or config.timeout_secs 5)
      then err "routes bootstrap request timed out"
      else http_fetch_document config version

  -- the write to the cache file, whose failure is only logged
  unfoldable pub write_cache :
      Option String → RoutesDocument → Option RoutesDocument → Option RoutesDocument
  write_cache none doc cache = cache
  write_cache (some path) doc cache = if o.write_works path then some doc else cache

-- `Ok(Some(defs))` from a document, or the error of its conversion
unfoldable pub loaded : RoutesDocument → Result (Option (List Proxy))
loaded doc = do defs ← into_proxy_defs doc; ok (some defs)

-- the last `match` of `handle_fetch_failure`
unfoldable pub give_up : OnFailure → Result (Option (List Proxy))
give_up fail = err "routes bootstrap: fetch failed and no cache available"
give_up cache_then_file = ok none
give_up file_only = ok none

-- `read_cache` of a path, if one is given
unfoldable pub read_cache : Option String → Option RoutesDocument → Option RoutesDocument
read_cache none cache = none
read_cache (some path) cache = cache

unfoldable pub handle_fetch_failure :
    RoutesBootstrap → Option RoutesDocument → Result (Option (List Proxy))
unfolding give_up read_cache
handle_fetch_failure config cache = elim (read_cache config.cache_path cache) [
  | some doc ↦ loaded doc
  | none ↦ give_up (policy config)
]

module _ (o : Outside) where
  -- the fetch that `fetch_routes_defs` makes unless the policy is `FileOnly`
  unfoldable pub fetch_or_recover :
      RoutesBootstrap
      → String
      → Option RoutesDocument
      → Option RoutesDocument × Result (Option (List Proxy))
  fetch_or_recover config version cache = elim (timed_fetch o config version) [
    | ok doc ↦ (write_cache o config.cache_path doc cache, loaded doc)
    | err e ↦ (cache, handle_fetch_failure config cache)
  ]

  -- the new cache file, and the definitions
  unfoldable pub fetch_routes_defs :
      RoutesBootstrap
      → String
      → Option RoutesDocument
      → Option RoutesDocument × Result (Option (List Proxy))
  fetch_routes_defs config version cache = elim (policy config) [
    | file_only ↦ (cache, ok none)
    | _ ↦ fetch_or_recover config version cache
  ]
