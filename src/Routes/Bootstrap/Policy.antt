-- ===== src/Routes/Bootstrap/Policy.antt =====
-- What each failure policy makes of a fetch that succeeds or fails.
use weave_gate.Common.{
  ℕ, String, ◌≡◌, refl, ◌≢◌, ◌≤◌, ◌<◌, true, Option, none, some, List, arith, Result, ok, err,
  is_ok, ok_or, ensure, >>=-eq-ok, ok_or-eq-ok,
}
use weave_gate.Routes.{Proxy, RoutesDocument, into_proxy_defs}
use weave_gate.Routes.Bootstrap.{
  OnFailure, cache_then_file, fail, file_only, RoutesBootstrap, Outside, FetchRequest, policy,
  timed_fetch, http_fetch_document, build_bootstrap_uri, authorize, read_answer, fetch_routes_defs,
  handle_fetch_failure, fetch_or_recover, loaded, write_cache,
}

read_answer_sound :
    (o : Outside) (status : ℕ) (body : String) (doc : RoutesDocument)
    → read_answer o (status, body) ≡ ok doc
    → (200 ≤ status) × (status < 300) × (o.parse_json body ≡ some doc)
unfolding read_answer
read_answer_sound o status body doc h = (ground arith, ground arith, ground arith)

timed_fetch-eq-ok :
    (o : Outside) (config : RoutesBootstrap) (version : String) {doc : RoutesDocument}
    → timed_fetch o config version ≡ ok doc
    → http_fetch_document o config version ≡ ok doc
unfolding timed_fetch
timed_fetch-eq-ok o config version h = ground arith

module _ (o : Outside) (config : RoutesBootstrap) (version : String)
    (cache : Option RoutesDocument) where
  -- Unless the policy is to fail, startup goes on: with valid documents, if any come from the
  -- control plane or the cache, the result is no error.
  pub fetch_goes_on :
      policy config ≢ fail
      → ((d : RoutesDocument)
          → timed_fetch o config version ≡ ok d
          → is_ok (into_proxy_defs d) ≡ true)
      → ((d : RoutesDocument) → cache ≡ some d → is_ok (into_proxy_defs d) ≡ true)
      → is_ok (fetch_routes_defs o config version cache).1 ≡ true
  unfolding fetch_routes_defs fetch_or_recover handle_fetch_failure loaded
  fetch_goes_on tolerant fetched cached =
      go (policy config) refl (timed_fetch o config version) refl
    where
      recovered :
          (c : Option RoutesDocument) → cache ≡ c → is_ok (handle_fetch_failure config c) ≡ true
      recovered none e = ground arith
      recovered (some d) e = ground (arith, cached d e)

      go :
          (p : OnFailure)
          → policy config ≡ p
          → (m : Result RoutesDocument) → timed_fetch o config version ≡ m
          → is_ok (fetch_routes_defs o config version cache).1 ≡ true
      go file_only p m e = ground arith
      go fail p m e = absurd (tolerant p)
      go cache_then_file p (ok d) e = ground (arith, fetched d e)
      go cache_then_file p (err x) e = ground (arith, recovered cache refl)

  -- Unless only the file counts: where a cache file is configured and its write works, a document
  -- that is fetched and is valid gives its definitions, and a later start whose fetch fails gives
  -- the same ones.
  pub restart_recovers :
      (o' : Outside) (version' path : String) (doc : RoutesDocument) (defs : List Proxy)
      (e : String)
      → policy config ≢ file_only
      → config.cache_path ≡ some path
      → o.write_works path ≡ true
      → timed_fetch o config version ≡ ok doc
      → into_proxy_defs doc ≡ ok defs
      → timed_fetch o' config version' ≡ err e
      → (fetch_routes_defs o config version cache ≡ (some doc, ok (some defs)))
        × (fetch_routes_defs o' config version' (fetch_routes_defs o config version cache).0
            ≡ (some doc, ok (some defs)))
  unfolding fetch_routes_defs fetch_or_recover handle_fetch_failure loaded write_cache
  restart_recovers o' version' path doc defs e p c w f v g = (ground arith, ground arith)

  -- Unless only the file counts: where a cache file is configured and its write works, a document
  -- that is fetched and is not valid ends the start with its error, whatever the cache holds, and
  -- takes the cache's place, so that a later start whose fetch fails ends with the same error.
  pub invalid_document_spoils_cache :
      (o' : Outside) (version' path : String) (doc : RoutesDocument) (x e : String)
      → policy config ≢ file_only
      → config.cache_path ≡ some path
      → o.write_works path ≡ true
      → timed_fetch o config version ≡ ok doc
      → into_proxy_defs doc ≡ err x
      → timed_fetch o' config version' ≡ err e
      → (fetch_routes_defs o config version cache ≡ (some doc, err x))
        × (fetch_routes_defs o' config version' (fetch_routes_defs o config version cache).0
            ≡ (some doc, err x))
  unfolding fetch_routes_defs fetch_or_recover handle_fetch_failure loaded write_cache
  invalid_document_spoils_cache o' version' path doc x e p c w f v g = (ground arith, ground arith)

  -- A fetched document is the JSON body of an answer with a status of the 200s to a request for the
  -- URI that is built from the settings, with the authorization that they name.
  pub fetch_sound :
      (doc : RoutesDocument)
      → timed_fetch o config version ≡ ok doc
      → (req : FetchRequest) × (status : ℕ) × (body : String) × (o.send req ≡ some (status, body))
        × (200 ≤ status)
        × (status < 300)
        × (o.parse_json body ≡ some doc)
        × (build_bootstrap_uri o config.url config.client_id version ≡ ok req.uri)
        × (authorize o config.token_env ≡ ok req.authorization)
  unfolding http_fetch_document
  fetch_sound doc h =
      let (uri, built, h₁) =
        >>=-eq-ok (build_bootstrap_uri o config.url config.client_id version) _
          (timed_fetch-eq-ok o config version h) in
      let (t, tls, h₂) = >>=-eq-ok (ensure o.client_builds _) _ h₁ in
      let (authorization, allowed, h₃) = >>=-eq-ok (authorize o config.token_env) _ h₂ in
      let (resp, sent, h₄) = >>=-eq-ok (ok_or (o.send _) _) _ h₃ in
      let (good, below, parsed) = read_answer_sound o resp.0 resp.1 doc h₄ in
      (_, resp.0, resp.1, ok_or-eq-ok _ _ sent, good, below, parsed, built, allowed)
