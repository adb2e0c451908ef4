-- ===== src/Proxy/Startup/Fallback.antt =====
-- What the startup of the proxy promises.
use weave_gate.Common.{
  String, ◌≡◌, refl, sym, ap, ◌∙◌, ◌≢◌, ◌⊎◌, Option, none, some, List, [], ◌∷◌, ◌++◌, unwrap_or,
  Result, ok, err, >>=-eq-ok, inl, inr, arith,
}
use mathlib.Core.List.{append-nil}
use weave_gate.Common.Pairs.{Pairs-All, ok_inj, some_inj}
use weave_gate.Http.{Http}
use weave_gate.Routes.{Proxy, RoutesDocument}
use weave_gate.Routes.Bootstrap.{
  RoutesBootstrap, Outside, OnFailure, cache_then_file, fail, file_only, policy, timed_fetch,
  fetch_routes_defs, fetch_or_recover, handle_fetch_failure, read_cache, give_up,
}
use weave_gate.Rules.{Glob, sort_proxy_defs_by_specificity, compile_proxy_rules}
use weave_gate.Rules.Aligned.{IsAligned, IsCompiled, compile_proxy_rules_lem}
use weave_gate.Proxy.Forward.Shared.{AllAligned}
use weave_gate.Proxy.Startup.{Advanced, extend_defs, install, resolve_missing, resolve_rules}

module _ (L : Http) (glob_new : String → Option Glob) (o : Outside) (version : String) where
  install-AllAligned :
      (adv adv' : Advanced L) (defs : List Proxy)
      → adv.proxies ≡ none
      → install L glob_new o version adv defs ≡ ok (some adv')
      → AllAligned L adv'.proxies
  unfolding install
  install-AllAligned adv adv' [] n h = rw (← some_inj (ok_inj h), n) tt
  install-AllAligned adv adv' (d ∷ defs) n h =
      let (rules, e, f) =
        >>=-eq-ok (compile_proxy_rules L glob_new (sort_proxy_defs_by_specificity (d ∷ defs))) _
          h in
      rw (← some_inj (ok_inj f)) (
        Pairs-All (IsAligned L) (λ def r (c : IsCompiled L glob_new def r). c.aligned)
          (compile_proxy_rules_lem L glob_new _ rules e))

  resolve_rules-eq-missing :
      (adv : Advanced L) (cache : Option RoutesDocument)
      → adv.proxies ≡ none
      → resolve_rules L glob_new o version (some adv) cache
        ≡ resolve_missing L glob_new o version adv cache
  unfolding resolve_rules
  resolve_rules-eq-missing adv cache n = ground arith

  resolve_missing-AllAligned :
      (adv adv' : Advanced L) (cache : Option RoutesDocument)
      → adv.proxies ≡ none
      → (resolve_missing L glob_new o version adv cache).1 ≡ ok (some adv')
      → AllAligned L adv'.proxies
  unfolding resolve_missing
  resolve_missing-AllAligned adv adv' cache n h =
      let (defs, e, f) =
        >>=-eq-ok
          (extend_defs L glob_new o version adv.routes_bootstrap (unwrap_or adv.proxy_defs [])
            cache).1
          _ h in
      install-AllAligned adv adv' defs n f

  -- When the rules are resolved without an error and were not there before, every rule is
  -- aligned: whatever the file, the control plane and the cache hold.
  pub resolve_rules-AllAligned :
      (adv adv' : Advanced L) (cache : Option RoutesDocument)
      → adv.proxies ≡ none
      → (resolve_rules L glob_new o version (some adv) cache).1 ≡ ok (some adv')
      → AllAligned L adv'.proxies
  resolve_rules-AllAligned adv adv' cache n h = resolve_missing-AllAligned adv adv' cache n (
      ap (λ (x : Option RoutesDocument × Result (Option (Advanced L))). x.1)
        (sym (resolve_rules-eq-missing adv cache n))
      ∙ h)

  fetch-unreachable :
      (config : RoutesBootstrap) (e : String)
      → timed_fetch o config version ≡ err e
      → fetch_routes_defs o config version none ≡ (none, give_up (policy config))
  unfolding fetch_routes_defs fetch_or_recover handle_fetch_failure read_cache give_up
  fetch-unreachable config e f = ground arith

  -- When nothing can be fetched and there is nothing in the cache, the proxy starts as if no
  -- control plane were configured, unless the policy is to fail, which does not start it.
  pub resolve_rules-unreachable :
      (adv : Advanced L) (config : RoutesBootstrap) (e : String)
      → adv.proxies ≡ none
      → adv.routes_bootstrap ≡ some config
      → timed_fetch o config version ≡ err e
      → ((policy config ≢ fail)
          × (resolve_rules L glob_new o version (some adv) none
              ≡ (none, install L glob_new o version adv (unwrap_or adv.proxy_defs []))))
        ⊎ ((policy config ≡ fail)
            × (resolve_rules L glob_new o version (some adv) none
                ≡ (none, err "routes bootstrap: fetch failed and no cache available")))
  unfolding resolve_missing extend_defs give_up
  resolve_rules-unreachable adv config e n b f = go (policy config) refl
    where
      start :
          resolve_rules L glob_new o version (some adv) none
          ≡ resolve_missing L glob_new o version adv none
      start = resolve_rules-eq-missing adv none n

      file_defs : unwrap_or adv.proxy_defs [] ++ [] ≡ unwrap_or adv.proxy_defs []
      file_defs = append-nil _

      found : fetch_routes_defs o config version none ≡ (none, give_up (policy config))
      found = fetch-unreachable config e f

      go :
          (p : OnFailure)
          → policy config ≡ p
          → ((policy config ≢ fail)
              × (resolve_rules L glob_new o version (some adv) none
                  ≡ (none, install L glob_new o version adv (unwrap_or adv.proxy_defs []))))
            ⊎ ((policy config ≡ fail)
                × (resolve_rules L glob_new o version (some adv) none
                    ≡ (none, err "routes bootstrap: fetch failed and no cache available")))
      go cache_then_file p = inl (λ h. ground arith, start ∙ ground (arith, b, found, p, file_defs))
      go fail p = inr (p, start ∙ ground (arith, b, found, p))
      go file_only p = inl (λ h. ground arith, start ∙ ground (arith, b, found, p, file_defs))
