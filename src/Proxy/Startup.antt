-- ===== src/Proxy/Startup.antt =====
-- proxy.rs: `resolve_rules`, which fills the rules of the settings at startup, and the part of
-- `init` that sets the proxy's state up. `Advanced` holds the settings that they read; the client
-- is built by hyper, and `builds` is whether that works.
pub mod Fallback
use weave_gate.Common.{
  ℕ, String, Bool, true, false, Option, none, some, List, [], ◌++◌, is_nil, if◌then◌else◌,
  unwrap_or, Result, ok, ensure, ◌>>=◌, ◌>>◌,
}
use weave_gate.Http.{Http}
use weave_gate.Routes.{Proxy, RoutesDocument}
use weave_gate.Routes.Bootstrap.{RoutesBootstrap, Outside, fetch_routes_defs}
use weave_gate.Rules.{Glob, ProxyRule, sort_proxy_defs_by_specificity, compile_proxy_rules}
use weave_gate.Proxy.Forward.{ProxyState}

-- settings/mod.rs
pub record Advanced (L : Http) : Type 0 where
  pub proxies : Option (List (ProxyRule L))
  pub proxy_defs : Option (List Proxy)
  pub routes_bootstrap : Option RoutesBootstrap
  pub max_upgrade_tunnels : Option ℕ

module _ (L : Http) (glob_new : String → Option Glob) (o : Outside) (version : String) where
  -- the definitions of the control plane, if it is configured, behind those of the file
  unfoldable pub extend_defs :
      Option RoutesBootstrap
      → List Proxy
      → Option RoutesDocument
      → Option RoutesDocument × Result (List Proxy)
  extend_defs none defs cache = (cache, ok defs)
  extend_defs (some bootstrap) defs cache =
      let (cache', fetched) = fetch_routes_defs o bootstrap version cache in
      (cache', fetched >>= λ remote. ok (defs ++ unwrap_or remote []))

  -- the definitions sorted and compiled, unless there are none
  unfoldable pub install : Advanced L → List Proxy → Result (Option (Advanced L))
  install adv defs = if is_nil defs then ok (some adv) else (do
    rules ← compile_proxy_rules L glob_new (sort_proxy_defs_by_specificity defs)
    ok (some (record adv { proxies = some rules })))

  -- the rules of settings that have none yet
  unfoldable pub resolve_missing :
      Advanced L → Option RoutesDocument → Option RoutesDocument × Result (Option (Advanced L))
  resolve_missing adv cache =
      let (cache', defs) = extend_defs adv.routes_bootstrap (unwrap_or adv.proxy_defs []) cache in
      (cache', defs >>= install adv)

  -- settings whose rules are already there are left alone
  unfoldable pub resolve_rules :
      Option (Advanced L)
      → Option RoutesDocument
      → Option RoutesDocument × Result (Option (Advanced L))
  resolve_rules none cache = (cache, ok none)
  resolve_rules (some adv) cache = elim adv.proxies [
    | some rules ↦ (cache, ok (some adv))
    | none ↦ resolve_missing adv cache
  ]

-- `init`: a client and the permits, if there are rules
unfoldable pub init : (L : Http) → Bool → Option (Advanced L) → Result (ProxyState L)
init L builds none = ok (record { proxies = none; has_client = false; permits = none; tunnels = 0 })
init L builds (some adv) =
    if is_nil (unwrap_or adv.proxies [])
    then ok (record { proxies = adv.proxies; has_client = false; permits = none; tunnels = 0 })
    else (do
      ensure builds "failed to build the proxy client"
      ok (record {
        proxies = adv.proxies;
        has_client = true;
        permits = adv.max_upgrade_tunnels;
        tunnels = 0;
      }))
