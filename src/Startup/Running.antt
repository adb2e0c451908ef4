-- ===== src/Startup/Running.antt =====
-- The running server: requests that are handled and tunnels that end, in any order, from the state that
-- the start gives.
use weave_gate.Common.{
  Result-cases, ℕ, ◌≤◌, ◌<◌, ◌≡◌, refl, sym, ap, ◌∙◌, subst, arith, String, Option, none, some,
  List, [], ◌∷◌, eqb, and_then, is_nil, unwrap_or, Bool-cases, inl, inr, if◌then◌else◌, ok, ensure,
  >>=-eq-ok,
}
use weave_gate.Common.Pairs.{ok_inj}
use weave_gate.Http.{Http, Request}
use weave_gate.Routes.{RoutesDocument}
use weave_gate.Proxy.Startup.{Advanced as ProxyAdvanced, resolve_rules, init as init_proxy}
use weave_gate.Proxy.Startup.Fallback.{resolve_rules-AllAligned}
use weave_gate.Proxy.Forward.{ProxyState, pre_process, close_tunnel}
use weave_gate.Proxy.Forward.Shared.{AllAligned, pre_process-AllAligned}
use weave_gate.Proxy.Forward.Permits.{HasLimit, pre_process-HasLimit, close_tunnel-HasLimit}
use weave_gate.Settings.{Settings}
use weave_gate.Settings.Advanced.{Advanced}
use weave_gate.Handler.{Services, Outcome, answered, to_static, handle_front}
use weave_gate.Handler.Passed.{handle_front_keeps}
use weave_gate.Handler.Answering.{FileServices, finish_outcome, handle}
use weave_gate.Startup.{Site, Started, proxy_advanced, proxy_state, checked_site, start_server}

-- what happens to the server
pub data Event (L : Http) : Type 0 where
  request_came : Request L → Option String → Event L
  tunnel_closed : Event L

module _ (L : Http) (o : Services L) (f : FileServices L) (s : Started L) where
  unfoldable pub after : Event L → ProxyState L → ProxyState L
  after (request_came req remote_ip) state = (handle L o s.handler f s.files state req remote_ip).1
  after tunnel_closed state = if eqb state.tunnels 0 then state else close_tunnel L o.client state

  unfoldable pub run : List (Event L) → ProxyState L → ProxyState L
  run [] state = state
  run (e ∷ events) state = run events (after e state)

  finish_outcome-state :
      (x : Outcome L × ProxyState L) → (finish_outcome L o s.handler f s.files x).1 ≡ x.1
  unfolding finish_outcome
  finish_outcome-state (answered resp, state) = refl
  finish_outcome-state (to_static req, state) = refl

  -- what both kinds of events keep, the server keeps
  module _ {κ} (P : ProxyState L → Type κ)
      (kept : (st : ProxyState L) (req : Request L) (remote_ip : Option String)
        → P st
        → P (pre_process L o.client st req remote_ip).1)
      (closed : (st : ProxyState L) → 0 < st.tunnels → P st → P (close_tunnel L o.client st)) where
    after_keeps : (e : Event L) (state : ProxyState L) → P state → P (after e state)
    unfolding after handle
    after_keeps (request_came req remote_ip) state p =
        subst P (sym (finish_outcome-state (handle_front L o s.handler state req remote_ip)))
          (handle_front_keeps L o s.handler remote_ip P (λ st r. kept st r remote_ip) state req p)
    after_keeps tunnel_closed state p = elim (Bool-cases (eqb state.tunnels 0)) [
      | inl e ↦ rw (e, after) p
      | inr e ↦ rw (e, after) (closed state (ground arith) p)
    ]

    run_keeps : (events : List (Event L)) (state : ProxyState L) → P state → P (run events state)
    unfolding run
    run_keeps [] state p = p
    run_keeps (e ∷ events) state p = run_keeps events (after e state) (after_keeps e state p)

module _ (L : Http) (site : Site L) (version : String) where
  start_server-proxy :
      (settings : Settings L) (cache : Option RoutesDocument) (s : Started L)
      → (start_server L site version settings cache).1 ≡ ok s
      → (proxy_state L site version settings.advanced cache).1 ≡ ok s.proxy
  unfolding start_server
  start_server-proxy settings cache s h =
      elim (Result-cases (checked_site L site version settings.general)) [
        | inl (e, c) ↦ cc (rw (c, start_server) at h)
        | inr (checked, c) ↦
            let h₁ = rw (c, start_server) at h in
            let (state, p, h₂) =
              >>=-eq-ok (proxy_state L site version settings.advanced cache).1 _ h₁ in
            p ∙ ap ok (ap (λ t. t.proxy) (ok_inj h₂))
      ]

  -- what `init` makes of the resolved settings
  abbrev IsInitial : Option (ProxyAdvanced L) → ProxyState L → Type 0
  IsInitial adv state = (state.tunnels ≡ 0) × (state.proxies ≡ and_then adv (λ a. a.proxies))

  init_proxy-IsInitial :
      (adv : Option (ProxyAdvanced L)) (state : ProxyState L)
      → init_proxy L site.builds adv ≡ ok state
      → IsInitial adv state
  unfolding init_proxy
  init_proxy-IsInitial none state h = subst (IsInitial none) (ok_inj h) (refl, refl)
  init_proxy-IsInitial (some adv) state h = elim (Bool-cases (is_nil (unwrap_or adv.proxies []))) [
    | inl e ↦ subst (IsInitial (some adv)) (ok_inj (rw (e, init_proxy) at h)) (refl, refl)
    | inr e ↦
        let (_, _, h₁) = >>=-eq-ok (ensure site.builds _) _ (rw (e, init_proxy) at h) in
        subst (IsInitial (some adv)) (ok_inj h₁) (refl, refl)
  ]

  resolved-AllAligned :
      (advanced : Option (Advanced L)) (cache : Option RoutesDocument)
      (adv : Option (ProxyAdvanced L))
      → (resolve_rules L site.compilers.glob_new site.outside version
          (and_then advanced (λ a. some (proxy_advanced L site version a)))
          cache).1
        ≡ ok adv
      → AllAligned L (and_then adv (λ a. a.proxies))
  unfolding resolve_rules proxy_advanced
  resolved-AllAligned advanced cache none h = tt
  resolved-AllAligned none cache (some adv) h = cc
  resolved-AllAligned (some a) cache (some adv) h =
      resolve_rules-AllAligned L site.compilers.glob_new site.outside version _ adv cache refl h

  -- the state that the start gives
  start_server-IsInitial :
      (settings : Settings L) (cache : Option RoutesDocument) (s : Started L)
      → (start_server L site version settings cache).1 ≡ ok s
      → (s.proxy.tunnels ≡ 0) × AllAligned L s.proxy.proxies
  unfolding proxy_state
  start_server-IsInitial settings cache s h =
      let p = start_server-proxy settings cache s h in
      let (adv, resolved, i) =
        >>=-eq-ok
          (resolve_rules L site.compilers.glob_new site.outside version
            (and_then settings.advanced (λ a. some (proxy_advanced L site version a))) cache).1
          _ p in
      let (none_open, same) = init_proxy-IsInitial adv s.proxy i in
      (none_open, rw (same) (resolved-AllAligned settings.advanced cache adv resolved))

  -- From a start on that works, whatever the control plane, the cache and the files hold: whichever
  -- requests are handled and tunnels end, in any order, every rule of the proxy stays aligned, with an
  -- instance to choose and a template for each; and if there is a limit, there are never more open
  -- tunnels than that.
  pub run-IsSafe :
      (settings : Settings L) (cache : Option RoutesDocument) (s : Started L)
      → (start_server L site version settings cache).1 ≡ ok s
      → (o : Services L) (f : FileServices L) (events : List (Event L))
      → AllAligned L (run L o f s events s.proxy).proxies
        × ((limit : ℕ)
            → s.proxy.permits ≡ some limit
            → (run L o f s events s.proxy).tunnels ≤ limit)
  unfolding close_tunnel
  run-IsSafe settings cache s h o f events =
      let (none_open, aligned) = start_server-IsInitial settings cache s h in
      (
        run_keeps L o f s (λ st. AllAligned L st.proxies) (pre_process-AllAligned L o.client)
            (λ st _ k. k) events s.proxy aligned,
        λ limit p.
            let balanced : HasLimit L o.client limit s.proxy = record {
              free = limit;
              held = p;
              total = omega (arith, none_open);
            } in
            let kept =
              run_keeps L o f s (HasLimit L o.client limit)
                (λ st req remote_ip b. (pre_process-HasLimit L o.client limit st req remote_ip b).0)
                (close_tunnel-HasLimit L o.client limit) events s.proxy balanced in
            omega (arith, kept.total),
      )
