-- ===== src/Handler/Passed.antt =====
-- What the handler keeps of the proxy's state and of the request.
use weave_gate.Common.{
  ℕ, String, ◌≡◌, ◌≤◌, ap, subst, inl, inr, Bool, true, false, Option, none, some, Result,
  Option-cases, arith,
}
use weave_gate.Http.{Http, Request, Response}
use weave_gate.Redirects.{rewrites_answer}
use weave_gate.Redirects.Matched.{IsRewritten, rewrites_answer-IsRewritten}
use weave_gate.Proxy.Forward.{ProxyState, pre_process}
use weave_gate.Proxy.Forward.Permits.{HasLimit, pre_process-HasLimit}
use weave_gate.Handler.{
  Services, HandlerOpts, Outcome, answered, to_static, checks, try_reverse_proxy, early_proxy,
  late_proxy, after_rewrites, redirects_then, after_early_proxy, handle_front,
}

module _ (L : Http) (o : Services L) (opts : HandlerOpts L) (remote_ip : Option String) where
  -- What the proxy keeps of its state, the handler keeps.
  module _ {κ} (P : ProxyState L → Type κ)
      (kept : (s : ProxyState L) (req : Request L)
        → P s
        → P (pre_process L o.client s req remote_ip).1) where
    try_reverse_proxy_keeps :
        (s : ProxyState L) (req : Request L)
        → P s
        → P (try_reverse_proxy L o opts s req remote_ip).1
    unfolding try_reverse_proxy
    try_reverse_proxy_keeps s req p = kept s req p

    early_proxy_keeps :
        (b : Bool) (s : ProxyState L) (req : Request L)
        → P s
        → P (early_proxy L o opts b s req remote_ip).1
    unfolding early_proxy
    early_proxy_keeps true s req p = try_reverse_proxy_keeps s req p
    early_proxy_keeps false s req p = p

    late_proxy_keeps :
        (b : Bool) (s : ProxyState L) (req : Request L)
        → P s
        → P (late_proxy L o opts b s req remote_ip).1
    unfolding late_proxy
    late_proxy_keeps true s req p = p
    late_proxy_keeps false s req p = try_reverse_proxy_keeps s req p

    after_rewrites_keeps :
        (s : ProxyState L) (x : Option (Result (Response L)) × Request L)
        → P s
        → P (after_rewrites L o opts s remote_ip x).1
    unfolding after_rewrites
    after_rewrites_keeps s (some result, req) p = p
    after_rewrites_keeps s (none, req) p = late_proxy_keeps opts.proxy_first s req p

    redirects_then_keeps :
        (s : ProxyState L) (req : Request L) (x : Option (Result (Response L)))
        → P s
        → P (redirects_then L o opts s req remote_ip x).1
    unfolding redirects_then
    redirects_then_keeps s req (some result) p = p
    redirects_then_keeps s req none p = after_rewrites_keeps s _ p

    after_early_proxy_keeps :
        (req : Request L) (x : Option (Response L) × ProxyState L)
        → P x.1
        → P (after_early_proxy L o opts req remote_ip x).1
    unfolding after_early_proxy
    after_early_proxy_keeps req (some resp, s) p = p
    after_early_proxy_keeps req (none, s) p = redirects_then_keeps s req _ p

    pub handle_front_keeps :
        (s : ProxyState L) (req : Request L) → P s → P (handle_front L o opts s req remote_ip).1
    unfolding handle_front
    handle_front_keeps s req p = elim (Option-cases (checks L o opts req)) [
      | inl e ↦
          rw (e, handle_front)
            (after_early_proxy_keeps req (early_proxy L o opts opts.proxy_first s req remote_ip)
              (early_proxy_keeps opts.proxy_first s req p))
      | inr (resp, e) ↦ rw (e, handle_front) p
    ]

  -- The handler keeps the balance of free permits and open tunnels, and so there are never more
  -- tunnels than the limit.
  pub handle_front-HasLimit :
      (limit : ℕ) (s : ProxyState L) (req : Request L)
      → HasLimit L o.client limit s
      → HasLimit L o.client limit (handle_front L o opts s req remote_ip).1
        × ((handle_front L o opts s req remote_ip).1.tunnels ≤ limit)
  handle_front-HasLimit limit s req b =
      (after, le_limit (handle_front L o opts s req remote_ip).1 after)
    where
      le_limit : (s' : ProxyState L) → HasLimit L o.client limit s' → s'.tunnels ≤ limit
      le_limit s' v = omega (arith, v.total)

      after : HasLimit L o.client limit (handle_front L o opts s req remote_ip).1
      after =
          handle_front_keeps (HasLimit L o.client limit)
            (λ s' req' v. (pre_process-HasLimit L o.client limit s' req' remote_ip v).0) s req b

  to_static_inj : {r r' : Request L} → ◌≡◌ {A = Outcome L} (to_static r) (to_static r') → r ≡ r'
  to_static_inj {r} e = ap request_of e
    where
      request_of : Outcome L → Request L
      request_of (to_static q) = q
      request_of (answered resp) = r

  late_proxy-static :
      (b : Bool) (s : ProxyState L) (req req' : Request L)
      → (late_proxy L o opts b s req remote_ip).0 ≡ to_static req'
      → req ≡ req'
  unfolding late_proxy
  late_proxy-static true s req req' e = to_static_inj e
  late_proxy-static false s req req' e = go (try_reverse_proxy L o opts s req remote_ip).0 e
    where
      go :
          (a : Option (Response L))
          → elim a [ none ↦ to_static req | some resp ↦ answered resp ] ≡ to_static req'
          → req ≡ req'
      go none h = to_static_inj h
      go (some resp) h = cc

  after_rewrites-static :
      (s : ProxyState L) (x : Option (Result (Response L)) × Request L) (req' : Request L)
      → (after_rewrites L o opts s remote_ip x).0 ≡ to_static req'
      → x.1 ≡ req'
  unfolding after_rewrites
  after_rewrites-static s (some result, req) req' e = cc
  after_rewrites-static s (none, req) req' e = late_proxy-static opts.proxy_first s req req' e

  redirects_then-static :
      (s : ProxyState L) (req req' : Request L) (x : Option (Result (Response L)))
      → (redirects_then L o opts s req remote_ip x).0 ≡ to_static req'
      → (rewrites_answer L o.texts opts.rewrites req).1 ≡ req'
  unfolding redirects_then
  redirects_then-static s req req' (some result) e = cc
  redirects_then-static s req req' none e =
      after_rewrites-static s (rewrites_answer L o.texts opts.rewrites req) req' e

  after_early_proxy-static :
      (req req' : Request L) (x : Option (Response L) × ProxyState L)
      → (after_early_proxy L o opts req remote_ip x).0 ≡ to_static req'
      → (rewrites_answer L o.texts opts.rewrites req).1 ≡ req'
  unfolding after_early_proxy
  after_early_proxy-static req req' (some resp, s) e = cc
  after_early_proxy-static req req' (none, s) e = redirects_then-static s req req' _ e

  -- A request that goes on to the static files passed every check, and has the method, the body and
  -- all headers but `Host` of the one that came in.
  pub handle_front-IsRewritten :
      (s : ProxyState L) (req req' : Request L)
      → (handle_front L o opts s req remote_ip).0 ≡ to_static req'
      → (checks L o opts req ≡ none) × IsRewritten L o.texts req req'
  unfolding handle_front
  handle_front-IsRewritten s req req' e = elim (Option-cases (checks L o opts req)) [
    | inl c ↦ (
      c,
      subst (IsRewritten L o.texts req)
          (after_early_proxy-static req req' (early_proxy L o opts opts.proxy_first s req remote_ip)
            (rw (c, handle_front) at e))
          (rewrites_answer-IsRewritten L o.texts opts.rewrites req),
    )
    | inr (resp, c) ↦ cc (rw (c, handle_front) at e)
  ]
