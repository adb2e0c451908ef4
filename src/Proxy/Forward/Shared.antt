-- ===== src/Proxy/Forward/Shared.antt =====
-- The rules, which all requests share, stay aligned.
use mathlib.Core.Option
use weave_gate.Common.{
  ℕ, zero, suc, String, ◌≡◌, refl, subst, and_then, Bool, Option, none, some, List, [], ◌∷◌, All,
  set, Result, Option-cases, Bool-cases, inl, inr,
}
use weave_gate.Http.{Http, Request, Response}
use weave_gate.Rules.{ProxyRule}
use weave_gate.Rules.Aligned.{IsAligned}
use weave_gate.Proxy.Upstream.Rotated.{upstream_uri_for_rule_lem}
use weave_gate.Proxy.Matching.{find_rule, find_from, request_host, rule_fits}
use weave_gate.Proxy.Forward.Kept.{pre_process_keeps}
use weave_gate.Common.Pairs.{some_inj}
use weave_gate.Proxy.Headers.{is_protocol_upgrade}
use weave_gate.Proxy.Forward.{
  ProxyState, put_rule, forward_http, forward_upgrade, forward_upgrade_inner, with_permit, spawned,
  forward, pre_process,
}

All-set {ℓ κ} :
    {A : Type ℓ} (P : A → Type κ) (xs : List A) (i : ℕ) (a : A)
    → All P xs
    → P a
    → All P (set xs i a)
All-set P [] i a h p = h
All-set P (x ∷ xs) zero a (q, h) p = (p, h)
All-set P (x ∷ xs) (suc i) a (q, h) p = (q, All-set P xs i a h p)

module _ (L : Http) where
  abbrev pub AllAligned : Option (List (ProxyRule L)) → Type 0
  AllAligned none = Unit
  AllAligned (some rules) = All (IsAligned L) rules

  -- A rule that `find_rule` gives is one of the list.
  find_from-All :
      (P : ProxyRule L → Type 0) (i : ℕ) (host path : String) (rules : List (ProxyRule L))
      (found : ℕ × ProxyRule L)
      → find_from L i host path rules ≡ some found
      → All P rules
      → P found.1
  unfolding find_from
  find_from-All P i host path [] found e h = cc
  find_from-All P i host path (r ∷ rules) found e (p, h) =
      elim (Bool-cases (rule_fits L host path r)) [
        | inl f ↦ subst (λ (z : ℕ × ProxyRule L). P z.1) (some_inj (rw (f, find_from) at e)) p
        | inr f ↦ find_from-All P (suc i) host path rules found (rw (f, find_from) at e) h
      ]

  find_rule-IsAligned :
      (proxies : Option (List (ProxyRule L))) (req : Request L) (found : ℕ × ProxyRule L)
      → find_rule L proxies req ≡ some found
      → AllAligned proxies
      → IsAligned L found.1
  unfolding find_rule
  find_rule-IsAligned none req found e h = cc
  find_rule-IsAligned (some rules) req found e h = elim (Option-cases (request_host L req)) [
    | inl f ↦ cc (rw (f, and_then) at e)
    | inr (host, f) ↦
        find_from-All (IsAligned L) 0 host (L.path req.uri) rules found (rw (f, and_then) at e) h
  ]

  module _ (client : Request L → Option (Response L)) where
    rule_with_permit :
        (kept given_back : Option ℕ) (tunnels : ℕ) (x : Result (Response L × Bool) × ProxyRule L)
        → (with_permit L client kept given_back tunnels x).1 ≡ x.1
    unfolding with_permit
    rule_with_permit kept given_back tunnels (result, rule) =
        elim (Bool-cases (spawned L client result)) [
          | inl e ↦ rw (e, with_permit) refl
          | inr e ↦ rw (e, with_permit) refl
        ]

    rule_after_upgrade :
        (permits : Option ℕ) (tunnels : ℕ) (rule : ProxyRule L) (req : Request L)
        (remote_ip : Option String)
        → IsAligned L rule
        → IsAligned L (forward_upgrade L client permits tunnels rule req remote_ip).1
    unfolding forward_upgrade forward_upgrade_inner
    rule_after_upgrade none tunnels rule req remote_ip a =
        let (t, u, v, w, x, after) = upstream_uri_for_rule_lem L rule a req.uri in
        rw rule_with_permit after
    rule_after_upgrade (some zero) tunnels rule req remote_ip a = a
    rule_after_upgrade (some (suc n)) tunnels rule req remote_ip a =
        let (t, u, v, w, x, after) = upstream_uri_for_rule_lem L rule a req.uri in
        rw rule_with_permit after

    put_rule-AllAligned :
        (s : ProxyState L) (index : ℕ) (rule : ProxyRule L)
        → AllAligned s.proxies
        → IsAligned L rule
        → AllAligned (put_rule L client s index rule).proxies
    put_rule-AllAligned s index rule h a = go s.proxies h
      where
        go :
            (o : Option (List (ProxyRule L)))
            → AllAligned o
            → AllAligned (Option.map (λ l. set l index rule) o)
        go none h = tt
        go (some l) h = All-set (IsAligned L) l index rule h a

    forward-AllAligned :
        (s : ProxyState L) (found : ℕ × ProxyRule L) (req : Request L) (remote_ip : Option String)
        → AllAligned s.proxies
        → IsAligned L found.1
        → AllAligned (forward L client s found req remote_ip).1.proxies
    unfolding forward forward_http
    forward-AllAligned s (index, rule) req remote_ip h a =
        elim (Bool-cases (is_protocol_upgrade L req)) [
          | inl e ↦
              rw (e, forward)
                (put_rule-AllAligned s index _ h
                  (rule_after_upgrade s.permits s.tunnels rule req remote_ip a))
          | inr e ↦
              rw (e, forward)
                (let (t, u, v, w, x, after) = upstream_uri_for_rule_lem L rule a req.uri in
                  put_rule-AllAligned s index _ h after)
        ]

    -- Every request leaves all rules aligned: each with instances, and with the template of each
    -- instance at its index.
    pub pre_process-AllAligned :
        (s : ProxyState L) (req : Request L) (remote_ip : Option String)
        → AllAligned s.proxies
        → AllAligned (pre_process L client s req remote_ip).1.proxies
    pre_process-AllAligned s req remote_ip h =
        pre_process_keeps L client (λ s'. AllAligned s'.proxies) s req remote_ip
          (λ found e.
            forward-AllAligned s found req remote_ip h
              (find_rule-IsAligned s.proxies req found e h))
          h
