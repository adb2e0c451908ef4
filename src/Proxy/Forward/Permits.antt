-- ===== src/Proxy/Forward/Permits.antt =====
-- The semaphore of the upgraded connections: calls in turn, and calls that overlap.
use mathlib.Core.Option
use weave_gate.Common.{
  ℕ, zero, suc, ◌+◌, ◌≤◌, ◌<◌, String, ◌≡◌, refl, ap, Option, none, some, arith, Bool-cases, inl,
  inr,
}
use weave_gate.Http.{Http, Request, Response}
use weave_gate.Rules.{ProxyRule}
use weave_gate.Proxy.Headers.{is_protocol_upgrade}
use weave_gate.Proxy.Forward.Kept.{pre_process_keeps}
use weave_gate.Proxy.Forward.{
  ProxyState, forward_upgrade, forward_upgrade_inner, with_permit, spawned, forward, pre_process,
  close_tunnel,
}

-- The free permits and the open tunnels together are the configured limit.
pub record IsBalanced (limit : ℕ) (permits : Option ℕ) (tunnels : ℕ) : Type 0 where
  pub free : ℕ
  pub held : permits ≡ some free
  pub total : free + tunnels ≡ limit

module _ (L : Http) (client : Request L → Option (Response L)) where
  forward_upgrade-IsBalanced :
      (limit : ℕ) (permits : Option ℕ) (tunnels : ℕ) (rule : ProxyRule L) (req : Request L)
      (remote_ip : Option String)
      → IsBalanced limit permits tunnels
      → IsBalanced limit
          (forward_upgrade L client permits tunnels rule req remote_ip).2
          (forward_upgrade L client permits tunnels rule req remote_ip).3
  unfolding forward_upgrade with_permit
  forward_upgrade-IsBalanced limit none tunnels rule req remote_ip b = absurd (no_permits b.held)
    where
      no_permits : {n : ℕ} → none ≡ some n → ⊥
      no_permits e = cc
  forward_upgrade-IsBalanced limit (some zero) tunnels rule req remote_ip b = b
  forward_upgrade-IsBalanced limit (some (suc n)) tunnels rule req remote_ip b =
      elim (Bool-cases (spawned L client (forward_upgrade_inner L client rule req remote_ip).0)) [
        | inl e ↦ rw (e, with_permit) (record { free = n; held = refl; total = ground arith })
        | inr e ↦ rw (e, with_permit) b
      ]

  -- the limit holds of the proxy's state
  abbrev pub HasLimit : ℕ → ProxyState L → Type 0
  HasLimit limit s = IsBalanced limit s.permits s.tunnels

  forward-HasLimit :
      (limit : ℕ) (s : ProxyState L) (found : ℕ × ProxyRule L) (req : Request L)
      (remote_ip : Option String)
      → HasLimit limit s
      → HasLimit limit (forward L client s found req remote_ip).1
  unfolding forward
  forward-HasLimit limit s (index, rule) req remote_ip b =
      elim (Bool-cases (is_protocol_upgrade L req)) [
        | inl e ↦
            rw (e, forward)
              (forward_upgrade-IsBalanced limit s.permits s.tunnels rule req remote_ip b)
        | inr e ↦ rw (e, forward) b
      ]

  -- With a limit, every request that the proxy handles keeps the free permits and the open tunnels
  -- balanced, so that there are never more tunnels than the limit.
  pub pre_process-HasLimit :
      (limit : ℕ) (s : ProxyState L) (req : Request L) (remote_ip : Option String)
      → HasLimit limit s
      → HasLimit limit (pre_process L client s req remote_ip).1
        × ((pre_process L client s req remote_ip).1.tunnels ≤ limit)
  pre_process-HasLimit limit s req remote_ip b =
      (after, le_limit (pre_process L client s req remote_ip).1 after)
    where
      le_limit : (s' : ProxyState L) → HasLimit limit s' → s'.tunnels ≤ limit
      le_limit s' v = omega (arith, v.total)

      after : HasLimit limit (pre_process L client s req remote_ip).1
      after =
          pre_process_keeps L client (HasLimit limit) s req remote_ip
            (λ found _. forward-HasLimit limit s found req remote_ip b) b

  -- The end of an open tunnel keeps the free permits and the open tunnels balanced against the limit.
  pub close_tunnel-HasLimit :
      (limit : ℕ) (s : ProxyState L)
      → 0 < s.tunnels
      → HasLimit limit s
      → HasLimit limit (close_tunnel L client s)
  unfolding close_tunnel
  close_tunnel-HasLimit limit s h b = record {
    free = suc b.free;
    held = ap (Option.map suc) b.held;
    total = ground (arith, b.total);
  }
