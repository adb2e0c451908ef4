-- ===== src/Proxy/Forward/Kept.antt =====
-- What `forward` keeps of the proxy's state, `pre_process` keeps.
use weave_gate.Common.{
  ℕ, String, ◌≡◌, Bool, true, false, Option, some, Option-cases, inl, inr, Result,
}
use weave_gate.Http.{Http, Request, Response}
use weave_gate.Rules.{ProxyRule}
use weave_gate.Proxy.Matching.{find_rule}
use weave_gate.Proxy.Forward.{ProxyState, forward, when_client, pre_process}

module _ {κ} (L : Http) (client : Request L → Option (Response L)) (P : ProxyState L → Type κ) where
  when_client_keeps :
      (b : Bool) (x : Result (Response L) × ProxyState L) (s : ProxyState L)
      → P x.1
      → P s
      → P (when_client L client b x s).1
  when_client_keeps true x s h k = h
  when_client_keeps false x s h k = k

  pub pre_process_keeps :
      (s : ProxyState L) (req : Request L) (remote_ip : Option String)
      → ((found : ℕ × ProxyRule L)
          → find_rule L s.proxies req ≡ some found
          → P (forward L client s found req remote_ip).1)
      → P s
      → P (pre_process L client s req remote_ip).1
  unfolding pre_process
  pre_process_keeps s req remote_ip h k = elim (Option-cases (find_rule L s.proxies req)) [
    | inl e ↦ rw (e, pre_process) k
    | inr (found, e) ↦
        rw (e, pre_process)
          (when_client_keeps s.has_client (forward L client s found req remote_ip) s (h found e) k)
  ]
