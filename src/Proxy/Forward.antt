-- ===== src/Proxy/Forward.antt =====
-- proxy.rs: `forward_http`, `forward_upgrade` and `pre_process`. The upstream client is a
-- function from requests to answers, `none` where the request fails. The state that calls share is
-- passed on: the rules with the counters of their balancers, the permits of the semaphore for
-- upgraded connections, and the number of tunnels that are open. `on` the upgrade's two streams and
-- the copying between them belong to hyper and tokio. The request's body is moved into the upstream
-- request; nothing reads it afterwards.
pub mod Kept
pub mod Sending
pub mod Permits
pub mod Shared
pub mod Interleaved
use mathlib.Core.Option
use weave_gate.Common.{
  ℕ, zero, suc, ◌-◌, String, Bool, true, false, Option, none, some, List, eqb, if◌then◌else◌, set,
  Result, ok, err, ok_or, ◌>>=◌,
}
use weave_gate.Http.{Http, Request, Response}
use weave_gate.Rules.{ProxyRule}
use weave_gate.Proxy.Upstream.{upstream_uri_for_rule}
use weave_gate.Proxy.Matching.{find_rule}
use weave_gate.Proxy.Headers.{
  is_protocol_upgrade, is_streaming_request, copy_forwardable_headers, copy_upgrade_request_headers,
  set_upstream_host, append_forwarded_headers, remove_hop_by_hop_request_headers,
  preserve_streaming_response_headers,
}

-- What the proxy keeps between requests (handler.rs, `RequestHandlerOpts`): `permits` is `None`
-- where the number of tunnels is not limited.
pub record ProxyState (L : Http) : Type 0 where
  pub proxies : Option (List (ProxyRule L))
  pub has_client : Bool
  pub permits : Option ℕ
  pub tunnels : ℕ

module _ (L : Http) where
  -- the headers of the upstream request of `forward_http`
  unfoldable pub http_request_headers : Request L → L.Uri → Option String → Result L.Headers
  http_request_headers req upstream_uri remote_ip = do
    headers ← set_upstream_host L (copy_forwardable_headers L req.headers L.empty) upstream_uri
    ok (remove_hop_by_hop_request_headers L (append_forwarded_headers L headers req remote_ip))

  -- ... and of `forward_upgrade_inner`
  unfoldable pub upgrade_request_headers : Request L → L.Uri → Option String → Result L.Headers
  upgrade_request_headers req upstream_uri remote_ip = do
    headers ← set_upstream_host L (copy_upgrade_request_headers L req.headers L.empty) upstream_uri
    ok (append_forwarded_headers L headers req remote_ip)

  module _ (client : Request L → Option (Response L)) where
    -- the request that is sent, and its answer
    unfoldable pub send_upstream : Request L → L.Uri → L.Headers → Result (Response L)
    send_upstream req upstream_uri headers =
        ok_or
          (client (record {
            method = req.method;
            uri = upstream_uri;
            headers = headers;
            body = req.body;
          }))
          "proxy request failed for upstream"

    -- the headers of the response to the client
    unfoldable pub http_response_headers : Bool → L.Headers → L.Headers
    http_response_headers streaming headers =
        if streaming
        then preserve_streaming_response_headers L headers
        else remove_hop_by_hop_request_headers L headers

    unfoldable pub answer_http : Request L → Option String → L.Uri → Result (Response L)
    answer_http req remote_ip upstream_uri = do
      headers ← http_request_headers req upstream_uri remote_ip
      resp ← send_upstream req upstream_uri headers
      ok (record resp { headers = http_response_headers (is_streaming_request L req) resp.headers })

    unfoldable pub forward_http :
        ProxyRule L → Request L → Option String → Result (Response L) × ProxyRule L
    forward_http rule req remote_ip =
        let (uri, rule') = upstream_uri_for_rule L rule req.uri in
        (uri >>= answer_http req remote_ip, rule')

    -- The answer to an upgrade, and whether a tunnel is spawned for it.
    unfoldable pub switched : Response L → Response L × Bool
    switched resp = if eqb resp.status 101 then (record resp { body = "" }, true) else (resp, false)

    unfoldable pub answer_upgrade : Request L → Option String → L.Uri → Result (Response L × Bool)
    answer_upgrade req remote_ip upstream_uri = do
      headers ← upgrade_request_headers req upstream_uri remote_ip
      resp ← send_upstream req upstream_uri headers
      ok (switched resp)

    unfoldable pub forward_upgrade_inner :
        ProxyRule L → Request L → Option String → Result (Response L × Bool) × ProxyRule L
    forward_upgrade_inner rule req remote_ip =
        let (uri, rule') = upstream_uri_for_rule L rule req.uri in
        (uri >>= answer_upgrade req remote_ip, rule')

    -- whether a tunnel was spawned; only then does the permit outlive the call
    abbrev pub spawned : Result (Response L × Bool) → Bool
    spawned (ok (resp, tunnel)) = tunnel
    spawned (err e) = false

    abbrev pub answered : Result (Response L × Bool) → Result (Response L)
    answered (ok (resp, tunnel)) = ok resp
    answered (err e) = err e

    -- `SERVICE_UNAVAILABLE` with no headers and no body
    abbrev pub unavailable : Response L
    unavailable = record { status = 503; headers = L.empty; body = "" }

    -- the result, the rule, the permits that are left and the tunnels that are open
    abbrev pub Upgraded : Type 0
    Upgraded = Result (Response L) × ProxyRule L × Option ℕ × ℕ

    -- after `forward_upgrade_inner`: a permit is kept by the tunnel, or given back
    unfoldable pub with_permit :
        Option ℕ → Option ℕ → ℕ → Result (Response L × Bool) × ProxyRule L → Upgraded
    with_permit kept given_back tunnels (result, rule) =
        if spawned result
        then (answered result, rule, kept, suc tunnels)
        else (answered result, rule, given_back, tunnels)

    unfoldable pub forward_upgrade :
        Option ℕ → ℕ → ProxyRule L → Request L → Option String → Upgraded
    forward_upgrade none tunnels rule req remote_ip =
        with_permit none none tunnels (forward_upgrade_inner rule req remote_ip)
    forward_upgrade (some zero) tunnels rule req remote_ip =
        (ok unavailable, rule, some zero, tunnels)
    forward_upgrade (some (suc n)) tunnels rule req remote_ip =
        with_permit (some n) (some (suc n)) tunnels (forward_upgrade_inner rule req remote_ip)

    -- the rule's balancer is shared: its counter is written back to the list
    abbrev pub put_rule : ProxyState L → ℕ → ProxyRule L → ProxyState L
    put_rule s index rule = record s { proxies = Option.map (λ l. set l index rule) s.proxies }

    -- the branch of `pre_process` for a rule that was found
    unfoldable pub forward :
        ProxyState L
        → ℕ × ProxyRule L
        → Request L
        → Option String
        → Result (Response L) × ProxyState L
    forward s (index, rule) req remote_ip =
        if is_protocol_upgrade L req
        then (let (result, rule', permits, tunnels) =
              forward_upgrade s.permits s.tunnels rule req remote_ip in
            (result, record (put_rule s index rule') { permits = permits; tunnels = tunnels }))
        else (let (result, rule') = forward_http rule req remote_ip in
            (result, put_rule s index rule'))

    -- `opts.proxy_client.as_ref()?` before the answer
    abbrev pub when_client :
        Bool
        → Result (Response L) × ProxyState L
        → ProxyState L
        → Option (Result (Response L)) × ProxyState L
    when_client true (result, s') s = (some result, s')
    when_client false _ s = (none, s)

    -- `none` where the proxy leaves the request to the rest of the handler
    unfoldable pub pre_process :
        ProxyState L → Request L → Option String → Option (Result (Response L)) × ProxyState L
    pre_process s req remote_ip = elim (find_rule L s.proxies req) [
      | none ↦ (none, s)
      | some found ↦ when_client s.has_client (forward s found req remote_ip) s
    ]

    -- the end of a tunnel's task, which drops the permit
    unfoldable pub close_tunnel : ProxyState L → ProxyState L
    close_tunnel s = record s { permits = Option.map suc s.permits; tunnels = s.tunnels - 1 }
