-- ===== src/Proxy/Tests/Forwarding.antt =====
-- Runs of the requests that are forwarded.
use weave_gate.Common.{
  ◌+◌, ◌≤◌, String, ◌≡◌, refl, true, Option, none, some, List, [], ◌∷◌, any, ◌==◌, if◌then◌else◌,
  ok,
}
use weave_gate.Common.Text.{strip_prefix, split_once, trim_end_matches, lower_contains}
use weave_gate.Http.{Request, Response, first_value, contains_key}
use weave_gate.Http.Assoc.{assoc, PlainUri, parse, whole_path, drop_name}
use weave_gate.Balancer.{next_index}
use weave_gate.Proxy.Upstream.{
  upstream_text, merged_path, without_prefix, rooted_path, build_upstream_uri_from_template,
  upstream_uri_for_rule,
}
use weave_gate.Proxy.Headers.{
  removed_names, streaming_removed_names, is_hop_by_hop_header, is_streaming_request,
  set_upstream_host, copy_forwardable_headers, append_forwarded_headers,
  remove_hop_by_hop_request_headers,
}
use weave_gate.Proxy.Forward.{
  ProxyState, http_request_headers, send_upstream, answer_http, http_response_headers, forward_http,
  forward_upgrade, unavailable, pre_process,
}
use weave_gate.Proxy.Forward.Sending.{http_request_headers_lem, forward_http_sound}
use weave_gate.Proxy.Forward.Permits.{HasLimit, pre_process-HasLimit}
use weave_gate.Proxy.Forward.Interleaved.{
  Slots, Reach, acquire, spawn, here, next, slots, tunnels_bounded, forward_upgrade-Reach,
}
use weave_gate.Proxy.Tests.{req, ws_req, users_rule, api_rule, base}

-- an upstream that switches protocols for those who ask for it
abbrev client : Request assoc → Option (Response assoc)
client r = some (record {
  status = if contains_key assoc r.headers "upgrade" then 101 else 200;
  headers = ("connection", "close") ∷ ("x-method", r.method) ∷ [];
  body = "seven";
})

abbrev state : ProxyState assoc
state = record {
  proxies = some (users_rule ∷ api_rule ∷ []);
  has_client = true;
  permits = some 2;
  tunnels = 1;
}

abbrev sent_headers : List (String × String)
sent_headers =
    ("x-forwarded-host", "gateway.local:8080")
    ∷ ("x-forwarded-proto", "http")
    ∷ ("x-forwarded-for", "10.0.0.9")
    ∷ ("host", "b:2")
    ∷ ("cookie", "b=2")
    ∷ []

sent : http_request_headers assoc req (base "b:2" "/v1/users/7") (some "10.0.0.9") ≡ ok sent_headers
unfolding http_request_headers set_upstream_host copy_forwardable_headers is_hop_by_hop_header
    append_forwarded_headers remove_hop_by_hop_request_headers drop_name first_value
sent = refl

-- of two cookies the last one is sent
http_request_headers_lem_example : assoc.get sent_headers "cookie" ≡ some "b=2"
unfolding is_hop_by_hop_header
http_request_headers_lem_example =
    http_request_headers_lem assoc req (base "b:2" "/v1/users/7") (some "10.0.0.9") sent_headers
      "cookie" sent

abbrev seven : Response assoc
seven = record { status = 200; headers = ("x-method", "GET") ∷ []; body = "seven" }

forwarded : (forward_http assoc client users_rule req (some "10.0.0.9")).0 ≡ ok seven
unfolding forward_http answer_http send_upstream http_response_headers upstream_uri_for_rule
    next_index build_upstream_uri_from_template upstream_text without_prefix rooted_path merged_path
    strip_prefix trim_end_matches parse whole_path is_streaming_request first_value lower_contains
    http_request_headers set_upstream_host copy_forwardable_headers is_hop_by_hop_header
    append_forwarded_headers remove_hop_by_hop_request_headers drop_name split_once
forwarded = refl

forward_http_sound_example :
    (uri : PlainUri) × (headers : List (String × String)) × (answer : Response assoc)
    × ((upstream_uri_for_rule assoc users_rule req.uri).0 ≡ ok uri)
    × (http_request_headers assoc req uri (some "10.0.0.9") ≡ ok headers)
    × (client (record { method = "GET"; uri = uri; headers = headers; body = "" }) ≡ some answer)
    × (200 ≡ answer.status)
    × ("seven" ≡ answer.body)
    × ((j : String)
        → assoc.get seven.headers j ≡ (
            if any
              (λ n. n == j)
              (if is_streaming_request assoc req then streaming_removed_names else removed_names)
            then none
            else assoc.get answer.headers j))
forward_http_sound_example =
    forward_http_sound assoc client users_rule req (some "10.0.0.9") seven forwarded

state-HasLimit : HasLimit assoc client 3 state
state-HasLimit = record { free = 2; held = refl; total = refl }

-- the upgrade of this run takes the second permit
pre_process-HasLimit_example :
    HasLimit assoc client 3 (pre_process assoc client state ws_req none).1
    × ((pre_process assoc client state ws_req none).1.tunnels ≤ 3)
pre_process-HasLimit_example = pre_process-HasLimit assoc client 3 state ws_req none state-HasLimit

-- without a permit
upgrade_refused :
    forward_upgrade assoc client (some 0) 3 users_rule ws_req none
    ≡ (ok (unavailable assoc client), users_rule, some 0, 3)
unfolding forward_upgrade
upgrade_refused = refl

abbrev three : Slots
three = record { free = 3; waiting = 0; tunnels = 0 }

-- two upgrades at once, of which one has its tunnel
abbrev one_open : Slots
one_open = record { free = 1; waiting = 1; tunnels = 1 }

busy : Reach three one_open
busy = next (next (next here (acquire refl refl)) (acquire refl refl)) (spawn refl refl)

tunnels_bounded_example : 1 + 1 ≤ 3
tunnels_bounded_example = tunnels_bounded 3 busy

forward_upgrade-Reach_example : Reach (slots (some 2) 1 1) (
    slots
      (forward_upgrade assoc client (some 2) 1 users_rule ws_req none).2
      1
      (forward_upgrade assoc client (some 2) 1 users_rule ws_req none).3)
forward_upgrade-Reach_example = forward_upgrade-Reach assoc client 2 1 1 users_rule ws_req none
