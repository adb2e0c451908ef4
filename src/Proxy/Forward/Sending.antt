-- ===== src/Proxy/Forward/Sending.antt =====
-- What is sent upstream and what comes back to the client.
use weave_gate.Common.{
  String, ◌≡◌, refl, sym, ◌∙◌, ap, Bool, true, false, Option, none, some, ◌==◌, any, and_then,
  if◌then◌else◌, ok, ok_or, ok_or-eq-ok, >>=-eq-ok, arith,
}
use weave_gate.Common.Pairs.{ok_inj}
use weave_gate.Http.{Http, Request, Response}
use weave_gate.Rules.{ProxyRule}
use weave_gate.Proxy.Upstream.{upstream_uri_for_rule}
use weave_gate.Proxy.Headers.{
  is_streaming_request, is_hop_by_hop_header, not_forwarded, copy_forwardable_headers,
  set_upstream_host, append_forwarded_headers, remove_hop_by_hop_request_headers,
  preserve_streaming_response_headers, removed_names, streaming_removed_names,
}
use weave_gate.Proxy.Headers.Copied.{last_value, get-remove_all, get-copy_headers}
use weave_gate.Proxy.Headers.Sent.{after_forwarded, get-append_forwarded}
use weave_gate.Proxy.Forward.{
  http_request_headers, send_upstream, http_response_headers, answer_http, forward_http,
}

module _ (L : Http) where
  -- the `Host` that is sent: the upstream URI's authority
  abbrev pub upstream_host : L.Uri → Option L.Value
  upstream_host uri = and_then (L.authority uri) L.from_str

  get-set_upstream_host :
      (h h' : L.Headers) (uri : L.Uri) (j : String)
      → set_upstream_host L h uri ≡ ok h'
      → L.get h' j ≡ (if "host" == j then upstream_host uri else L.get h j)
  unfolding set_upstream_host
  get-set_upstream_host h h' uri j e =
      let (authority, e₁, f₁) = >>=-eq-ok (ok_or (L.authority uri) _) _ e in
      let (host, e₂, f₂) = >>=-eq-ok (ok_or (L.from_str authority) _) _ f₁ in
      let a = ok_or-eq-ok (L.authority uri) _ e₁ in
      let v = ok_or-eq-ok (L.from_str authority) _ e₂ in
      rw (← ok_inj f₂, L.get_insert h "host" host j, a, v) refl

  get-copied :
      (src : L.Headers) (j : String)
      → L.get (copy_forwardable_headers L src L.empty) j
        ≡ (if not_forwarded j then none else last_value j (L.iter src))
  unfolding copy_forwardable_headers
  get-copied src j =
      ground (arith, get-copy_headers L not_forwarded (L.iter src) L.empty j, L.get_empty j)

  get-http_response_headers :
      (client : Request L → Option (Response L)) (streaming : Bool) (h : L.Headers) (j : String)
      → L.get (http_response_headers L client streaming h) j ≡ (
          if any (λ n. n == j) (if streaming then streaming_removed_names else removed_names)
          then none
          else L.get h j)
  unfolding http_response_headers preserve_streaming_response_headers
      remove_hop_by_hop_request_headers
  get-http_response_headers client true h j = get-remove_all L streaming_removed_names h j
  get-http_response_headers client false h j = get-remove_all L removed_names h j

  -- The headers of a plain upstream request, when they can be built, name by name: none that is
  -- meant for one hop, the forwarding headers that the proxy sets, the upstream's `Host`, and of
  -- every other header the last value that the client sent.
  pub http_request_headers_lem :
      (req : Request L) (uri : L.Uri) (remote_ip : Option String) (h : L.Headers) (j : String)
      → http_request_headers L req uri remote_ip ≡ ok h
      → L.get h j ≡ (
          if any (λ n. n == j) removed_names
          then none
          else after_forwarded L req remote_ip j (
              if "host" == j
              then upstream_host uri
              else if is_hop_by_hop_header j
              then none
              else last_value j (L.iter req.headers)))
  unfolding http_request_headers remove_hop_by_hop_request_headers
  http_request_headers_lem req uri remote_ip h j e =
      let copied = copy_forwardable_headers L req.headers L.empty in
      let (h₁, e₁, f₁) = >>=-eq-ok (set_upstream_host L copied uri) _ e in
      rw
        (
          ← ok_inj f₁,
          get-remove_all L removed_names (append_forwarded_headers L h₁ req remote_ip) j,
        )
        (ap (λ x. if any (λ n. n == j) removed_names then none else x)
          (get-append_forwarded L req remote_ip h₁ j
            ∙ ap (after_forwarded L req remote_ip j) (
                get-set_upstream_host copied h₁ uri j e₁
                ∙ ground (arith, get-copied req.headers j))))

  -- A successful plain request is one whose answer the client gets: the status and the body of the
  -- upstream's answer, and its headers without those that are removed, which are fewer for a
  -- streaming request. What was sent had the request's method and body.
  pub forward_http_sound :
      (client : Request L → Option (Response L)) (rule : ProxyRule L) (req : Request L)
      (remote_ip : Option String) (resp : Response L)
      → (forward_http L client rule req remote_ip).0 ≡ ok resp
      → (uri : L.Uri) × (headers : L.Headers) × (answer : Response L) × ((upstream_uri_for_rule L
            rule req.uri).0
          ≡ ok uri)
        × (http_request_headers L req uri remote_ip ≡ ok headers)
        × (client (record { method = req.method; uri = uri; headers = headers; body = req.body })
            ≡ some answer)
        × (resp.status ≡ answer.status)
        × (resp.body ≡ answer.body)
        × ((j : String)
            → L.get resp.headers j ≡ (
                if any
                  (λ n. n == j)
                  (if is_streaming_request L req then streaming_removed_names else removed_names)
                then none
                else L.get answer.headers j))
  unfolding forward_http answer_http send_upstream
  forward_http_sound client rule req remote_ip resp e =
      let (uri, e₁, f₁) = >>=-eq-ok (upstream_uri_for_rule L rule req.uri).0 _ e in
      let (headers, e₂, f₂) = >>=-eq-ok (http_request_headers L req uri remote_ip) _ f₁ in
      let (answer, e₃, f₃) = >>=-eq-ok (send_upstream L client req uri headers) _ f₂ in
      let r = ok_inj f₃ in
      (
        uri,
        headers,
        answer,
        e₁,
        e₂,
        ok_or-eq-ok _ _ e₃,
        ap (λ (x : Response L). x.status) (sym r),
        ap (λ (x : Response L). x.body) (sym r),
        λ j.
            ap (λ (x : Response L). L.get x.headers j) (sym r)
            ∙ get-http_response_headers client (is_streaming_request L req) answer.headers j,
      )
