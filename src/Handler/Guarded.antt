-- ===== src/Handler/Guarded.antt =====
-- Which requests never reach the proxy.
use weave_gate.Common.{
  String, ◌≡◌, refl, ◌∙◌, ◌⊎◌, inl, inr, Bool, true, false, Option, none, some, ◌==◌, or_else,
  is_ok, Option-cases, Bool-cases,
}
use weave_gate.Common.Text.{is_empty, split_once}
use weave_gate.Http.{Http, Request, Response}
use weave_gate.Cors.{rejects}
use weave_gate.Pages.{is_allowed, health_answer, metrics_answer, error_response, page_response}
use weave_gate.Proxy.Forward.{ProxyState}
use weave_gate.Handler.{
  Services, HandlerOpts, answered, error_page, check_credentials, unauthorized, basic_auth_answer,
  method_answer, cors_answer, maintenance_answer, checks, handle_front,
}

module _ (L : Http) (o : Services L) (opts : HandlerOpts L) where
  -- A request whose check answers is answered so, and the proxy's state stays as it is.
  handle_front-checked :
      (s : ProxyState L) (req : Request L) (remote_ip : Option String) (resp : Response L)
      → checks L o opts req ≡ some resp
      → handle_front L o opts s req remote_ip ≡ (answered resp, s)
  unfolding handle_front
  handle_front-checked s req remote_ip resp e = rw (e, handle_front) refl

  -- Only `OPTIONS`, `HEAD` and `GET` get through: every other request is answered by the page for
  -- 405, whatever the proxy's rules, and nothing is sent upstream.
  pub handle_front-not_allowed :
      (s : ProxyState L) (req : Request L) (remote_ip : Option String)
      → is_allowed req.method ≡ false
      → handle_front L o opts s req remote_ip ≡ (answered (error_page L o opts req 405), s)
  unfolding checks method_answer
  handle_front-not_allowed s req remote_ip h =
      handle_front-checked s req remote_ip (error_page L o opts req 405) (rw h refl)

  no_health :
      (enabled : Bool) (req : Request L)
      → (L.path req.uri == "/health") ≡ false
      → health_answer L enabled req ≡ none
  unfolding health_answer
  no_health true req h = rw (h, health_answer) refl
  no_health false req h = refl

  no_metrics :
      (enabled : Bool) (req : Request L)
      → (L.path req.uri == "/metrics") ≡ false
      → metrics_answer L enabled o.gathered req ≡ none
  unfolding metrics_answer
  no_metrics true req h = rw (h, metrics_answer) refl
  no_metrics false req h = refl

  basic_auth_refuses :
      (req : Request L)
      → (req.method == "OPTIONS") ≡ false
      → is_empty opts.basic_auth ≡ false
      → ((user password : String)
          → split_once b':' opts.basic_auth ≡ some (user, password)
          → is_ok (check_credentials L o opts req.headers user password) ≡ false)
      → (resp : Response L) × (basic_auth_answer L o opts req ≡ some resp)
        × ((resp.status ≡ 401) ⊎ (resp.status ≡ 500))
  unfolding basic_auth_answer unauthorized error_page error_response page_response
  basic_auth_refuses req m b wrong = elim (Option-cases (split_once b':' opts.basic_auth)) [
    | inl e ↦ (error_page L o opts req 500, rw (b, m, e, basic_auth_answer) refl, inr refl)
    | inr ((user, password), e) ↦ (
      unauthorized L o opts req,
      rw (b, m, e, wrong user password e, basic_auth_answer) refl,
      inl refl,
    )
  ]

  -- what the checks are for such a request
  checks-eq :
      (req : Request L)
      → is_allowed req.method ≡ true
      → (L.path req.uri == "/health") ≡ false
      → (L.path req.uri == "/metrics") ≡ false
      → checks L o opts req
        ≡ or_else
            (cors_answer L o opts req)
            (or_else (basic_auth_answer L o opts req) (maintenance_answer L o opts req))
  unfolding checks method_answer
  checks-eq req m h k =
      rw (m, no_health opts.health req h, no_metrics opts.metrics_enabled req k) refl

  -- With credentials configured, a request with an allowed method other than `OPTIONS` that asks for
  -- neither the health nor the metrics, and whose credentials are not these, is answered by 403, 401
  -- or 500; nothing is sent upstream, and the proxy's state stays as it is.
  pub handle_front-unauthorized :
      (s : ProxyState L) (req : Request L) (remote_ip : Option String)
      → is_allowed req.method ≡ true
      → (req.method == "OPTIONS") ≡ false
      → (L.path req.uri == "/health") ≡ false
      → (L.path req.uri == "/metrics") ≡ false
      → is_empty opts.basic_auth ≡ false
      → ((user password : String)
          → split_once b':' opts.basic_auth ≡ some (user, password)
          → is_ok (check_credentials L o opts req.headers user password) ≡ false)
      → (resp : Response L) × (handle_front L o opts s req remote_ip ≡ (answered resp, s))
        × ((resp.status ≡ 403) ⊎ (resp.status ≡ 401) ⊎ (resp.status ≡ 500))
  unfolding cors_answer error_page error_response page_response
  handle_front-unauthorized s req remote_ip m p h k b wrong =
      elim (Bool-cases (rejects L o.method_of o.name_of opts.cors req)) [
        | inl r ↦ (
          error_page L o opts req 403,
          handle_front-checked s req remote_ip _ (checks-eq req m h k ∙ rw (r, cors_answer) refl),
          inl refl,
        )
        | inr r ↦
            let (resp, e, st) = basic_auth_refuses req p b wrong in
            (
              resp,
              handle_front-checked s req remote_ip resp
                  (checks-eq req m h k ∙ rw (r, cors_answer, e) refl),
              inr st,
            )
      ]
