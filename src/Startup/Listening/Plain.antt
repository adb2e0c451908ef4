-- ===== src/Startup/Listening/Plain.antt =====
-- What the plain port does.
use weave_gate.Common.{
  ℕ, String, ◌≡◌, ◌⊎◌, inl, inr, refl, sym, ap, ◌∙◌, Bool, true, false, not, Option, none, some,
  ◌==◌, any, is_nil, map, Bool-cases, if◌then◌else◌, ok, ok_or, ok_or-eq-ok, ensure, ensure-eq-ok,
  >>=-eq-ok,
}
use weave_gate.Common.Pairs.{ok_inj}
use weave_gate.Common.Text.{trim, split}
use weave_gate.Http.{Http, Request, Response}
use weave_gate.Https.{RedirectOpts}
use weave_gate.Https.Redirected.{IsRedirect, redirect_to_https-cases}
use weave_gate.Settings.General.{General}
use weave_gate.Handler.{Services, HandlerOpts, error_page}
use weave_gate.Startup.Listening.{
  System, Listening, plain_http, https, host_names, redirect_opts, redirect_server, https_server,
  listening, redirect_service,
}

module _ (sys : System) where
  -- the server of the redirect: none, or at its port with the options of the settings
  abbrev pub IsRedirectServer : General → Option (ℕ × RedirectOpts) → Type 0
  IsRedirectServer general redirect =
      ((general.https_redirect ≡ false) × (redirect ≡ none))
      ⊎ ((general.https_redirect ≡ true)
          × (sys.binds general.host general.https_redirect_from_port ≡ true)
          × (redirect
              ≡ some (
                general.https_redirect_from_port,
                record {
                  https_hostname = general.https_redirect_host;
                  https_port = general.port;
                  allowed_hosts = map trim (split b',' general.https_redirect_from_hosts);
                },
              )))

  redirect_server-IsRedirectServer :
      (general : General) (redirect : Option (ℕ × RedirectOpts))
      → redirect_server sys general ≡ ok redirect
      → IsRedirectServer general redirect
  unfolding redirect_server redirect_opts
  redirect_server-IsRedirectServer general redirect h = elim (Bool-cases general.https_redirect) [
    | inr e ↦ inl (e, sym (ok_inj (rw (e, redirect_server) at h)))
    | inl e ↦
        let (_, bound, h₁) =
          >>=-eq-ok (ensure (sys.binds general.host general.https_redirect_from_port) _) _
            (rw (e, redirect_server) at h) in
        let (_, _, h₂) =
          >>=-eq-ok (ensure (not (is_nil (host_names general.https_redirect_from_hosts))) _) _ h₁ in
        inr (e, ensure-eq-ok _ _ bound, sym (ok_inj h₂))
  ]

  -- What listens: plain HTTP alone; or HTTPS with the files of the settings, and the redirect.
  abbrev pub IsListening : General → Listening → Type 0
  IsListening general l =
      ((general.http2 ≡ false) × (l ≡ plain_http))
      ⊎ ((general.http2 ≡ true)
          × ((cert : String) × (key : String) × (redirect : Option (ℕ × RedirectOpts))
              × (general.http2_tls_cert ≡ some cert)
              × (general.http2_tls_key ≡ some key)
              × (sys.tls_builds cert key ≡ true)
              × (l ≡ https cert key redirect)
              × IsRedirectServer general redirect))

  https_server-IsListening :
      (general : General) (l : Listening)
      → general.http2 ≡ true
      → https_server sys general ≡ ok l
      → IsListening general l
  unfolding https_server
  https_server-IsListening general l on h =
      let (cert, c, h₁) = >>=-eq-ok (ok_or general.http2_tls_cert _) _ h in
      let (key, k, h₂) = >>=-eq-ok (ok_or general.http2_tls_key _) _ h₁ in
      let (_, t, h₃) = >>=-eq-ok (ensure (sys.tls_builds cert key) _) _ h₂ in
      let (redirect, r, h₄) = >>=-eq-ok (redirect_server sys general) _ h₃ in
      inr (
        on,
        (
          cert,
          key,
          redirect,
          ok_or-eq-ok _ _ c,
          ok_or-eq-ok _ _ k,
          ensure-eq-ok _ _ t,
          sym (ok_inj h₄),
          redirect_server-IsRedirectServer general redirect r,
        ),
      )

  -- the choice between the servers, under the value of `http2`
  listening-if :
      (general : General) (b : Bool)
      → general.http2 ≡ b
      → listening sys general ≡ (if b then https_server sys general else ok plain_http)
  unfolding listening
  listening-if general b e = ap (λ x. if x then https_server sys general else ok plain_http) e

  listening-IsListening :
      (general : General) (l : Listening) → listening sys general ≡ ok l → IsListening general l
  listening-IsListening general l h = elim (Bool-cases general.http2) [
    | inr e ↦ inl (e, sym (ok_inj (sym (listening-if general false e) ∙ h)))
    | inl e ↦ https_server-IsListening general l e (sym (listening-if general true e) ∙ h)
  ]

  module _ (L : Http) (hostname : L.Headers → Option String) (uri_text : L.Uri → String)
      (o : Services L) (opts : HandlerOpts L) where
    -- The answer of the plain port: a redirect to the configured place, for a host that the settings
    -- name; or the page for 400, where the request names no host or none of these.
    abbrev pub IsPlainAnswer : General → Request L → Response L → Type 0
    IsPlainAnswer general req resp =
        IsRedirect L hostname uri_text general.https_redirect_host general.port
          (map trim (split b',' general.https_redirect_from_hosts)) req resp
        ⊎ ((resp ≡ error_page L o opts req 400)
            × ((host : String)
                → hostname req.headers ≡ some host
                → any (λ s. s == host) (map trim (split b',' general.https_redirect_from_hosts))
                  ≡ false))

    -- Where the start goes as far as to listen: with HTTP/2 off, one server listens, without TLS. With it
    -- on, that server has a configuration of TLS from the two files, which must be given, and the plain
    -- port has one of its own exactly if the redirect is asked for. This answers every request by a
    -- permanent redirect to the configured host, at the port of the other server and with the request's
    -- own URI, only for a host that is allowed, or else by the page for 400.
    pub listening-IsPlain :
        (general : General) (l : Listening)
        → listening sys general ≡ ok l
        → (req : Request L)
        → IsListening general l
          × IsPlainAnswer general req
              (redirect_service L hostname uri_text o opts (redirect_opts general) req)
    unfolding redirect_service redirect_opts
    listening-IsPlain general l h req = (
      listening-IsListening general l h,
      elim (redirect_to_https-cases L hostname uri_text (redirect_opts general) req) [
        | inl (e, not_allowed) ↦ inr (rw (e, redirect_service) refl, not_allowed)
        | inr (resp, e, is) ↦ inl (rw (e, redirect_service) is)
      ],
    )
