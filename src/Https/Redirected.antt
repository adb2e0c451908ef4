-- ===== src/Https/Redirected.antt =====
-- Who is redirected to HTTPS, and where to.
use Prim.Native.String.{◌++◌}
use weave_gate.Common.{
  ℕ, List, String, ◌≡◌, ◌⊎◌, inl, inr, refl, sym, ap, subst, ◌∙◌, false, Option, none, some, ◌==◌,
  any, Bool-cases, Option-cases, if◌then◌else◌,
}
use weave_gate.Common.Pairs.{some_inj}
use weave_gate.Common.Text.{decimal}
use weave_gate.Cors.Checked.{Found, any-Found}
use weave_gate.Http.{Http, Request, Response}
use weave_gate.Statics.{replied, failed}
use weave_gate.Https.{RedirectOpts, https_url, redirect_to_https}

module _ (L : Http) (hostname : L.Headers → Option String) (uri_text : L.Uri → String) where
  -- A permanent redirect, with nothing but the new place.
  pub record IsRedirect (host_name : String) (port : ℕ) (hosts : List String) (req : Request L)
      (resp : Response L) : Type 0 where
    pub host : String
    pub asked : hostname req.headers ≡ some host
    pub allowed : Found (λ s. s == host) hosts
    pub status : resp.status ≡ 301
    pub headers :
        (j : String)
        → L.get resp.headers j ≡ (
            if "location" == j
            then some (
                L.from_static
                  ("https://" ++ (host_name ++ (":" ++ (decimal port ++ uri_text req.uri)))))
            else none)
    pub body : resp.body ≡ ""

  replied-IsRedirect :
      (opts : RedirectOpts) (req : Request L) (host : String)
      → hostname req.headers ≡ some host
      → Found (λ s. s == host) opts.allowed_hosts
      → IsRedirect opts.https_hostname opts.https_port opts.allowed_hosts req (record {
        status = 301;
        headers =
            L.insert L.empty "location" (L.from_static (https_url L hostname uri_text opts req));
        body = "";
      })
  unfolding https_url
  replied-IsRedirect opts req host e found = record {
    host = host;
    asked = e;
    allowed = found;
    status = refl;
    headers = λ j.
        L.get_insert L.empty "location" _ j
        ∙ ap
            (λ (o : Option L.Value).
              if "location" == j
              then some (L.from_static (https_url L hostname uri_text opts req))
              else o)
            (L.get_empty j);
    body = refl;
  }

  -- A plain request is redirected to the configured host and port, with its own URI behind them, only if its
  -- host is an allowed one; one without a host or with another is refused with 400.
  pub redirect_to_https-cases :
      (opts : RedirectOpts) (req : Request L)
      → ((redirect_to_https L hostname uri_text opts req ≡ failed 400)
          × ((host : String)
              → hostname req.headers ≡ some host
              → any (λ s. s == host) opts.allowed_hosts ≡ false))
        ⊎ ((resp : Response L) × (redirect_to_https L hostname uri_text opts req ≡ replied resp)
            × IsRedirect opts.https_hostname opts.https_port opts.allowed_hosts req resp)
  unfolding redirect_to_https
  redirect_to_https-cases opts req = elim (Option-cases (hostname req.headers)) [
    | inl e ↦ inl (rw (redirect_to_https, e) refl, λ host h. absurd (none≢some (sym e ∙ h)))
    | inr (host, e) ↦ elim (Bool-cases (any (λ s. s == host) opts.allowed_hosts)) [
      | inr n ↦ inl (
        rw (redirect_to_https, e, n) refl,
        λ h k.
            subst (λ (x : String). any (λ s. s == x) opts.allowed_hosts ≡ false)
              (some_inj (sym e ∙ k)) n,
      )
      | inl n ↦ inr (
        _,
        rw (redirect_to_https, e, n) refl,
        replied-IsRedirect opts req host e (any-Found (λ s. s == host) opts.allowed_hosts n),
      )
    ]
  ]
    where
      none≢some : {a : String} → none ≡ some a → ⊥
      none≢some h = cc
