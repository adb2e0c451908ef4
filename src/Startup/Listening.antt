-- ===== src/Startup/Listening.antt =====
-- server.rs, `start_server`, the end: which servers listen, and the server of the plain port that
-- redirects to HTTPS. `System` says whether an address can be bound and whether the files of a
-- certificate and of its key make a configuration of TLS.
pub mod Plain
mod Tests
use weave_gate.Common.{
  ℕ, String, Bool, not, Option, none, some, List, map, is_nil, if◌then◌else◌, Result, ok, ok_or,
  ensure, ◌>>=◌, ◌>>◌,
}
use weave_gate.Common.Text.{trim, split}
use weave_gate.Http.{Http, Request, Response}
use weave_gate.Statics.{replied, failed}
use weave_gate.Https.{RedirectOpts, redirect_to_https}
use weave_gate.Settings.General.{General}
use weave_gate.Handler.{Services, HandlerOpts, error_page}

pub record System : Type 0 where
  pub binds : String → ℕ → Bool
  pub tls_builds : String → String → Bool

-- the servers behind the settings: that of the requests, and that of the redirect with its port
pub data Listening : Type 0 where
  plain_http : Listening
  https : String → String → Option (ℕ × RedirectOpts) → Listening

abbrev pub host_names : String → List String
host_names hosts = map trim (split b',' hosts)

unfoldable pub redirect_opts : General → RedirectOpts
redirect_opts general = record {
  https_hostname = general.https_redirect_host;
  https_port = general.port;
  allowed_hosts = host_names general.https_redirect_from_hosts;
}

module _ (sys : System) where
  unfoldable pub redirect_server : General → Result (Option (ℕ × RedirectOpts))
  redirect_server general =
      if general.https_redirect
      then (do
        ensure (sys.binds general.host general.https_redirect_from_port) "failed to bind to address"
        ensure (not (is_nil (host_names general.https_redirect_from_hosts)))
            "https redirect allowed hosts is empty, provide at least one host or IP"
        ok (some (general.https_redirect_from_port, redirect_opts general)))
      else ok none

  unfoldable pub https_server : General → Result Listening
  https_server general = do
    cert ← ok_or general.http2_tls_cert "failed to initialize TLS because cert file missing"
    key ← ok_or general.http2_tls_key "failed to initialize TLS because key file missing"
    ensure (sys.tls_builds cert key)
        "failed to initialize TLS probably because invalid cert or key file"
    redirect ← redirect_server general
    ok (https cert key redirect)

  unfoldable pub listening : General → Result Listening
  listening general = if general.http2 then https_server general else ok plain_http

-- the service of the plain port, with the pages of the handler for an error
unfoldable pub redirect_service :
    (L : Http)
    → (L.Headers → Option String)
    → (L.Uri → String)
    → Services L
    → HandlerOpts L
    → RedirectOpts
    → Request L
    → Response L
redirect_service L hostname uri_text o opts redirect req =
    elim (redirect_to_https L hostname uri_text redirect req) [
      | replied resp ↦ resp
      | failed status ↦ error_page L o opts req status
    ]
