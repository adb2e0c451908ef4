-- ===== src/Https.antt =====
-- https_redirect.rs: the redirect of plain requests to HTTPS. `hostname` is that of the typed header
-- `Host`, and `uri_text` the text of a URI; both belong to crates.
pub mod Redirected
pub mod Tests
use Prim.Native.String.{◌++◌}
use weave_gate.Common.{ℕ, String, not, Option, none, some, List, ◌==◌, any, if◌then◌else◌}
use weave_gate.Common.Text.{decimal}
use weave_gate.Http.{Http, Request}
use weave_gate.Statics.{Reply, replied, failed}

pub record RedirectOpts : Type 0 where
  pub https_hostname : String
  pub https_port : ℕ
  pub allowed_hosts : List String

module _ (L : Http) (hostname : L.Headers → Option String) (uri_text : L.Uri → String) where
  unfoldable pub https_url : RedirectOpts → Request L → String
  https_url opts req =
      "https://" ++ (opts.https_hostname ++ (":" ++ (decimal opts.https_port ++ uri_text req.uri)))

  unfoldable pub redirect_to_https : RedirectOpts → Request L → Reply L
  redirect_to_https opts req = elim (hostname req.headers) [
    | none ↦ failed 400
    | some from_hostname ↦
        if not (any (λ s. s == from_hostname) opts.allowed_hosts)
        then failed 400
        else replied (record {
          status = 301;
          headers = L.insert L.empty "location" (L.from_static (https_url opts req));
          body = "";
        })
  ]
