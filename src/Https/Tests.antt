-- ===== src/Https/Tests.antt =====
-- Runs of the redirect to HTTPS.
use weave_gate.Common.{String, ◌≡◌, refl, Option, none, some, [], ◌∷◌}
use weave_gate.Http.{Request, first_value}
use weave_gate.Http.Assoc.{assoc, PlainUri, drop_name}
use weave_gate.Statics.{replied}
use weave_gate.Https.{RedirectOpts, redirect_to_https, https_url}
use weave_gate.Common.Text.{decimal}

abbrev opts : RedirectOpts
opts = record {
  https_hostname = "www.example";
  https_port = 443;
  allowed_hosts = "example" ∷ "www.example" ∷ [];
}

abbrev pub hostname : assoc.Headers → Option String
hostname headers = first_value "host" headers

abbrev pub uri_text : PlainUri → String
uri_text u = u.path

abbrev pub plain : Request assoc
plain = record {
  method = "GET";
  uri = record {
    scheme = some "http";
    authority = some "example";
    host = some "example";
    port = none;
    path = "/a";
    query = none;
  };
  headers = ("host", "example") ∷ [];
  body = "";
}

redirected :
    redirect_to_https assoc hostname uri_text opts plain
    ≡ replied (record {
      status = 301;
      headers = ("location", "https://www.example:443/a") ∷ [];
      body = "";
    })
unfolding redirect_to_https first_value https_url drop_name decimal
redirected = refl
