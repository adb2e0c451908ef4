-- ===== src/Startup/Listening/Tests.antt =====
-- A run of the end of the start, with HTTPS and a redirect.
use weave_gate.Common.{◌≡◌, refl, true, some, ok}
use weave_gate.Http.Assoc.{assoc}
use weave_gate.Common.Text.{split, trim}
use weave_gate.Settings.General.{General}
use weave_gate.Settings.Tests.{cli}
use weave_gate.Https.Tests.{hostname, uri_text, plain}
use weave_gate.Handler.Tests.{services, static_opts}
use weave_gate.Startup.Listening.{
  System, Listening, https, redirect_opts, redirect_server, https_server, listening,
  redirect_service,
}
use weave_gate.Startup.Listening.Plain.{IsListening, IsPlainAnswer, listening-IsPlain}

abbrev sys : System
sys = record { binds = λ host port. true; tls_builds = λ cert key. true }

abbrev general : General
general = record cli {
  port = 443;
  http2_tls_cert = some "/etc/gate/cert.pem";
  http2_tls_key = some "/etc/gate/key.pem";
  https_redirect = true;
  https_redirect_host = "www.example";
  https_redirect_from_port = 80;
  https_redirect_from_hosts = "example, www.example";
}

abbrev listens : Listening
listens = https "/etc/gate/cert.pem" "/etc/gate/key.pem" (some (80, redirect_opts general))

listened : listening sys general ≡ ok listens
unfolding listening https_server redirect_server redirect_opts split trim
listened = refl

listening-IsPlain_example :
    IsListening sys general listens
    × IsPlainAnswer sys assoc hostname uri_text services static_opts general plain (
        redirect_service assoc hostname uri_text services static_opts (redirect_opts general) plain)
listening-IsPlain_example =
    listening-IsPlain sys assoc hostname uri_text services static_opts general listens listened
      plain
