-- ===== src/Client/Tests.antt =====
-- A run of the client's trust.
use weave_gate.Common.{
  String, Bool, true, false, Option, none, some, List, [], ◌∷◌, ◌==◌, if◌then◌else◌,
}
use weave_gate.Settings.Advanced.{ProxyTls, ProxyTlsSettings}
use weave_gate.Client.{Roots}

abbrev file : Option ProxyTls
file = some (record { ca_file = some "/ca.pem"; ca_files = none; disable_webpki_roots = some true })

abbrev tls : ProxyTlsSettings
tls = record { ca_files = "/ca.pem" ∷ []; use_webpki_roots = false }

abbrev pem : String → Option (List String)
pem path = if path == "/ca.pem" then some ("ca" ∷ []) else none

abbrev is_ca : String → Bool
is_ca cert = cert == "ca"

abbrev roots : Roots String
roots = record { public_roots = false; certificates = "ca" ∷ [] }
