-- ===== src/Client.antt =====
-- proxy_client.rs: whom the proxy's client trusts. The connectors belong to hyper-rustls; what they are
-- built with is the set of roots: the public ones, which the crate `webpki-roots` lists, and the
-- certificates of the files. `pem` gives the certificates that a file holds, if it can be read, and
-- `accepts` is whether rustls takes one for a root.
pub mod Trusted
mod Tests
use weave_gate.Common.{
  String, Bool, true, not, ◌||◌, Option, List, [], ◌∷◌, ◌++◌, all, is_nil, if◌then◌else◌, Result,
  ok, ok_or, ensure, ◌>>=◌, ◌>>◌,
}
use weave_gate.Settings.Advanced.{ProxyTlsSettings}

-- `RootCertStore`
pub record Roots (Cert : Type 0) : Type 0 where
  pub public_roots : Bool
  pub certificates : List Cert

module _ {Cert : Type 0} (pem : String → Option (List Cert)) (accepts : Cert → Bool) where
  unfoldable pub load_pem_ca_file : String → Roots Cert → Result (Roots Cert)
  load_pem_ca_file path roots = do
    der_certs ← ok_or (pem path) "proxy-tls: cannot read PEM from CA file"
    ensure (not (is_nil der_certs)) "proxy-tls: no certificates found in CA file"
    ensure (all accepts der_certs) "invalid certificate"
    ok (record roots { certificates = roots.certificates ++ der_certs })

  unfoldable pub load_files : List String → Roots Cert → Result (Roots Cert)
  load_files [] roots = ok roots
  load_files (path ∷ paths) roots = load_pem_ca_file path roots >>= λ more. load_files paths more

  unfoldable pub load_root_cert_store : ProxyTlsSettings → Result (Roots Cert)
  load_root_cert_store tls = do
    roots ←
        load_files tls.ca_files (record { public_roots = tls.use_webpki_roots; certificates = [] })
    ensure (roots.public_roots || not (is_nil roots.certificates))
        "proxy-tls: no trust anchors loaded"
    ok roots

  -- `build_https_connector`: the roots of the connector
  unfoldable pub connector_roots : ProxyTlsSettings → Result (Roots Cert)
  connector_roots tls =
      if is_nil tls.ca_files
      then ok (record { public_roots = true; certificates = [] })
      else load_root_cert_store tls
