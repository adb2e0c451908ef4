-- ===== src/Client/Trusted.antt =====
-- Whom the client trusts for given settings.
use weave_gate.Common.{
  String, ◌≡◌, Bool, true, false, not, ◌||◌, Option, none, some, List, [], ◌∷◌, ◌++◌, all, is_nil,
  unwrap_or,
}
use weave_gate.Common.Pairs.{Pairs}
use weave_gate.Http.{Http}
use weave_gate.Settings.Advanced.{ProxyTls, ProxyTlsSettings}
use weave_gate.Client.{Roots}

-- Whether the settings turn the public roots off.
abbrev pub disables : Option ProxyTls → Bool
disables none = false
disables (some tls) = unwrap_or tls.disable_webpki_roots false

module _ {Cert : Type 0} where
  abbrev pub concat : List (List Cert) → List Cert
  concat [] = []
  concat (certs ∷ rest) = certs ++ concat rest

  module _ (pem : String → Option (List Cert)) (accepts : Cert → Bool) where
    -- A file's certificates: it can be read and holds some, all of which can be roots.
    abbrev pub Holds : String → List Cert → Type 0
    Holds path certs =
        (pem path ≡ some certs) × (not (is_nil certs) ≡ true) × (all accepts certs ≡ true)

  -- The roots are those of the settings: the public ones unless the file turns them off, and the
  -- certificates of all the files, in order; and there are some.
  abbrev pub IsTrusted :
      (String → Option (List Cert)) → (Cert → Bool) → Bool → ProxyTlsSettings → Roots Cert → Type 0
  IsTrusted pem accepts public tls roots =
      (roots.public_roots ≡ public)
      × ((roots.public_roots || not (is_nil roots.certificates)) ≡ true)
      × ((files : List (List Cert)) × Pairs (Holds pem accepts) tls.ca_files files
          × (roots.certificates ≡ concat files))
