-- ===== src/Settings/General/Merged.antt =====
-- What the options of the file do to those of the command line.
use weave_gate.Common.{
  String, ◌≡◌, refl, ap, Bool, true, false, Option, none, some, or_else, unwrap_or, ok, err,
  Bool-cases, inl, inr, ◌⊎◌,
}
use weave_gate.Settings.General.Taken.{IsMerged, merged-IsMerged}
use weave_gate.Settings.General.{
  General, FileGeneral, LogLevel, is_status_or_none, security, level_text, merged, merge,
}

unwrap_or-twice {ℓ} :
    {A : Type ℓ} (file : Option A) (cli : A)
    → unwrap_or file (unwrap_or file cli) ≡ unwrap_or file cli
unwrap_or-twice none cli = refl
unwrap_or-twice (some v) cli = refl

or_else-twice {ℓ} :
    {A : Type ℓ} (file cli : Option A) → or_else file (or_else file cli) ≡ or_else file cli
or_else-twice none cli = refl
or_else-twice (some v) cli = refl

level_text-twice :
    (file : Option LogLevel) (cli : String)
    → level_text file (level_text file cli) ≡ level_text file cli
unfolding level_text
level_text-twice none cli = refl
level_text-twice (some level) cli = refl

security-twice :
    (file http2 : Option Bool) (cli_http2 cli : Bool)
    → security file
        (unwrap_or http2 (unwrap_or http2 cli_http2))
        (security file (unwrap_or http2 cli_http2) cli)
      ≡ security file (unwrap_or http2 cli_http2) cli
unfolding security
security-twice (some v) http2 cli_http2 cli = refl
security-twice none (some true) cli_http2 cli = refl
security-twice none (some false) cli_http2 cli = refl
security-twice none none true cli = refl
security-twice none none false cli = refl

merged-twice :
    (file : FileGeneral) (cli : General) → merged file (merged file cli) ≡ merged file cli
unfolding merged
merged-twice file cli = λ i. record {
  host = unwrap_or-twice file.host cli.host i;
  port = unwrap_or-twice file.port cli.port i;
  root = unwrap_or-twice file.root cli.root i;
  log_level = level_text-twice file.log_level cli.log_level i;
  log_with_ansi = unwrap_or-twice file.log_with_ansi cli.log_with_ansi i;
  cache_control_headers = unwrap_or-twice file.cache_control_headers cli.cache_control_headers i;
  compression = unwrap_or-twice file.compression cli.compression i;
  compression_level = unwrap_or-twice file.compression_level cli.compression_level i;
  compression_static = unwrap_or-twice file.compression_static cli.compression_static i;
  page404 = unwrap_or-twice file.page404 cli.page404 i;
  page50x = unwrap_or-twice file.page50x cli.page50x i;
  http2 = unwrap_or-twice file.http2 cli.http2 i;
  http2_tls_cert = or_else-twice file.http2_tls_cert cli.http2_tls_cert i;
  http2_tls_key = or_else-twice file.http2_tls_key cli.http2_tls_key i;
  https_redirect = unwrap_or-twice file.https_redirect cli.https_redirect i;
  https_redirect_host = unwrap_or-twice file.https_redirect_host cli.https_redirect_host i;
  https_redirect_from_port =
      unwrap_or-twice file.https_redirect_from_port cli.https_redirect_from_port i;
  https_redirect_from_hosts =
      unwrap_or-twice file.https_redirect_from_hosts cli.https_redirect_from_hosts i;
  security_headers =
      security-twice file.security_headers file.http2 cli.http2 cli.security_headers i;
  cors_allow_origins = unwrap_or-twice file.cors_allow_origins cli.cors_allow_origins i;
  cors_allow_headers = unwrap_or-twice file.cors_allow_headers cli.cors_allow_headers i;
  cors_expose_headers = unwrap_or-twice file.cors_expose_headers cli.cors_expose_headers i;
  directory_listing = unwrap_or-twice file.directory_listing cli.directory_listing i;
  directory_listing_order =
      unwrap_or-twice file.directory_listing_order cli.directory_listing_order i;
  directory_listing_format =
      unwrap_or-twice file.directory_listing_format cli.directory_listing_format i;
  directory_listing_download =
      unwrap_or-twice file.directory_listing_download cli.directory_listing_download i;
  basic_auth = unwrap_or-twice file.basic_auth cli.basic_auth i;
  fd = or_else-twice file.fd cli.fd i;
  threads_multiplier = unwrap_or-twice file.threads_multiplier cli.threads_multiplier i;
  max_blocking_threads = unwrap_or-twice file.max_blocking_threads cli.max_blocking_threads i;
  grace_period = unwrap_or-twice file.grace_period cli.grace_period i;
  page_fallback = unwrap_or-twice file.page_fallback cli.page_fallback i;
  log_remote_address = unwrap_or-twice file.log_remote_address cli.log_remote_address i;
  log_x_real_ip = unwrap_or-twice file.log_x_real_ip cli.log_x_real_ip i;
  log_forwarded_for = unwrap_or-twice file.log_forwarded_for cli.log_forwarded_for i;
  trusted_proxies = unwrap_or-twice file.trusted_proxies cli.trusted_proxies i;
  redirect_trailing_slash =
      unwrap_or-twice file.redirect_trailing_slash cli.redirect_trailing_slash i;
  ignore_hidden_files = unwrap_or-twice file.ignore_hidden_files cli.ignore_hidden_files i;
  disable_symlinks = unwrap_or-twice file.disable_symlinks cli.disable_symlinks i;
  accept_markdown = unwrap_or-twice file.accept_markdown cli.accept_markdown i;
  text_charset = unwrap_or-twice file.text_charset cli.text_charset i;
  index_files = unwrap_or-twice file.index_files cli.index_files i;
  health = unwrap_or-twice file.health cli.health i;
  metrics = unwrap_or-twice file.metrics cli.metrics i;
  maintenance_mode = unwrap_or-twice file.maintenance_mode cli.maintenance_mode i;
  maintenance_mode_status =
      unwrap_or-twice file.maintenance_mode_status cli.maintenance_mode_status i;
  maintenance_mode_file = unwrap_or-twice file.maintenance_mode_file cli.maintenance_mode_file i;
}

-- A status for the maintenance that is none is the one thing that is refused. Of everything else, each
-- option of the result is the file's if the file gives it, or else the command line's, the level of the
-- log being its name in lower case; only the security headers, where the file does not name them, are
-- on as well wherever HTTP/2 is. Merging the file once more changes nothing.
pub merge_lem :
    (file : FileGeneral) (cli : General)
    → ((is_status_or_none file.maintenance_mode_status ≡ false)
        × (merge file cli ≡ err "invalid HTTP status code"))
      ⊎ ((g : General) × (merge file cli ≡ ok g) × (merge file g ≡ ok g) × IsMerged file cli g)
unfolding merge merged
merge_lem file cli = elim (Bool-cases (is_status_or_none file.maintenance_mode_status)) [
  | inr e ↦ inl (e, rw (merge, e) refl)
  | inl e ↦ inr (
    merged file cli,
    rw (merge, e) refl,
    rw (merge, e) (ap ok (merged-twice file cli)),
    merged-IsMerged file cli,
  )
]
