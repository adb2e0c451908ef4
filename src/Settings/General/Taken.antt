-- ===== src/Settings/General/Taken.antt =====
-- What each option is merged to, written out option by option.
use weave_gate.Common.{String, Bool, true, false, Option, none, some, or_else, unwrap_or}
use weave_gate.Settings.General.{
  General, FileGeneral, LogLevel, error, warn, info, debug, trace, name, security, level_text,
  merged,
}

-- the file's value if it gives one, or else the command line's
pub data Overrides {ℓ} {A : Type ℓ} : Option A → A → A → Type ℓ where
  kept : {cli : A} → Overrides none cli cli
  taken : {file cli : A} → Overrides (some file) cli file

-- ... where the command line may leave the option out as well
pub data Fills {ℓ} {A : Type ℓ} : Option A → Option A → Option A → Type ℓ where
  left : {cli : Option A} → Fills none cli cli
  filled : {file : A} {cli : Option A} → Fills (some file) cli (some file)

-- the level is a text
pub data Levels : Option LogLevel → String → String → Type 0 where
  unsaid : {cli : String} → Levels none cli cli
  at_error : {cli : String} → Levels (some error) cli "error"
  at_warn : {cli : String} → Levels (some warn) cli "warn"
  at_info : {cli : String} → Levels (some info) cli "info"
  at_debug : {cli : String} → Levels (some debug) cli "debug"
  at_trace : {cli : String} → Levels (some trace) cli "trace"

-- the security headers: the file's word, or else with HTTP/2, or else the command line's word
pub data Secures : Option Bool → Bool → Bool → Bool → Type 0 where
  said : {v http2 cli : Bool} → Secures (some v) http2 cli v
  with_http2 : {cli : Bool} → Secures none true cli true
  without : {cli : Bool} → Secures none false cli cli

-- Each option of the result, from the same option of the file and of the command line.
pub record IsMerged (file : FileGeneral) (cli g : General) : Type 0 where
  pub host : Overrides file.host cli.host g.host
  pub port : Overrides file.port cli.port g.port
  pub root : Overrides file.root cli.root g.root
  pub log_level : Levels file.log_level cli.log_level g.log_level
  pub log_with_ansi : Overrides file.log_with_ansi cli.log_with_ansi g.log_with_ansi
  pub cache_control_headers :
      Overrides file.cache_control_headers cli.cache_control_headers g.cache_control_headers
  pub compression : Overrides file.compression cli.compression g.compression
  pub compression_level : Overrides file.compression_level cli.compression_level g.compression_level
  pub compression_static :
      Overrides file.compression_static cli.compression_static g.compression_static
  pub page404 : Overrides file.page404 cli.page404 g.page404
  pub page50x : Overrides file.page50x cli.page50x g.page50x
  pub http2 : Overrides file.http2 cli.http2 g.http2
  pub http2_tls_cert : Fills file.http2_tls_cert cli.http2_tls_cert g.http2_tls_cert
  pub http2_tls_key : Fills file.http2_tls_key cli.http2_tls_key g.http2_tls_key
  pub https_redirect : Overrides file.https_redirect cli.https_redirect g.https_redirect
  pub https_redirect_host :
      Overrides file.https_redirect_host cli.https_redirect_host g.https_redirect_host
  pub https_redirect_from_port :
      Overrides file.https_redirect_from_port cli.https_redirect_from_port
        g.https_redirect_from_port
  pub https_redirect_from_hosts :
      Overrides file.https_redirect_from_hosts cli.https_redirect_from_hosts
        g.https_redirect_from_hosts
  pub security_headers :
      Secures file.security_headers g.http2 cli.security_headers g.security_headers
  pub cors_allow_origins :
      Overrides file.cors_allow_origins cli.cors_allow_origins g.cors_allow_origins
  pub cors_allow_headers :
      Overrides file.cors_allow_headers cli.cors_allow_headers g.cors_allow_headers
  pub cors_expose_headers :
      Overrides file.cors_expose_headers cli.cors_expose_headers g.cors_expose_headers
  pub directory_listing : Overrides file.directory_listing cli.directory_listing g.directory_listing
  pub directory_listing_order :
      Overrides file.directory_listing_order cli.directory_listing_order g.directory_listing_order
  pub directory_listing_format :
      Overrides file.directory_listing_format cli.directory_listing_format
        g.directory_listing_format
  pub directory_listing_download :
      Overrides file.directory_listing_download cli.directory_listing_download
        g.directory_listing_download
  pub basic_auth : Overrides file.basic_auth cli.basic_auth g.basic_auth
  pub fd : Fills file.fd cli.fd g.fd
  pub threads_multiplier :
      Overrides file.threads_multiplier cli.threads_multiplier g.threads_multiplier
  pub max_blocking_threads :
      Overrides file.max_blocking_threads cli.max_blocking_threads g.max_blocking_threads
  pub grace_period : Overrides file.grace_period cli.grace_period g.grace_period
  pub page_fallback : Overrides file.page_fallback cli.page_fallback g.page_fallback
  pub log_remote_address :
      Overrides file.log_remote_address cli.log_remote_address g.log_remote_address
  pub log_x_real_ip : Overrides file.log_x_real_ip cli.log_x_real_ip g.log_x_real_ip
  pub log_forwarded_for : Overrides file.log_forwarded_for cli.log_forwarded_for g.log_forwarded_for
  pub trusted_proxies : Overrides file.trusted_proxies cli.trusted_proxies g.trusted_proxies
  pub redirect_trailing_slash :
      Overrides file.redirect_trailing_slash cli.redirect_trailing_slash g.redirect_trailing_slash
  pub ignore_hidden_files :
      Overrides file.ignore_hidden_files cli.ignore_hidden_files g.ignore_hidden_files
  pub disable_symlinks : Overrides file.disable_symlinks cli.disable_symlinks g.disable_symlinks
  pub accept_markdown : Overrides file.accept_markdown cli.accept_markdown g.accept_markdown
  pub text_charset : Overrides file.text_charset cli.text_charset g.text_charset
  pub index_files : Overrides file.index_files cli.index_files g.index_files
  pub health : Overrides file.health cli.health g.health
  pub metrics : Overrides file.metrics cli.metrics g.metrics
  pub maintenance_mode : Overrides file.maintenance_mode cli.maintenance_mode g.maintenance_mode
  pub maintenance_mode_status :
      Overrides file.maintenance_mode_status cli.maintenance_mode_status g.maintenance_mode_status
  pub maintenance_mode_file :
      Overrides file.maintenance_mode_file cli.maintenance_mode_file g.maintenance_mode_file

unwrap_or-Overrides {ℓ} :
    {A : Type ℓ} (file : Option A) (cli : A) → Overrides file cli (unwrap_or file cli)
unwrap_or-Overrides none cli = kept
unwrap_or-Overrides (some v) cli = taken

or_else-Fills {ℓ} : {A : Type ℓ} (file cli : Option A) → Fills file cli (or_else file cli)
or_else-Fills none cli = left
or_else-Fills (some v) cli = filled

level_text-Levels : (file : Option LogLevel) (cli : String) → Levels file cli (level_text file cli)
unfolding level_text name
level_text-Levels none cli = unsaid
level_text-Levels (some error) cli = at_error
level_text-Levels (some warn) cli = at_warn
level_text-Levels (some info) cli = at_info
level_text-Levels (some debug) cli = at_debug
level_text-Levels (some trace) cli = at_trace

security-Secures :
    (file : Option Bool) (http2 cli : Bool) → Secures file http2 cli (security file http2 cli)
unfolding security
security-Secures (some v) http2 cli = said
security-Secures none true cli = with_http2
security-Secures none false cli = without

pub merged-IsMerged : (file : FileGeneral) (cli : General) → IsMerged file cli (merged file cli)
unfolding merged
merged-IsMerged file cli = record {
  host = unwrap_or-Overrides _ _;
  port = unwrap_or-Overrides _ _;
  root = unwrap_or-Overrides _ _;
  log_level = level_text-Levels _ _;
  log_with_ansi = unwrap_or-Overrides _ _;
  cache_control_headers = unwrap_or-Overrides _ _;
  compression = unwrap_or-Overrides _ _;
  compression_level = unwrap_or-Overrides _ _;
  compression_static = unwrap_or-Overrides _ _;
  page404 = unwrap_or-Overrides _ _;
  page50x = unwrap_or-Overrides _ _;
  http2 = unwrap_or-Overrides _ _;
  http2_tls_cert = or_else-Fills _ _;
  http2_tls_key = or_else-Fills _ _;
  https_redirect = unwrap_or-Overrides _ _;
  https_redirect_host = unwrap_or-Overrides _ _;
  https_redirect_from_port = unwrap_or-Overrides _ _;
  https_redirect_from_hosts = unwrap_or-Overrides _ _;
  security_headers = security-Secures _ _ _;
  cors_allow_origins = unwrap_or-Overrides _ _;
  cors_allow_headers = unwrap_or-Overrides _ _;
  cors_expose_headers = unwrap_or-Overrides _ _;
  directory_listing = unwrap_or-Overrides _ _;
  directory_listing_order = unwrap_or-Overrides _ _;
  directory_listing_format = unwrap_or-Overrides _ _;
  directory_listing_download = unwrap_or-Overrides _ _;
  basic_auth = unwrap_or-Overrides _ _;
  fd = or_else-Fills _ _;
  threads_multiplier = unwrap_or-Overrides _ _;
  max_blocking_threads = unwrap_or-Overrides _ _;
  grace_period = unwrap_or-Overrides _ _;
  page_fallback = unwrap_or-Overrides _ _;
  log_remote_address = unwrap_or-Overrides _ _;
  log_x_real_ip = unwrap_or-Overrides _ _;
  log_forwarded_for = unwrap_or-Overrides _ _;
  trusted_proxies = unwrap_or-Overrides _ _;
  redirect_trailing_slash = unwrap_or-Overrides _ _;
  ignore_hidden_files = unwrap_or-Overrides _ _;
  disable_symlinks = unwrap_or-Overrides _ _;
  accept_markdown = unwrap_or-Overrides _ _;
  text_charset = unwrap_or-Overrides _ _;
  index_files = unwrap_or-Overrides _ _;
  health = unwrap_or-Overrides _ _;
  metrics = unwrap_or-Overrides _ _;
  maintenance_mode = unwrap_or-Overrides _ _;
  maintenance_mode_status = unwrap_or-Overrides _ _;
  maintenance_mode_file = unwrap_or-Overrides _ _;
}
