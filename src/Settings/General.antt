-- ===== src/Settings/General.antt =====
-- settings/mod.rs and settings/file.rs, with all features but the experimental one and on Unix: the
-- general options of the command line and of the configuration file, and what `parse_from` makes of
-- the two. Paths and addresses are texts.
pub mod Merged
pub mod Taken
use weave_gate.Common.{
  ℕ, String, Bool, true, ◌&&◌, Option, none, some, List, ltb, leb, unwrap_or, or_else,
  if◌then◌else◌, Result, ok, ensure, ◌>>=◌, ◌>>◌,
}
use weave_gate.Listing.Download.{DirDownloadFmt}
use weave_gate.Listing.Reading.{DirListFmt}

pub data LogLevel : Type 0 where
  error warn info debug trace : LogLevel

-- `LogLevel::name`
unfoldable pub name : LogLevel → String
name error = "error"
name warn = "warn"
name info = "info"
name debug = "debug"
name trace = "trace"

pub data CompressionLevel : Type 0 where
  fastest best default_level : CompressionLevel

-- the options of the command line, without the path of the configuration file
pub record General : Type 0 where
  pub host : String
  pub port : ℕ
  pub root : String
  pub log_level : String
  pub log_with_ansi : Bool
  pub cache_control_headers : Bool
  pub compression : Bool
  pub compression_level : CompressionLevel
  pub compression_static : Bool
  pub page404 : String
  pub page50x : String
  pub http2 : Bool
  pub http2_tls_cert : Option String
  pub http2_tls_key : Option String
  pub https_redirect : Bool
  pub https_redirect_host : String
  pub https_redirect_from_port : ℕ
  pub https_redirect_from_hosts : String
  pub security_headers : Bool
  pub cors_allow_origins : String
  pub cors_allow_headers : String
  pub cors_expose_headers : String
  pub directory_listing : Bool
  pub directory_listing_order : ℕ
  pub directory_listing_format : DirListFmt
  pub directory_listing_download : List DirDownloadFmt
  pub basic_auth : String
  pub fd : Option ℕ
  pub threads_multiplier : ℕ
  pub max_blocking_threads : ℕ
  pub grace_period : ℕ
  pub page_fallback : String
  pub log_remote_address : Bool
  pub log_x_real_ip : Bool
  pub log_forwarded_for : Bool
  pub trusted_proxies : List String
  pub redirect_trailing_slash : Bool
  pub ignore_hidden_files : Bool
  pub disable_symlinks : Bool
  pub accept_markdown : Bool
  pub text_charset : Bool
  pub index_files : String
  pub health : Bool
  pub metrics : Bool
  pub maintenance_mode : Bool
  pub maintenance_mode_status : ℕ
  pub maintenance_mode_file : String

-- file.rs, `General`: what the file may say
pub record FileGeneral : Type 0 where
  pub host : Option String
  pub port : Option ℕ
  pub root : Option String
  pub log_level : Option LogLevel
  pub log_with_ansi : Option Bool
  pub cache_control_headers : Option Bool
  pub compression : Option Bool
  pub compression_level : Option CompressionLevel
  pub compression_static : Option Bool
  pub page404 : Option String
  pub page50x : Option String
  pub http2 : Option Bool
  pub http2_tls_cert : Option String
  pub http2_tls_key : Option String
  pub https_redirect : Option Bool
  pub https_redirect_host : Option String
  pub https_redirect_from_port : Option ℕ
  pub https_redirect_from_hosts : Option String
  pub security_headers : Option Bool
  pub cors_allow_origins : Option String
  pub cors_allow_headers : Option String
  pub cors_expose_headers : Option String
  pub directory_listing : Option Bool
  pub directory_listing_order : Option ℕ
  pub directory_listing_format : Option DirListFmt
  pub directory_listing_download : Option (List DirDownloadFmt)
  pub basic_auth : Option String
  pub fd : Option ℕ
  pub threads_multiplier : Option ℕ
  pub max_blocking_threads : Option ℕ
  pub grace_period : Option ℕ
  pub page_fallback : Option String
  pub log_remote_address : Option Bool
  pub log_x_real_ip : Option Bool
  pub log_forwarded_for : Option Bool
  pub trusted_proxies : Option (List String)
  pub redirect_trailing_slash : Option Bool
  pub ignore_hidden_files : Option Bool
  pub disable_symlinks : Option Bool
  pub accept_markdown : Option Bool
  pub text_charset : Option Bool
  pub index_files : Option String
  pub health : Option Bool
  pub metrics : Option Bool
  pub maintenance_mode : Option Bool
  pub maintenance_mode_status : Option ℕ
  pub maintenance_mode_file : Option String

-- `StatusCode::from_u16`
abbrev pub is_status : ℕ → Bool
is_status n = leb 100 n && ltb n 1000

abbrev pub is_status_or_none : Option ℕ → Bool
is_status_or_none none = true
is_status_or_none (some n) = is_status n

-- without a word of the file, HTTP/2 brings the security headers with it
unfoldable pub security : Option Bool → Bool → Bool → Bool
security (some v) http2 security_headers = v
security none http2 security_headers = if http2 then true else security_headers

-- the level's name, which is lower case
unfoldable pub level_text : Option LogLevel → String → String
level_text none log_level = log_level
level_text (some level) log_level = name level

-- each option of the file, or else that of the command line
unfoldable pub merged : FileGeneral → General → General
merged file cli = record {
  host = unwrap_or file.host cli.host;
  port = unwrap_or file.port cli.port;
  root = unwrap_or file.root cli.root;
  log_level = level_text file.log_level cli.log_level;
  log_with_ansi = unwrap_or file.log_with_ansi cli.log_with_ansi;
  cache_control_headers = unwrap_or file.cache_control_headers cli.cache_control_headers;
  compression = unwrap_or file.compression cli.compression;
  compression_level = unwrap_or file.compression_level cli.compression_level;
  compression_static = unwrap_or file.compression_static cli.compression_static;
  page404 = unwrap_or file.page404 cli.page404;
  page50x = unwrap_or file.page50x cli.page50x;
  http2 = unwrap_or file.http2 cli.http2;
  http2_tls_cert = or_else file.http2_tls_cert cli.http2_tls_cert;
  http2_tls_key = or_else file.http2_tls_key cli.http2_tls_key;
  https_redirect = unwrap_or file.https_redirect cli.https_redirect;
  https_redirect_host = unwrap_or file.https_redirect_host cli.https_redirect_host;
  https_redirect_from_port = unwrap_or file.https_redirect_from_port cli.https_redirect_from_port;
  https_redirect_from_hosts =
      unwrap_or file.https_redirect_from_hosts cli.https_redirect_from_hosts;
  security_headers =
      security file.security_headers (unwrap_or file.http2 cli.http2) cli.security_headers;
  cors_allow_origins = unwrap_or file.cors_allow_origins cli.cors_allow_origins;
  cors_allow_headers = unwrap_or file.cors_allow_headers cli.cors_allow_headers;
  cors_expose_headers = unwrap_or file.cors_expose_headers cli.cors_expose_headers;
  directory_listing = unwrap_or file.directory_listing cli.directory_listing;
  directory_listing_order = unwrap_or file.directory_listing_order cli.directory_listing_order;
  directory_listing_format = unwrap_or file.directory_listing_format cli.directory_listing_format;
  directory_listing_download =
      unwrap_or file.directory_listing_download cli.directory_listing_download;
  basic_auth = unwrap_or file.basic_auth cli.basic_auth;
  fd = or_else file.fd cli.fd;
  threads_multiplier = unwrap_or file.threads_multiplier cli.threads_multiplier;
  max_blocking_threads = unwrap_or file.max_blocking_threads cli.max_blocking_threads;
  grace_period = unwrap_or file.grace_period cli.grace_period;
  page_fallback = unwrap_or file.page_fallback cli.page_fallback;
  log_remote_address = unwrap_or file.log_remote_address cli.log_remote_address;
  log_x_real_ip = unwrap_or file.log_x_real_ip cli.log_x_real_ip;
  log_forwarded_for = unwrap_or file.log_forwarded_for cli.log_forwarded_for;
  trusted_proxies = unwrap_or file.trusted_proxies cli.trusted_proxies;
  redirect_trailing_slash = unwrap_or file.redirect_trailing_slash cli.redirect_trailing_slash;
  ignore_hidden_files = unwrap_or file.ignore_hidden_files cli.ignore_hidden_files;
  disable_symlinks = unwrap_or file.disable_symlinks cli.disable_symlinks;
  accept_markdown = unwrap_or file.accept_markdown cli.accept_markdown;
  text_charset = unwrap_or file.text_charset cli.text_charset;
  index_files = unwrap_or file.index_files cli.index_files;
  health = unwrap_or file.health cli.health;
  metrics = unwrap_or file.metrics cli.metrics;
  maintenance_mode = unwrap_or file.maintenance_mode cli.maintenance_mode;
  maintenance_mode_status = unwrap_or file.maintenance_mode_status cli.maintenance_mode_status;
  maintenance_mode_file = unwrap_or file.maintenance_mode_file cli.maintenance_mode_file;
}

unfoldable pub merge : FileGeneral → General → Result General
merge file cli = do
  ensure (is_status_or_none file.maintenance_mode_status) "invalid HTTP status code"
  ok (merged file cli)
