-- ===== src/Settings/Tests.antt =====
-- Runs of the settings.
use weave_gate.Common.{
  ◌≡◌, ◌⊎◌, refl, true, false, ◌||◌, none, some, [], ◌∷◌, ◌==◌, if◌then◌else◌, ok, err,
}
use weave_gate.Http.Assoc.{assoc}
use weave_gate.Listing.Reading.{html}
use weave_gate.Redirects.{permanent}
use weave_gate.Settings.{
  System, Settings, parse_from, without_file, read, with_file, read_file_settings,
  to_use_config_file, read_found, general_of,
}
use weave_gate.Settings.General.{
  General, FileGeneral, warn, default_level, is_status_or_none, merge,
}
use weave_gate.Settings.General.Merged.{merge_lem}
use weave_gate.Settings.General.Taken.{IsMerged}
use weave_gate.Settings.Advanced.{
  Advanced, Compilers, FileAdvanced, compile_advanced, pattern_of, replace_behind, proxy_settings,
  compile_source, named_files, tls_settings, compile_redirects, from_file, compile_virtual_hosts,
  expand_tls_path, get_valid_dirpath, trim_prefix, compile_headers, root_of_host,
}
use weave_gate.Settings.Advanced.Compiled.{IsAdvanced, compile_advanced-IsAdvanced}
use weave_gate.Settings.Parsed.{chosen, IsRead, parse_from-IsRead}
use weave_gate.Common.Text.{strip_prefix}

abbrev pub cli : General
cli = record {
  host = "";
  port = 80;
  root = "./public";
  log_level = "error";
  log_with_ansi = false;
  cache_control_headers = false;
  compression = false;
  compression_level = default_level;
  compression_static = false;
  page404 = "";
  page50x = "";
  http2 = true;
  http2_tls_cert = none;
  http2_tls_key = none;
  https_redirect = false;
  https_redirect_host = "";
  https_redirect_from_port = 0;
  https_redirect_from_hosts = "";
  security_headers = false;
  cors_allow_origins = "";
  cors_allow_headers = "";
  cors_expose_headers = "";
  directory_listing = false;
  directory_listing_order = 0;
  directory_listing_format = html;
  directory_listing_download = [];
  basic_auth = "";
  fd = none;
  threads_multiplier = 0;
  max_blocking_threads = 0;
  grace_period = 0;
  page_fallback = "";
  log_remote_address = false;
  log_x_real_ip = false;
  log_forwarded_for = false;
  trusted_proxies = [];
  redirect_trailing_slash = false;
  ignore_hidden_files = false;
  disable_symlinks = false;
  accept_markdown = false;
  text_charset = false;
  index_files = "";
  health = false;
  metrics = false;
  maintenance_mode = false;
  maintenance_mode_status = 503;
  maintenance_mode_file = "";
}

abbrev pub file_general : FileGeneral
file_general = record {
  host = none;
  port = some 8080;
  root = some "./site";
  log_level = some warn;
  log_with_ansi = none;
  cache_control_headers = none;
  compression = some true;
  compression_level = none;
  compression_static = none;
  page404 = none;
  page50x = none;
  http2 = none;
  http2_tls_cert = none;
  http2_tls_key = none;
  https_redirect = none;
  https_redirect_host = none;
  https_redirect_from_port = none;
  https_redirect_from_hosts = none;
  security_headers = none;
  cors_allow_origins = none;
  cors_allow_headers = none;
  cors_expose_headers = none;
  directory_listing = none;
  directory_listing_order = none;
  directory_listing_format = none;
  directory_listing_download = none;
  basic_auth = none;
  fd = none;
  threads_multiplier = none;
  max_blocking_threads = none;
  grace_period = none;
  page_fallback = none;
  log_remote_address = none;
  log_x_real_ip = none;
  log_forwarded_for = none;
  trusted_proxies = none;
  redirect_trailing_slash = none;
  ignore_hidden_files = none;
  disable_symlinks = none;
  accept_markdown = none;
  text_charset = none;
  index_files = none;
  health = none;
  metrics = none;
  maintenance_mode = none;
  maintenance_mode_status = none;
  maintenance_mode_file = none;
}

merge_lem_example :
    ((is_status_or_none file_general.maintenance_mode_status ≡ false)
      × (merge file_general cli ≡ err "invalid HTTP status code"))
    ⊎ ((g : General) × (merge file_general cli ≡ ok g)
        × (merge file_general g ≡ ok g)
        × IsMerged file_general cli g)
merge_lem_example = merge_lem file_general cli

-- the text that `globset` gives for `/old/**/*.html`, and its pattern
pattern_old : pattern_of "(?-u)^/old/(?:.*/)?[^/]*$" ≡ "^/old/(.*/)?[^/]*$"
unfolding pattern_of replace_behind trim_prefix strip_prefix
pattern_old = refl

abbrev pub compilers : Compilers
compilers = record {
  glob_new = λ pattern. some (λ path. pattern == path);
  glob_regex = λ pattern. if pattern == "[" then none else some pattern;
  regex_new = λ pattern. some (λ text. if pattern == text then some (text ∷ []) else none);
  is_file = λ path. path == "./sws.toml" || path == "./other.toml" || path == "/ca.pem";
  exists = λ path. path == "/srv/a";
  is_dir = λ path. path == "/srv/a";
  home = some "/root";
}

abbrev pub file_advanced : FileAdvanced assoc
file_advanced = record {
  headers = some (record { source = "/a.css"; headers = ("x-a", "1") ∷ [] } ∷ []);
  rewrites = none;
  redirects =
      some (record { host = none; source = "/old"; destination = "/new"; kind = permanent } ∷ []);
  virtual_hosts = some (
      record { host = "b.example"; root = none }
      ∷ record { host = "a.example"; root = some "/srv/a" }
      ∷ []);
  proxies = none;
  routes_bootstrap = none;
  proxy_tls =
      some (record { ca_file = some "/ca.pem"; ca_files = none; disable_webpki_roots = some true });
  proxy_pool_max_idle_per_host = none;
  proxy_pool_idle_timeout_secs = none;
  proxy_first = some true;
  max_upgrade_tunnels = some 0;
}

abbrev compiled : Advanced assoc
compiled = record {
  headers = some (record { source = λ path. "/a.css" == path; headers = ("x-a", "1") ∷ [] } ∷ []);
  rewrites = none;
  redirects = some (
      record {
        host = none;
        source = λ text. if "/old" == text then some (text ∷ []) else none;
        destination = "/new";
        kind = 301;
      }
      ∷ []);
  virtual_hosts = some (record { host = "a.example"; root = "/srv/a" } ∷ []);
  proxy_defs = none;
  routes_bootstrap = none;
  proxy_settings = record {
    pool_max_idle_per_host = 32;
    pool_idle_timeout_secs = 90;
    proxy_first = true;
    max_upgrade_tunnels = none;
    tls = record { ca_files = "/ca.pem" ∷ []; use_webpki_roots = false };
  };
}

compiled_file : compile_advanced assoc compilers file_advanced ≡ ok compiled
unfolding compile_advanced compile_headers compile_redirects compile_source tls_settings from_file
    named_files expand_tls_path strip_prefix compile_virtual_hosts get_valid_dirpath pattern_of
    proxy_settings replace_behind trim_prefix root_of_host
compiled_file = refl

compile_advanced-IsAdvanced_example : IsAdvanced assoc compilers file_advanced compiled
compile_advanced-IsAdvanced_example =
    compile_advanced-IsAdvanced assoc compilers file_advanced compiled compiled_file

-- `./sws.toml` is there, with advanced options only
abbrev sys : System assoc
sys = record {
  compilers = compilers;
  canonicalize = λ path. some path;
  extension = λ path. if path == "./sws.toml" then some "toml" else none;
  read_toml_file = λ path. some (record { general = none; advanced = some file_advanced });
}

abbrev parsed : Settings assoc
parsed = record { general = cli; config_file = "./sws.toml"; advanced = some compiled }

-- it is read although the command line names another file that is there
parsed_sws : parse_from assoc sys cli "./other.toml" ≡ ok parsed
unfolding parse_from read_file_settings to_use_config_file read_found read with_file general_of
    compile_advanced compile_headers compile_redirects compile_source tls_settings from_file
    named_files expand_tls_path strip_prefix compile_virtual_hosts get_valid_dirpath pattern_of
    proxy_settings replace_behind trim_prefix root_of_host
parsed_sws = refl

parse_from-IsRead_example :
    ((sys.compilers.is_file (chosen assoc sys "./other.toml") ≡ false)
      × (parsed ≡ without_file assoc sys cli "./other.toml"))
    ⊎ ((sys.compilers.is_file (chosen assoc sys "./other.toml") ≡ true)
        × IsRead assoc sys cli (chosen assoc sys "./other.toml") parsed)
parse_from-IsRead_example = parse_from-IsRead assoc sys cli "./other.toml" parsed parsed_sws
