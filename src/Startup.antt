-- ===== src/Startup.antt =====
-- server.rs, `Server::new` and `start_server`, up to the listening: the options of the request handler,
-- which the `init` functions of its parts fill in from the settings, and the state of the proxy. Logging
-- is left out, and so are the sockets, the signals and the runtime. `Site` holds the crates and the
-- system that the parts need, and the text of a file.
pub mod Running
pub mod Listening
mod Tests
use weave_gate.Common.{
  ℕ, ◌*◌, String, Bool, false, not, ◌&&◌, Option, none, some, List, [], ◌∷◌, map, and_then, is_some,
  is_nil, leb, unwrap_or, if◌then◌else◌, Result, ok, err, ensure, context, ◌>>=◌, ◌>>◌,
}
use weave_gate.Common.Text.{trim, split, starts_with_char}
use weave_gate.Http.{Http}
use weave_gate.Paths.{components, strip_components, push}
use weave_gate.Cors.{Configured}
use weave_gate.Cors.Built.{Build, panicked, built, init as init_cors}
use weave_gate.Listing.Download.{DirDownloadFmt, targz}
use weave_gate.Routes.{RoutesDocument}
use weave_gate.Routes.Bootstrap.{Outside}
use weave_gate.Proxy.Startup.{Advanced as ProxyAdvanced, resolve_rules, init as init_proxy}
use weave_gate.Proxy.Forward.{ProxyState}
use weave_gate.Settings.{Settings}
use weave_gate.Settings.General.{General}
use weave_gate.Settings.Advanced.{Advanced, Compilers, get_valid_dirpath}
use weave_gate.Handler.{HandlerOpts}
use weave_gate.Handler.Answering.{FileOpts}

pub record Site (L : Http) : Type 0 where
  pub compilers : Compilers
  pub outside : Outside
  pub read_text : String → Option String
  pub name_of : String → Option String
  pub try_from_parts : String → String → Option L.Value
  pub header_of : List String → L.Value
  pub builds : Bool

pub record Started (L : Http) : Type 0 where
  pub handler : HandlerOpts L
  pub files : FileOpts L
  pub proxy : ProxyState L

-- `Server::new`
abbrev pub worker_threads : ℕ → ℕ → ℕ
worker_threads cpus multiplier = if leb multiplier 1 then cpus else cpus * multiplier

-- an error page of a relative path is below the root
unfoldable pub page_path : String → String → String
page_path root_dir page =
    if not (starts_with_char b'/' page)
      && not (is_some (strip_components (components page) (components root_dir)))
    then push root_dir page
    else page

-- `directory_listing_download::init`: each format once, of which there is one
unfoldable pub add_formats : List DirDownloadFmt → List DirDownloadFmt → List DirDownloadFmt
add_formats [] enabled = enabled
add_formats (targz ∷ formats) [] = add_formats formats (targz ∷ [])
add_formats (targz ∷ formats) (f ∷ enabled) = add_formats formats (f ∷ enabled)

module _ (L : Http) (site : Site L) (version : String) where
  -- `fallback_page::init`
  unfoldable pub page_fallback : String → String
  page_fallback path =
      if site.compilers.is_file path then trim (unwrap_or (site.read_text path) "") else ""

  abbrev pub index_names : String → List String
  index_names index_files = map trim (split b',' index_files)

  -- what `resolve_rules` and `init` of the proxy read
  unfoldable pub proxy_advanced : Advanced L → ProxyAdvanced L
  proxy_advanced adv = record {
    proxies = none;
    proxy_defs = adv.proxy_defs;
    routes_bootstrap = adv.routes_bootstrap;
    max_upgrade_tunnels = adv.proxy_settings.max_upgrade_tunnels;
  }

  -- a panic ends the start like an error
  unfoldable pub or_panic : Build L → Result (Option (Configured L))
  or_panic panicked = err "panic"
  or_panic (built cors) = ok cors

  -- the options of the handler, which evaluates proxy rules first only if there are some
  unfoldable pub handler_options :
      General → String → Option (Configured L) → Option (Advanced L) → ProxyState L → HandlerOpts L
  handler_options general root_dir cors advanced state = record {
    health = general.health;
    metrics_enabled = general.metrics;
    cors = cors;
    basic_auth = trim general.basic_auth;
    maintenance_mode = general.maintenance_mode;
    maintenance_mode_status = general.maintenance_mode_status;
    maintenance_mode_file = general.maintenance_mode_file;
    page404 = page_path root_dir general.page404;
    page50x = page_path root_dir general.page50x;
    redirects = and_then advanced (λ a. a.redirects);
    rewrites = and_then advanced (λ a. a.rewrites);
    proxy_first = elim advanced [
      | none ↦ false
      | some a ↦ state.has_client && a.proxy_settings.proxy_first
    ];
  }

  unfoldable pub file_options : General → String → Option (Advanced L) → FileOpts L
  file_options general root_dir advanced = record {
    root_dir = root_dir;
    virtual_hosts = and_then advanced (λ a. a.virtual_hosts);
    index_files = index_names general.index_files;
    dir_listing = general.directory_listing;
    dir_listing_order = general.directory_listing_order;
    dir_listing_format = general.directory_listing_format;
    dir_listing_download = add_formats general.directory_listing_download [];
    redirect_trailing_slash = general.redirect_trailing_slash;
    compression_static = general.compression_static;
    compression = general.compression;
    ignore_hidden_files = general.ignore_hidden_files;
    disable_symlinks = general.disable_symlinks;
    accept_markdown = general.accept_markdown;
    text_charset = general.text_charset;
    page_fallback = page_fallback general.page_fallback;
    finishing = record {
      cache_control_headers = general.cache_control_headers;
      security_headers = general.security_headers;
      headers = and_then advanced (λ a. a.headers);
      redirect_trailing_slash = general.redirect_trailing_slash;
    };
  }

  -- the steps in front of the proxy, any of which may end the start
  unfoldable pub checked_site : General → Result (String × Option (Configured L))
  checked_site general = do
    root_dir ←
        context "root directory was not found or inaccessible"
          (get_valid_dirpath L site.compilers general.root)
    ensure (not (is_nil (index_names general.index_files)))
        "index files list is empty, provide at least one index file"
    cors ← or_panic (
        init_cors L site.name_of site.try_from_parts site.header_of general.cors_allow_origins
          general.cors_allow_headers general.cors_expose_headers)
    ok (root_dir, cors)

  -- the state of the proxy, and the cache of the routes
  unfoldable pub proxy_state :
      Option (Advanced L) → Option RoutesDocument → Option RoutesDocument × Result (ProxyState L)
  proxy_state advanced cache =
      let (cache', resolved) =
        resolve_rules L site.compilers.glob_new site.outside version
          (and_then advanced (λ a. some (proxy_advanced a))) cache in
      (cache', resolved >>= λ adv. init_proxy L site.builds adv)

  unfoldable pub start_server :
      Settings L → Option RoutesDocument → Option RoutesDocument × Result (Started L)
  start_server settings cache = elim (checked_site settings.general) [
    | err e ↦ (cache, err e)
    | ok (root_dir, cors) ↦
        let (cache', started) = proxy_state settings.advanced cache in
        (
          cache',
          started >>= λ state. ok (record {
            handler = handler_options settings.general root_dir cors settings.advanced state;
            files = file_options settings.general root_dir settings.advanced;
            proxy = state;
          }),
        )
  ]
