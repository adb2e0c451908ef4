-- ===== src/Settings/Advanced.antt =====
-- settings/mod.rs: the advanced options of the configuration file, whose patterns are compiled, and
-- the trust of the proxy's client. `Compilers` holds the crates `globset` and `regex`, of a glob the
-- matcher and the text of its regular expression, with and without a literal separator, and the
-- system: whether a path is a regular file, a directory or anything at all, and the home directory.
pub mod Compiled
use Prim.Native.String.{◌++◌}
use weave_gate.Common.{
  ℕ, zero, suc, ◌-◌, String, Bool, false, not, ◌&&◌, Option, none, some, List, [], ◌∷◌, ◌==◌, all,
  is_nil, eqb, unwrap_or, and_then, if◌then◌else◌, Result, ok, ok_or, context, ensure, traverse,
  ◌>>=◌, ◌>>◌,
}
use weave_gate.Common.Text.{strip_prefix}
use weave_gate.Http.{Http}
use weave_gate.Rules.{Glob}
use weave_gate.Redirects.{
  Regex, Redirects, RedirectsKind, permanent, temporary, Rewrites, VirtualHosts,
}
use weave_gate.Finish.{HeadersEntry}
use weave_gate.Routes.{Proxy}
use weave_gate.Routes.Bootstrap.{RoutesBootstrap}
use weave_gate.Paths.{push}

pub record Compilers : Type 0 where
  pub glob_new : String → Option Glob
  pub glob_regex : String → Option String
  pub regex_new : String → Option Regex
  pub is_file : String → Bool
  pub exists : String → Bool
  pub is_dir : String → Bool
  pub home : Option String

-- file.rs
pub record FileHeaders (L : Http) : Type 0 where
  pub source : String
  pub headers : List (String × L.Value)

pub record FileRedirects : Type 0 where
  pub host : Option String
  pub source : String
  pub destination : String
  pub kind : RedirectsKind

pub record FileRewrites : Type 0 where
  pub source : String
  pub destination : String
  pub redirect : Option RedirectsKind

pub record FileVirtualHosts : Type 0 where
  pub host : String
  pub root : Option String

pub record ProxyTls : Type 0 where
  pub ca_file : Option String
  pub ca_files : Option (List String)
  pub disable_webpki_roots : Option Bool

pub record FileAdvanced (L : Http) : Type 0 where
  pub headers : Option (List (FileHeaders L))
  pub rewrites : Option (List FileRewrites)
  pub redirects : Option (List FileRedirects)
  pub virtual_hosts : Option (List FileVirtualHosts)
  pub proxies : Option (List Proxy)
  pub routes_bootstrap : Option RoutesBootstrap
  pub proxy_tls : Option ProxyTls
  pub proxy_pool_max_idle_per_host : Option ℕ
  pub proxy_pool_idle_timeout_secs : Option ℕ
  pub proxy_first : Option Bool
  pub max_upgrade_tunnels : Option ℕ

pub record ProxyTlsSettings : Type 0 where
  pub ca_files : List String
  pub use_webpki_roots : Bool

pub record ProxySettings : Type 0 where
  pub pool_max_idle_per_host : ℕ
  pub pool_idle_timeout_secs : ℕ
  pub proxy_first : Bool
  pub max_upgrade_tunnels : Option ℕ
  pub tls : ProxyTlsSettings

pub record Advanced (L : Http) : Type 0 where
  pub headers : Option (List (HeadersEntry L))
  pub rewrites : Option (List Rewrites)
  pub redirects : Option (List Redirects)
  pub virtual_hosts : Option (List VirtualHosts)
  pub proxy_defs : Option (List Proxy)
  pub routes_bootstrap : Option RoutesBootstrap
  pub proxy_settings : ProxySettings

abbrev pub count_chars : String → ℕ
count_chars String.[] = 0
count_chars (String.◌∷◌ c s) = suc (count_chars s)

-- `s.replace(from, to)` behind `skip` characters of a match, for a text `from` that is not empty
unfoldable pub replace_behind : String → String → ℕ → String → String
replace_behind from to skip String.[] = String.[]
replace_behind from to (suc skip) (String.◌∷◌ c s) = replace_behind from to skip s
replace_behind from to zero (String.◌∷◌ c s) =
    let kept = replace_behind from to zero s in
    let replaced = replace_behind from to (count_chars from - 1) s in
    elim (strip_prefix (String.◌∷◌ c s) from) [
      | some rest ↦ to ++ replaced
      | none ↦ String.◌∷◌ c kept
    ]

abbrev pub replace : String → String → String → String
replace s from to = replace_behind from to 0 s

-- `s.trim_start_matches(p)`, likewise
unfoldable pub trim_prefix : String → ℕ → String → String
trim_prefix p skip String.[] = String.[]
trim_prefix p (suc skip) (String.◌∷◌ c s) = trim_prefix p skip s
trim_prefix p zero (String.◌∷◌ c s) =
    let rest = trim_prefix p (count_chars p - 1) s in
    elim (strip_prefix (String.◌∷◌ c s) p) [ some _ ↦ rest | none ↦ String.◌∷◌ c s ]

-- the regular expression of a glob, with groups that capture
unfoldable pub pattern_of : String → String
pattern_of regex =
    replace (replace (replace (trim_prefix "(?-u)" 0 regex) "?:.*" ".*") "?:" "") ".*.*" ".*"

abbrev pub kind_status : RedirectsKind → ℕ
kind_status permanent = 301
kind_status temporary = 302

-- an option whose value may fail
module _ {ℓ κ} {A : Type ℓ} {B : Type κ} where
  abbrev pub in_option : (A → Result B) → Option A → Result (Option B)
  in_option f none = ok none
  in_option f (some a) = f a >>= λ b. ok (some b)

module _ (L : Http) (c : Compilers) where
  unfoldable pub compile_headers : FileHeaders L → Result (HeadersEntry L)
  compile_headers entry = do
    source ← ok_or (c.glob_new entry.source) "can not compile glob pattern for header source"
    ok (record { source = source; headers = entry.headers })

  -- the pattern's errors by what the entry is
  unfoldable pub compile_source : String → String → String → Result Regex
  compile_source glob_error regex_error source = do
    regex ← ok_or (c.glob_regex source) glob_error
    ok_or (c.regex_new (pattern_of regex)) regex_error

  unfoldable pub compile_rewrites : FileRewrites → Result Rewrites
  compile_rewrites entry = do
    source ←
        compile_source "can not compile glob pattern for rewrite source"
          "can not compile regex pattern equivalent for rewrite source" entry.source
    ok (record { source = source; destination = entry.destination; redirect = entry.redirect })

  -- 301 and 302 are statuses
  unfoldable pub compile_redirects : FileRedirects → Result Redirects
  compile_redirects entry = do
    source ←
        compile_source "can not compile glob pattern for redirect source"
          "can not compile regex pattern equivalent for redirect source" entry.source
    ok (record {
      host = entry.host;
      source = source;
      destination = entry.destination;
      kind = kind_status entry.kind;
    })

  -- helpers.rs, `get_valid_dirpath`
  unfoldable pub get_valid_dirpath : String → Result String
  get_valid_dirpath path = do
    ensure (c.exists path) "path was not found or inaccessible"
    ensure (c.is_dir path) "path is not a valid directory"
    ok path

  unfoldable pub root_of_host : String → Result String
  root_of_host root =
      context "root directory for virtual host was not found or inaccessible"
        (get_valid_dirpath root)

  -- hosts without a root are left out
  unfoldable pub compile_virtual_hosts : List FileVirtualHosts → Result (List VirtualHosts)
  compile_virtual_hosts [] = ok []
  compile_virtual_hosts (entry ∷ entries) = elim entry.root [
    | none ↦ compile_virtual_hosts entries
    | some root ↦ root_of_host root >>= λ root_dir. compile_virtual_hosts entries >>= λ rest.
        ok (record { host = entry.host; root = root_dir } ∷ rest)
  ]

  -- `PathBuf::join` on the home directory
  unfoldable pub expand_tls_path : String → Result String
  expand_tls_path s = elim (strip_prefix s "~/") [
    | some rest ↦ do
      home ← ok_or c.home "proxy-tls: cannot expand '~/' (HOME not set)"
      ok (push home rest)
    | none ↦ if s == "~" then ok_or c.home "proxy-tls: cannot expand '~' (HOME not set)" else ok s
  ]

  unfoldable pub named_files : ProxyTls → List String
  named_files file = elim file.ca_file [
    | none ↦ unwrap_or file.ca_files []
    | some path ↦ path ∷ unwrap_or file.ca_files []
  ]

  -- `ProxyTlsSettings::from_file`
  unfoldable pub from_file : ProxyTls → Result ProxyTlsSettings
  from_file file = do
    ca_files ← traverse expand_tls_path (named_files file)
    let use_webpki_roots = not (unwrap_or file.disable_webpki_roots false)
    ensure (not (not use_webpki_roots && is_nil ca_files))
        "proxy-tls: disable-webpki-roots requires ca-file or ca-files"
    ensure (all c.is_file ca_files) "proxy-tls: CA file not found or not a regular file"
    ok (record { ca_files = ca_files; use_webpki_roots = use_webpki_roots })

  -- `ProxyTlsSettings::default`, which is derived
  abbrev pub default_tls : ProxyTlsSettings
  default_tls = record { ca_files = []; use_webpki_roots = false }

  unfoldable pub tls_settings : Option ProxyTls → Result ProxyTlsSettings
  tls_settings none = ok default_tls
  tls_settings (some tls) = from_file tls

  abbrev pub tunnel_limit : Option ℕ → Option ℕ
  tunnel_limit limit = and_then limit (λ n. if eqb n 0 then none else some n)

  unfoldable pub proxy_settings : FileAdvanced L → ProxyTlsSettings → ProxySettings
  proxy_settings file tls = record {
    pool_max_idle_per_host = unwrap_or file.proxy_pool_max_idle_per_host 32;
    pool_idle_timeout_secs = unwrap_or file.proxy_pool_idle_timeout_secs 90;
    proxy_first = unwrap_or file.proxy_first false;
    max_upgrade_tunnels = tunnel_limit file.max_upgrade_tunnels;
    tls = tls;
  }

  -- the part of `parse_from` for the advanced options, in its order
  unfoldable pub compile_advanced : FileAdvanced L → Result (Advanced L)
  compile_advanced file = do
    headers ← in_option (traverse compile_headers) file.headers
    rewrites ← in_option (traverse compile_rewrites) file.rewrites
    redirects ← in_option (traverse compile_redirects) file.redirects
    tls ← tls_settings file.proxy_tls
    virtual_hosts ← in_option compile_virtual_hosts file.virtual_hosts
    ok (record {
      headers = headers;
      rewrites = rewrites;
      redirects = redirects;
      virtual_hosts = virtual_hosts;
      proxy_defs = file.proxies;
      routes_bootstrap = file.routes_bootstrap;
      proxy_settings = proxy_settings file tls;
    })
