-- ===== src/Lib.antt =====
-- WeaveGate, a frontend gateway: a reverse proxy in front of backend services and a server of static
-- files. This library models the start, from the settings to the rules of the proxy, and the whole
-- way of a request: the handler with its checks, the reverse proxy, the static files and listings, and
-- the steps on the response.
--
-- At startup src/settings merges the configuration file into the command line's options and compiles
-- its patterns; src/routes/bootstrap.rs fetches a document of routes from a control plane, or takes it
-- from a cache file; src/proxy_sort.rs sorts these definitions together with those of the TOML file;
-- src/proxy_compile.rs compiles them to rules, each with a round-robin balancer
-- (src/settings/mod.rs) and a URI template for each instance. For a request src/handler.rs makes its
-- checks (method, health, metrics, cross-origin, credentials, maintenance), then redirects, rewrites
-- and the proxy, which comes first if it is configured so. src/proxy.rs finds the first rule that fits
-- the host and path, lets the balancer choose an instance, builds the upstream's URI and headers, and
-- forwards the request, or opens a tunnel for a protocol upgrade under a limit. What no step answers
-- goes on to the static files: the file for the path below the root of the virtual host, or its
-- Markdown variant, or a listing, whose answer src/response.rs builds; then come the fallback page,
-- the cross-origin headers, the charset, the compression and the last headers.
--
-- The files and what they model:
--   Common     shared helpers: Boolean tests, lists, results, texts, the stable sort.
--   Http       the crates `http` and `hyper` as an interface: header maps and URIs as a record of
--              operations with the laws that their documentation gives. Http/Assoc is an
--              implementation by an association list and plain texts, for the runs.
--   Balancer   src/settings/mod.rs, `ProxyBalancer`: the counter is a field, and `next_index` gives
--              the index and the balancer with its counter moved on.
--   Routes     src/routes/document.rs: `RoutesDocument::into_proxy_defs`, loops as recursion over the
--              lists. Routes/Bootstrap is src/routes/bootstrap.rs, with the network, the environment
--              and the file system as a record of functions and the cache file as state.
--   Rules      src/proxy_sort.rs and src/proxy_compile.rs: `sort_proxy_defs_by_specificity`,
--              `compile_proxy_rules`, and `upstream_uri_template` of src/settings/mod.rs.
--   Proxy      src/proxy.rs: Proxy/Matching is `find_rule` and `request_host`, Proxy/Upstream
--              `build_upstream_uri_from_template` and `upstream_uri_for_rule`, Proxy/Headers the
--              copies and removals of headers, Proxy/Forward `forward_http`, `forward_upgrade` and
--              `pre_process` with the proxy's state passed on, Proxy/Startup `resolve_rules` and
--              `init`.
--   Ranges     src/conditional_headers.rs and src/response.rs: `check`, `bytes_range` and
--              `response_body`, a file being the list of its bytes, and its length that of the
--              metadata.
--   Cors       src/cors.rs: `check_request`, `pre_process` and `post_process`; Cors/Built is `new` and
--              `init`, with a result of its own for the panics.
--   Pages      src/error_page.rs, src/fallback_page.rs, src/maintenance_mode.rs, src/health.rs and the
--              endpoint of src/metrics.rs: the answers that the gateway makes itself.
--   Redirects  src/redirects.rs, src/rewrites.rs and src/virtual_hosts.rs.
--   Paths      src/fs/path.rs, `sanitize_path`, and the checks of src/static_files.rs on the path.
--   Encodings  src/headers_ext: the qualities of `Accept-Encoding`, with `get_preferred_encoding` of
--              src/compression.rs and `precompressed_variant` of src/compression_static.rs.
--   Choice     src/static_files.rs, `get_composed_file_metadata`, and src/fs/meta.rs: the choice of the
--              file for a path.
--   Statics    src/static_files.rs, `handle`; the listing and `file_reply` are parameters here.
--              Statics/Files is `file_reply`, over Ranges.
--   Listing    src/directory_listing: the entries of a directory and their sort; Listing/Reading is
--              `read_dir_entries` and `auto_index`, and Listing/Download the archive of a directory.
--   Markdown   src/markdown.rs, src/headers_ext/accept.rs and `try_markdown_variant`.
--   Charset    src/mime_ext.rs and src/text_charset.rs.
--   Compression  src/compression.rs and src/compression_static.rs, the steps on the response.
--   Finish     src/control_headers.rs, src/security_headers.rs and src/custom_headers.rs: the last
--              headers of a response for a static file.
--   Handler    src/handler.rs, `RequestHandler::handle` up to the static files, with
--              src/basic_auth.rs; Handler/Answering is the whole of it.
--   Https      src/https_redirect.rs, the service of the plain port.
--   Settings   src/settings/mod.rs, `parse_from`: the configuration file that is read.
--              Settings/General is the merge of the general options, Settings/Advanced the compilation
--              of the advanced ones and `ProxyTlsSettings::from_file`.
--   Startup    src/server.rs, `start_server`: the options of the handler, which the `init` functions of
--              its parts fill in. Startup/Running is the server that it starts, as a sequence of
--              requests and of ends of tunnels, Startup/Listening which servers listen, with the
--              service of the redirect to HTTPS.
--   Metrics    src/metrics.rs, the calls of the collectors by src/handler.rs and src/service.rs, in any
--              interleaving of connections and requests.
--   Client     src/proxy_client.rs: the roots that the proxy's client trusts.
--
-- An error is its message without the values that the program formats into it. All loops of these
-- parts run over lists, and so does the recursion: no fuel is needed, but for the decimal digits
-- of a `u64`, of which there are at most 20, and for the loop over a stack that collects an
-- archive: as much as the directory weighs is enough, where each item of the tree weighs more than
-- those below it. The machine arithmetic is the counter of the balancer, a `usize` of 64 bits, and
-- the end of a range, a `u64`, both with their wrap-around. Globs are the test that the compiled
-- matcher makes, and regular expressions the captures that they give, parameters where an entry is
-- compiled. The upstream is a function from requests to answers. Concurrent requests share the
-- counters, each step of which is one atomic `fetch_add`, and the permits of the semaphore, whose
-- interleavings Proxy/Forward/Interleaved models as steps.
--
-- Not modelled: the copying of bytes in a tunnel (tokio), the parsers of URIs, globs, media types,
-- JSON, TOML and the command line (crates), logging, the registry of the metrics, TLS and sockets,
-- the HTML of a listing, the formats of an archive, the encoders, and the experimental cache in
-- memory.
pub mod Common
pub mod Http
pub mod Balancer
pub mod Routes
pub mod Rules
pub mod Proxy
pub mod Ranges
pub mod Cors
pub mod Pages
pub mod Redirects
pub mod Handler
pub mod Paths
pub mod Encodings
pub mod Finish
pub mod Choice
pub mod Statics
pub mod Charset
pub mod Compression
pub mod Markdown
pub mod Listing
pub mod Https
pub mod Settings
pub mod Client
pub mod Startup
pub mod Metrics
