-- ===== src/Handler/Answering.antt =====
-- handler.rs, `RequestHandler::handle`, as a whole: the checks, redirects, rewrites and the proxy, and
-- behind them the root of the virtual host, the Markdown negotiation, the static files, and the steps
-- on their response in the order of the source. The log is left out; Metrics has the calls of the
-- collectors.
pub mod Reached
pub mod Tests
use weave_gate.Common.{
  ℕ, String, Bool, not, ◌&&◌, ◌==◌, any, is_nil, Option, none, some, List, and_then, is_some,
  unwrap_or, if◌then◌else◌,
}
use weave_gate.Http.{Http, Request, Response}
use weave_gate.Cors
use weave_gate.Pages.{fallback_answer}
use weave_gate.Redirects.{VirtualHosts, get_real_root}
use weave_gate.Proxy.Forward.{ProxyState}
use weave_gate.Choice.{Disk, HandleOpts, file_name, pop}
use weave_gate.Listing.Download.{DirDownloadFmt, archive_reply}
use weave_gate.Statics.Files.{Files, file_reply}
use weave_gate.Statics
use weave_gate.Statics.{Reply, replied, failed, StaticFileResponse, served, refused}
use weave_gate.Charset
use weave_gate.Charset.{Mime}
use weave_gate.Compression
use weave_gate.Compression.{Coders, static_post_process}
use weave_gate.Markdown
use weave_gate.Listing.{Volume}
use weave_gate.Listing.Reading.{DirListFmt, Renderers, Page, made, auto_index}
use weave_gate.Finish.{FinishOpts, finish}
use weave_gate.Handler.{
  Services, HandlerOpts, Outcome, answered, to_static, error_page, handle_front,
}

-- what belongs to crates and to the system in the steps behind the proxy
pub record FileServices (L : Http) : Type 1 where
  pub disk : Disk
  pub volume : Volume
  pub renderers : Renderers
  pub coders : Coders L
  pub parse_mime : String → Option Mime
  pub decode : String → String
  pub accept : L.Headers → List (Option String)
  pub files : Files L disk.Meta
  pub archived : String → String → String

-- the options that these steps read
pub record FileOpts (L : Http) : Type 0 where
  pub root_dir : String
  pub virtual_hosts : Option (List VirtualHosts)
  pub index_files : List String
  pub dir_listing : Bool
  pub dir_listing_order : ℕ
  pub dir_listing_format : DirListFmt
  pub dir_listing_download : List DirDownloadFmt
  pub redirect_trailing_slash : Bool
  pub compression_static : Bool
  pub compression : Bool
  pub ignore_hidden_files : Bool
  pub disable_symlinks : Bool
  pub accept_markdown : Bool
  pub text_charset : Bool
  pub page_fallback : String
  pub finishing : FinishOpts L

module _ (L : Http) (o : Services L) (opts : HandlerOpts L) (f : FileServices L)
    (files : FileOpts L) where
  -- the root of the virtual host, or that of the server
  unfoldable pub base_path : Request L → String
  base_path req = unwrap_or (get_real_root L req files.virtual_hosts) files.root_dir

  -- `uri_path_md`
  unfoldable pub markdown_path : Request L → Option String
  markdown_path req =
      if files.accept_markdown
      then Markdown.pre_process f.disk f.coders.parse_quality (f.accept req.headers) (base_path req)
          (L.path req.uri)
      else none

  unfoldable pub handle_opts : Request L → HandleOpts
  handle_opts req = record {
    method = req.method;
    accept_encoding = f.coders.accept_encoding req.headers;
    uri_path = unwrap_or (markdown_path req) (L.path req.uri);
    uri_query = L.query req.uri;
    index_files = files.index_files;
    dir_listing = files.dir_listing;
    redirect_trailing_slash = files.redirect_trailing_slash;
    compression_static = files.compression_static;
    access = record {
      base_path = base_path req;
      disable_symlinks = files.disable_symlinks;
      ignore_hidden_files = files.ignore_hidden_files;
    };
  }

  unfoldable pub page_reply : Page L → Reply L
  page_reply (made resp) = replied resp
  page_reply (Page.failed status) = failed status

  -- the query asks for an archive
  unfoldable pub downloads : HandleOpts → Bool
  downloads h =
      not (is_nil files.dir_listing_download)
      && any (λ (p : String × String). p.0 == "download")
          (f.renderers.query_pairs (unwrap_or h.uri_query ""))

  -- the archive of the directory, under its name
  unfoldable pub download : HandleOpts → String → Reply L
  download h directory = elim (file_name directory) [
    | none ↦ failed 500
    | some name ↦ replied (archive_reply L f.archived h.method name directory)
  ]

  -- `directory_listing::auto_index`, with the options of `static_files::handle`
  unfoldable pub listing : HandleOpts → String → Reply L
  listing h filepath = page_reply (
      auto_index f.volume f.renderers
        (record {
          root_path = h.access.base_path;
          method = h.method;
          current_path = h.uri_path;
          uri_query = h.uri_query;
          dir_listing_order = files.dir_listing_order;
          dir_listing_format = files.dir_listing_format;
          ignore_hidden_files = files.ignore_hidden_files;
          disable_symlinks = files.disable_symlinks;
        })
        L filepath)

  unfoldable pub list_directory : HandleOpts → String → Reply L
  list_directory h filepath = if downloads h then download h (pop filepath) else listing h filepath

  unfoldable pub static_result : Request L → StaticFileResponse L
  static_result req =
      Statics.handle L f.disk f.coders.parse_quality f.decode list_directory
        (file_reply L f.files req.headers) (handle_opts req)

  -- the response for the static files, and the path of the file
  unfoldable pub static_response : Request L → StaticFileResponse L → Response L × Option String
  static_response req (served resp file_path) = (resp, some file_path)
  static_response req (refused status) = (error_page L o opts req status, none)

  -- the steps on the response
  unfoldable pub post_process : Request L → Bool → Response L × Option String → Response L
  post_process req is_markdown (resp, file_path) =
      let resp₁ = fallback_answer L files.page_fallback req resp in
      let resp₂ = Cors.post_process L o.method_of o.name_of opts.cors req resp₁ in
      let resp₃ = Markdown.post_process L is_markdown files.accept_markdown resp₂ in
      let resp₄ = Charset.post_process L f.parse_mime files.text_charset resp₃ in
      let resp₅ = static_post_process L files.compression_static resp₄ in
      let resp₆ = Compression.post_process L f.coders files.compression req resp₅ in
      finish L files.finishing req (and_then file_path file_name) resp₆

  unfoldable pub static_answer : Request L → Response L
  static_answer req =
      post_process req (is_some (markdown_path req)) (static_response req (static_result req))

  unfoldable pub finish_outcome : Outcome L × ProxyState L → Response L × ProxyState L
  finish_outcome (answered resp, s) = (resp, s)
  finish_outcome (to_static req, s) = (static_answer req, s)

  unfoldable pub handle : ProxyState L → Request L → Option String → Response L × ProxyState L
  handle s req remote_ip = finish_outcome (handle_front L o opts s req remote_ip)
