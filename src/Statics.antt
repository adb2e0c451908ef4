-- ===== src/Statics.antt =====
-- static_files.rs, `handle`: the answer to a request for a file, with the checks of its path. The
-- listing of a directory and the reply with a file's bytes are functions that give a response or a
-- status.
pub mod Served
pub mod Files
pub mod Tests
use Prim.Native.String.{◌++◌}
use weave_gate.Common.{ℕ, String, not, ◌&&◌, Option, none, some, ◌==◌, is_some, if◌then◌else◌}
use weave_gate.Common.Text.{ends_with_char}
use weave_gate.Http.{Http, Response}
use weave_gate.Pages.{is_allowed}
use weave_gate.Paths.{sanitize_path, granted, denied, check_access}
use weave_gate.Encodings.{ContentCoding, as_str}
use weave_gate.Choice.{pop, Disk, FileMetadata, HandleOpts, get_composed_file_metadata}

-- a response, or a status as an error
pub data Reply (L : Http) : Type 0 where
  replied : Response L → Reply L
  failed : ℕ → Reply L

-- `StaticFileResponse`, or a status as an error
pub data StaticFileResponse (L : Http) : Type 0 where
  served : Response L → String → StaticFileResponse L
  refused : ℕ → StaticFileResponse L

module _ (L : Http) (D : Disk) (parse_quality : String → Option ℕ) (decode : String → String)
    (list_directory : HandleOpts → String → Reply L)
    (file_reply : String → D.Meta → Option String → Reply L) where
  abbrev pub served_as : String → Reply L → StaticFileResponse L
  served_as path (replied resp) = served resp path
  served_as path (failed status) = refused status

  abbrev pub query_text : Option String → String
  query_text none = ""
  query_text (some s) = "?" ++ s

  -- the redirect of a directory to its path with a slash
  unfoldable pub slash_redirect : HandleOpts → Reply L
  slash_redirect opts = elim (L.from_str (opts.uri_path ++ ("/" ++ query_text opts.uri_query))) [
    | none ↦ failed 500
    | some loc ↦
        replied (record { status = 308; headers = L.insert L.empty "location" loc; body = "" })
  ]

  unfoldable pub options_reply : Reply L
  options_reply = replied (record {
    status = 204;
    headers =
        L.insert (L.insert L.empty "allow" (L.from_static "OPTIONS, HEAD, GET")) "accept-ranges"
          (L.from_static "bytes");
    body = "";
  })

  -- the headers that tell how to decode a variant
  unfoldable pub with_encoding : ContentCoding → Reply L → Reply L
  with_encoding coding (failed status) = failed status
  with_encoding coding (replied resp) = elim (L.from_str (as_str coding)) [
    | none ↦ failed 500
    | some encoding ↦ replied (record {
      status = resp.status;
      headers = L.insert (L.remove resp.headers "content-length") "content-encoding" encoding;
      body = resp.body;
    })
  ]

  unfoldable pub variant_reply : FileMetadata D → Reply L
  variant_reply found = elim found.precompressed_variant [
    | none ↦ file_reply found.file_path found.metadata none
    | some v ↦ with_encoding v.1 (file_reply found.file_path found.metadata (some v.0))
  ]

  -- `handle` behind the checks
  unfoldable pub reply : HandleOpts → FileMetadata D → Reply L
  reply opts found =
      if found.is_dir && (opts.redirect_trailing_slash && not (ends_with_char b'/' opts.uri_path))
      then slash_redirect opts
      else if opts.method == "OPTIONS"
      then options_reply
      else if found.is_dir && (opts.dir_listing && not (is_some (D.metadata found.file_path)))
      then list_directory opts found.file_path
      else variant_reply found

  -- the path that is checked: of a directory, the one without the index file
  unfoldable pub checked_path : FileMetadata D → String
  checked_path found = if found.is_dir then pop found.file_path else found.file_path

  unfoldable pub handle_file : HandleOpts → FileMetadata D → StaticFileResponse L
  handle_file opts found =
      elim (check_access D.canonicalize D.symlink_metadata opts.access (checked_path found)) [
        | denied status ↦ refused status
        | granted ↦ served_as found.file_path (reply opts found)
      ]

  unfoldable pub handle : HandleOpts → StaticFileResponse L
  handle opts =
      if not (is_allowed opts.method)
      then refused 405
      else let path = sanitize_path decode opts.access.base_path opts.uri_path in
        elim (get_composed_file_metadata D parse_quality opts path) [
          | none ↦ refused 404
          | some found ↦ handle_file opts found
        ]
