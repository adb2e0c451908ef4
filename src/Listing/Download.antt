-- ===== src/Listing/Download.antt =====
-- directory_listing_download.rs: the reply with the archive of a directory, whose bytes are a
-- parameter here. Listing/Download/Archive is what the archive holds.
pub mod Archive
use Prim.Native.String.{◌++◌}
use weave_gate.Common.{String, none, some, ◌==◌, if◌then◌else◌}
use weave_gate.Common.Text.{is_empty, rsplit_once}
use weave_gate.Http.{Http, Response}

pub data DirDownloadFmt : Type 0 where
  targz : DirDownloadFmt

-- `Path::with_extension`, of the name of a file
unfoldable pub with_extension : String → String → String
with_extension name extension = elim (rsplit_once b'.' name) [
  | none ↦ name ++ ("." ++ extension)
  | some (stem, _) ↦
      if is_empty stem then name ++ ("." ++ extension) else stem ++ ("." ++ extension)
]

module _ (L : Http) (archived : String → String → String) where
  -- the name in the answer, where it can be a header value
  unfoldable pub disposition : String → L.Headers → L.Headers
  disposition archive_name headers =
      elim (L.from_str ("attachment; filename=\"" ++ (archive_name ++ "\""))) [
        | none ↦ headers
        | some value ↦ L.insert headers "content-disposition" value
      ]

  -- `archived` gives the bytes of the archive
  unfoldable pub archive_reply : String → String → String → Response L
  archive_reply method path src_path = record {
    status = 200;
    headers =
        disposition (with_extension path "tar.gz")
          (L.insert L.empty "content-type" (L.from_static "application/gzip"));
    body = if method == "HEAD" then "" else archived path src_path;
  }
