-- ===== src/Handler/Answering/Tests.antt =====
-- Runs of the whole handler.
use weave_gate.Common.{◌≡◌, ◌⊎◌, refl, true, false, none, [], ◌∷◌}
use weave_gate.Http.{Request, first_value}
use weave_gate.Http.Assoc.{assoc}
use weave_gate.Charset.Tests.{parse_mime}
use weave_gate.Compression.Tests.{coders}
use weave_gate.Listing.Reading.{html}
use weave_gate.Listing.Tests.{volume, plain}
use weave_gate.Statics.Tests.{disk}
use weave_gate.Statics.Files.Tests.{site}
use weave_gate.Handler.{answered, handle_front, redirects_then}
use weave_gate.Handler.Tests.{services, static_opts, idle}
use weave_gate.Handler.Answering.{FileServices, FileOpts, handle}
use weave_gate.Handler.Answering.Reached.{IsStaticAnswer, handle-cases}

abbrev pub file_services : FileServices assoc
file_services = record {
  disk = disk;
  volume = volume;
  renderers = plain;
  coders = coders;
  parse_mime = parse_mime;
  decode = λ s. s;
  accept = λ h. [];
  files = site;
  archived = λ path src_path. "";
}

abbrev file_opts : FileOpts assoc
file_opts = record {
  root_dir = "/srv/www";
  virtual_hosts = none;
  index_files = [];
  dir_listing = false;
  dir_listing_order = 0;
  dir_listing_format = html;
  dir_listing_download = [];
  redirect_trailing_slash = true;
  compression_static = true;
  compression = true;
  ignore_hidden_files = true;
  disable_symlinks = true;
  accept_markdown = true;
  text_charset = true;
  page_fallback = "";
  finishing = record {
    cache_control_headers = false;
    security_headers = false;
    headers = none;
    redirect_trailing_slash = true;
  };
}

abbrev pub docs : Request assoc
docs = record {
  method = "GET";
  uri = record {
    scheme = none;
    authority = none;
    host = none;
    port = none;
    path = "/docs/";
    query = none;
  };
  headers = ("accept-encoding", "gzip") ∷ [];
  body = "";
}

docs_answered : handle assoc services static_opts file_services file_opts idle docs none ≡ (
  record {
    status = 200;
    headers =
        ("vary", "accept-encoding")
        ∷ ("content-type", "text/html; charset=utf-8")
        ∷ ("content-encoding", "gzip")
        ∷ ("last-modified", "100")
        ∷ ("accept-ranges", "bytes")
        ∷ [];
    body = "1";
  },
  idle,
)
unfolding weave_gate.Handler.Answering.handle weave_gate.Handler.Answering.base_path
    weave_gate.Handler.Answering.markdown_path weave_gate.Handler.Answering.handle_opts
    weave_gate.Handler.Answering.page_reply weave_gate.Handler.Answering.list_directory
    weave_gate.Handler.Answering.static_result weave_gate.Handler.Answering.static_response
    weave_gate.Handler.Answering.post_process weave_gate.Handler.Answering.static_answer
    weave_gate.Handler.Answering.finish_outcome weave_gate.Handler.handle_front
    weave_gate.Handler.checks weave_gate.Handler.method_answer weave_gate.Handler.cors_answer
    weave_gate.Handler.basic_auth_answer weave_gate.Handler.maintenance_answer
    weave_gate.Pages.is_allowed weave_gate.Pages.health_answer weave_gate.Pages.metrics_answer
    weave_gate.Cors.rejects weave_gate.Handler.early_proxy weave_gate.Handler.try_reverse_proxy
    weave_gate.Proxy.Forward.pre_process weave_gate.Proxy.Matching.find_rule
    weave_gate.Handler.after_early_proxy weave_gate.Redirects.redirects_answer
    weave_gate.Handler.redirects_then weave_gate.Redirects.rewrites_answer
    weave_gate.Redirects.rewrite_uri_path weave_gate.Redirects.rewrite_with
    weave_gate.Redirects.rewrite_by weave_gate.Redirects.answer_or_go_on
    weave_gate.Redirects.rewrite_request weave_gate.Redirects.replace_placeholders
    weave_gate.Redirects.merge_uris weave_gate.Redirects.keep_query weave_gate.Redirects.rewritten
    weave_gate.Redirects.host_of weave_gate.Handler.after_rewrites weave_gate.Handler.late_proxy
    weave_gate.Common.Text.strip_prefix weave_gate.Common.Text.split_once
    weave_gate.Http.Assoc.parse weave_gate.Http.Assoc.whole_path weave_gate.Statics.handle
    weave_gate.Statics.handle_file weave_gate.Statics.reply weave_gate.Statics.variant_reply
    weave_gate.Statics.checked_path weave_gate.Choice.get_composed_file_metadata
    weave_gate.Choice.directory_metadata weave_gate.Choice.directory_found
    weave_gate.Choice.search_index weave_gate.Choice.with_variant weave_gate.Choice.variant_at
    weave_gate.Choice.try_metadata_with_html_suffix weave_gate.Choice.pop
    weave_gate.Choice.file_name weave_gate.Choice.set_file_name weave_gate.Choice.last_parts
    weave_gate.Choice.front_text weave_gate.Choice.drop_blank weave_gate.Common.Text.split
    weave_gate.Common.Text.join weave_gate.Paths.push weave_gate.Paths.sanitize_path
    weave_gate.Paths.push_components weave_gate.Paths.push_component weave_gate.Paths.components
    weave_gate.Paths.part_component weave_gate.Common.Text.trim_start_matches
    weave_gate.Paths.check_access weave_gate.Paths.check_links weave_gate.Paths.check_hidden
    weave_gate.Paths.check_resolved weave_gate.Paths.then_check weave_gate.Paths.strip_components
    weave_gate.Paths.contains_symlink weave_gate.Paths.is_hidden
    weave_gate.Encodings.precompressed_variant weave_gate.Compression.post_process
    weave_gate.Http.first_value weave_gate.Compression.auto
    weave_gate.Encodings.get_preferred_encoding weave_gate.Encodings.first_available
    weave_gate.Encodings.sorted_metas weave_gate.Common.Sort.sort_by weave_gate.Encodings.metas
    weave_gate.Encodings.joined weave_gate.Encodings.coding_from weave_gate.Encodings.from_str
    weave_gate.Encodings.quality_meta weave_gate.Common.Text.trim weave_gate.Compression.skips_type
    weave_gate.Compression.encoded weave_gate.Compression.with_vary
    weave_gate.Compression.create_encoding_header weave_gate.Http.Assoc.drop_name
    weave_gate.Compression.vary weave_gate.Charset.has_text_suffix
    weave_gate.Charset.is_compressible weave_gate.Charset.is_text weave_gate.Common.Text.contains
    weave_gate.Common.Text.trim_end weave_gate.Common.Text.trim_start weave_gate.Compression.text_of
    weave_gate.Compression.vary_text weave_gate.Encodings.quality_from
    weave_gate.Encodings.quality_step weave_gate.Charset.post_process weave_gate.Charset.new_header
    weave_gate.Charset.charset_text weave_gate.Charset.wants_charset
    weave_gate.Charset.contains_text_only weave_gate.Charset.with_charset
    weave_gate.Common.Text.trim_end_matches weave_gate.Pages.fallback_answer
    weave_gate.Cors.post_process weave_gate.Markdown.post_process weave_gate.Markdown.pre_process
    weave_gate.Markdown.accepts_markdown weave_gate.Markdown.accepts
    weave_gate.Compression.static_post_process weave_gate.Compression.static_vary
    weave_gate.Finish.finish weave_gate.Finish.finish_headers weave_gate.Finish.append_custom
    weave_gate.Redirects.get_real_root weave_gate.Finish.matched_path
    weave_gate.Common.Text.eq_ignore_ascii_case weave_gate.Encodings.first_variant
    weave_gate.Encodings.variant_for weave_gate.Encodings.variant_path
    weave_gate.Statics.with_encoding weave_gate.Statics.Files.file_reply
    weave_gate.Statics.Files.as_reply weave_gate.Ranges.response_body weave_gate.Ranges.check
    weave_gate.Ranges.fails_unmodified weave_gate.Statics.Files.new_conditionals
    weave_gate.Ranges.is_unmodified weave_gate.Ranges.answer_body weave_gate.Ranges.bytes_range
    weave_gate.Ranges.range_for weave_gate.Ranges.answer_range weave_gate.Statics.Files.header_map
    weave_gate.Statics.Files.insert_some weave_gate.Statics.Files.modified_of
    weave_gate.Common.Text.decimal
docs_answered = refl

handle-cases_example :
    let (resp, s') = handle assoc services static_opts file_services file_opts idle docs none in
    (handle_front assoc services static_opts idle docs none ≡ (answered resp, s'))
    ⊎ IsStaticAnswer assoc services static_opts file_services file_opts docs resp
handle-cases_example =
    handle-cases assoc services static_opts file_services file_opts idle docs none
