-- ===== src/Finish/Names.antt =====
-- The headers of a finished response, name by name.
use Prim.Native.String.{◌++◌}
use weave_gate.Common.{
  String, ◌≡◌, refl, ap, ◌∙◌, Bool, true, false, Option, none, some, List, [], ◌∷◌, ◌==◌, any, leb,
  or_else, unwrap_or, if◌then◌else◌, arith,
}
use weave_gate.Common.Text.{decimal}
use weave_gate.Http.{Http, Request, Response}
use weave_gate.Proxy.Headers.Copied.{last_value}
use weave_gate.Finish.{
  cache_ext_one_hour, cache_ext_one_year, HeadersEntry, FinishOpts, max_age_for, get_max_age,
  get_file_extension, matched_path, append_cache_control, security_values, insert_each,
  append_security, append_custom, finish_headers, finish,
}

three_ages :
    (b c : Bool) → leb (if b then 3600 else if c then 31536000 else 86400) 4294967295 ≡ true
three_ages true c = refl
three_ages false true = refl
three_ages false false = refl

-- No age reaches the cap.
max_age-leb : (e : Option String) → leb (max_age_for e) 4294967295 ≡ true
unfolding max_age_for
max_age-leb none = refl
max_age-leb (some x) =
    three_ages (any (λ e. e == x) cache_ext_one_hour) (any (λ e. e == x) cache_ext_one_year)

module _ (L : Http) where
  -- the value of the last entry that matches the path and has this name
  abbrev pub custom_value : String → String → List (HeadersEntry L) → Option L.Value
  custom_value j path [] = none
  custom_value j path (e ∷ es) =
      or_else (custom_value j path es) (if e.source path then last_value j e.headers else none)

  get-insert_each :
      (pairs : List (String × L.Value)) (h : L.Headers) (j : String)
      → L.get (insert_each L pairs h) j ≡ or_else (last_value j pairs) (L.get h j)
  unfolding insert_each
  get-insert_each [] h j = refl
  get-insert_each ((k, v) ∷ pairs) h j =
      get-insert_each pairs (L.insert h k v) j ∙ ground (arith, L.get_insert h k v j)

  get-append_custom :
      (path : String) (es : List (HeadersEntry L)) (h : L.Headers) (j : String)
      → L.get (append_custom L path es h) j ≡ or_else (custom_value j path es) (L.get h j)
  unfolding append_custom
  get-append_custom path [] h j = refl
  get-append_custom path (e ∷ es) h j =
      let next = if e.source path then insert_each L e.headers h else h in
      get-append_custom path es next j ∙ ground (arith, get-insert_each e.headers h j)

  get-append_cache_control :
      (uri : String) (h : L.Headers) (j : String)
      → L.get (append_cache_control L uri h) j ≡ (
          if "cache-control" == j
          then some (L.from_static ("max-age=" ++ decimal (get_max_age uri)))
          else L.get h j)
  unfolding append_cache_control get_max_age
  get-append_cache_control uri h j =
      rw (append_cache_control, max_age-leb (get_file_extension uri))
        (L.get_insert h "cache-control" _ j)

  get-cached :
      (enabled : Bool) (uri : String) (h : L.Headers) (j : String)
      → L.get (if enabled then append_cache_control L uri h else h) j ≡ (
          if enabled
          then (if "cache-control" == j
              then some (L.from_static ("max-age=" ++ decimal (get_max_age uri)))
              else L.get h j)
          else L.get h j)
  get-cached true uri h j = get-append_cache_control uri h j
  get-cached false uri h j = refl

  get-secured :
      (enabled : Bool) (h : L.Headers) (j : String)
      → L.get (if enabled then append_security L h else h) j
        ≡ or_else (if enabled then last_value j (security_values L) else none) (L.get h j)
  unfolding append_security
  get-secured true h j = get-insert_each (security_values L) h j
  get-secured false h j = refl

  -- A finished response has under each name the value of the last configured entry that matches; if
  -- there is none, the security header of that name, if they are enabled; or else `Cache-Control`,
  -- if that is enabled, with the age for the path's extension; or else what it had.
  pub get-finish :
      (opts : FinishOpts L) (req : Request L) (file_name : Option String) (resp : Response L)
      (j : String)
      → L.get (finish L opts req file_name resp).headers j
        ≡ or_else
            (custom_value j
              (matched_path (L.path req.uri) file_name opts.redirect_trailing_slash)
              (unwrap_or opts.headers []))
            (or_else (if opts.security_headers then last_value j (security_values L) else none) (
              if opts.cache_control_headers
              then (if "cache-control" == j
                  then some (L.from_static ("max-age=" ++ decimal (get_max_age (L.path req.uri))))
                  else L.get resp.headers j)
              else L.get resp.headers j))
  unfolding finish finish_headers
  get-finish opts req file_name resp j =
      let uri = L.path req.uri in
      let cached =
        if opts.cache_control_headers
        then append_cache_control L uri resp.headers
        else resp.headers in
      let secured = if opts.security_headers then append_security L cached else cached in
      let path = matched_path uri file_name opts.redirect_trailing_slash in
      let entries = unwrap_or opts.headers [] in
      let set = if opts.security_headers then last_value j (security_values L) else none in
      get-append_custom path entries secured j
      ∙ ap (or_else (custom_value j path entries)) (
          get-secured opts.security_headers cached j
          ∙ ap (or_else set) (get-cached opts.cache_control_headers uri resp.headers j))
