-- ===== src/Statics/Served.antt =====
-- What stands behind a response for a static file.
use weave_gate.Common.{
  ℕ, String, ◌≡◌, ◌⊎◌, refl, true, Option, some, inl, inr, Bool-cases, Option-cases,
}
use weave_gate.Http.{Http, Response}
use weave_gate.Pages.{is_allowed}
use weave_gate.Paths.{sanitize_path, Access, granted, denied, check_access}
use weave_gate.Paths.Granted.{IsGranted, check_access-IsGranted}
use weave_gate.Choice.{Disk, FileMetadata, HandleOpts, get_composed_file_metadata}
use weave_gate.Statics.{
  Reply, replied, failed, served, served_as, reply, checked_path, handle_file, handle,
}

Access-cases : (a : Access) → (a ≡ granted) ⊎ ((n : ℕ) × (a ≡ denied n))
Access-cases granted = inl refl
Access-cases (denied n) = inr (n, refl)

module _ (L : Http) (D : Disk) (parse_quality : String → Option ℕ) (decode : String → String)
    (list_directory : HandleOpts → String → Reply L)
    (file_reply : String → D.Meta → Option String → Reply L) where
  abbrev asked_path : HandleOpts → String
  asked_path opts = sanitize_path decode opts.access.base_path opts.uri_path

  -- A file that the search found for the request's path, whose checked path was let through and
  -- whose reply is the response.
  pub record IsServed (opts : HandleOpts) (resp : Response L) (path : String) : Type 0 where
    pub found : FileMetadata D
    pub allowed : is_allowed opts.method ≡ true
    pub composed : get_composed_file_metadata D parse_quality opts (asked_path opts) ≡ some found
    pub named : found.file_path ≡ path
    pub answer : reply L D parse_quality decode list_directory file_reply opts found ≡ replied resp
    pub checked :
        IsGranted D.canonicalize D.symlink_metadata opts.access
          (checked_path L D parse_quality decode list_directory file_reply found)

  served_as-served :
      (path : String) (r : Reply L) (resp : Response L) (file : String)
      → served_as L D parse_quality decode list_directory file_reply path r ≡ served resp file
      → (path ≡ file) × (r ≡ replied resp)
  served_as-served path (replied resp') resp file h = (cc, cc)
  served_as-served path (failed n) resp file h = cc

  -- Every response of the static files, redirects and listings included, is for an allowed method
  -- and is the reply to what the search found for the sanitized path of the request; and the path
  -- of that file, or of its directory where it is the index file of one, passed the checks: it lies
  -- in the base when links are resolved, and it keeps to the options for links and hidden files.
  pub handle-IsServed :
      (opts : HandleOpts) (resp : Response L) (path : String)
      → handle L D parse_quality decode list_directory file_reply opts ≡ served resp path
      → IsServed opts resp path
  unfolding handle handle_file
  handle-IsServed opts resp path h = elim (Bool-cases (is_allowed opts.method)) [
    | inr e ↦ cc (rw (e, handle) at h)
    | inl e ↦
        elim (Option-cases (get_composed_file_metadata D parse_quality opts (asked_path opts))) [
          | inl n ↦ cc (rw (e, n, handle) at h)
          | inr (found, n) ↦
              elim (Access-cases (
                check_access D.canonicalize D.symlink_metadata opts.access
                  (checked_path L D parse_quality decode list_directory file_reply found))) [
                    | inr (s, a) ↦ cc (rw (e, n, handle, handle_file, a) at h)
                    | inl a ↦
                        let (named, answer) =
                          served_as-served found.file_path
                            (reply L D parse_quality decode list_directory file_reply opts found)
                            resp path (rw (e, n, handle, handle_file, a) at h) in
                        record {
                          found = found;
                          allowed = e;
                          composed = n;
                          named = named;
                          answer = answer;
                          checked =
                              check_access-IsGranted D.canonicalize D.symlink_metadata opts.access _
                                a;
                        }
                  ]
        ]
  ]
