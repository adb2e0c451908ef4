-- ===== src/Paths/Tests.antt =====
-- Runs of the paths.
use Prim.Native.String.{◌++◌}
use weave_gate.Common.{
  String, ◌≡◌, refl, Bool, true, false, Option, some, [], ◌∷◌, All, ◌==◌, if◌then◌else◌,
}
use weave_gate.Common.Text.{split, trim_start_matches}
use weave_gate.Paths.{
  cur_dir, normal, part_component, components, push, push_component, push_components, sanitize_path,
  is_hidden, strip_components, contains_symlink, AccessOpts, granted, denied, check_links,
  check_hidden, then_check, check_resolved, check_access,
}
use weave_gate.Paths.Below.{names, below, IsName, sanitize_path-IsName}

dotted : sanitize_path (λ s. s) "docker/public" "/../a/./b//c.html" ≡ "docker/public/a/b/c.html"
unfolding sanitize_path push_components push_component push components part_component split
    trim_start_matches
dotted = refl

leading_dot : components "./a/." ≡ cur_dir ∷ normal "a" ∷ []
unfolding components part_component split
leading_dot = refl

sanitize_path-IsName_example :
    let asked = names (components (trim_start_matches b'/' "/../a/./b//c.html")) in
    (sanitize_path (λ s. s) "docker/public" "/../a/./b//c.html" ≡ "docker/public" ++ below asked)
    × All IsName asked
sanitize_path-IsName_example =
    sanitize_path-IsName (λ s. s) "docker/public" "/../a/./b//c.html" (refl, refl)

abbrev strict : AccessOpts
strict = record { base_path = "/srv/www"; disable_symlinks = true; ignore_hidden_files = true }

-- a file system without links, in which every path is resolved
abbrev resolves : String → Option String
resolves path = some path

abbrev no_links : String → Option Bool
no_links path = some false

page_granted : check_access resolves no_links strict "/srv/www/a/b.html" ≡ granted
unfolding check_access strip_components components part_component split then_check check_resolved
    check_links contains_symlink check_hidden is_hidden push
page_granted = refl

hidden_denied : check_access resolves no_links strict "/srv/www/.git/config" ≡ denied 404
unfolding check_access strip_components components part_component split then_check check_resolved
    check_links contains_symlink check_hidden is_hidden push
hidden_denied = refl

-- a link out of the base
abbrev leads_out : String → Option String
leads_out path = if path == "/srv/www/link" then some "/etc/passwd" else some path

outside_denied : check_access leads_out no_links strict "/srv/www/link" ≡ denied 404
unfolding check_access strip_components components part_component split then_check check_resolved
    check_links contains_symlink check_hidden is_hidden push
outside_denied = refl
