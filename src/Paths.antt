-- ===== src/Paths.antt =====
-- fs/path.rs and the checks of static_files.rs on the path that a request names, on Unix. A path is
-- its text; `components`, `push`, `strip_prefix` and `starts_with` are those of `std::path`, which
-- has no prefixes there. `decode` is the crate `percent_encoding`. The file system's
-- `canonicalize` and `symlink_metadata` are functions that give `none` where they fail.
pub mod Below
pub mod Granted
mod Tests
use Prim.Native.String.{◌++◌}
use weave_gate.Common.{
  ℕ, String, Bool, true, false, ◌&&◌, ◌||◌, Option, none, some, List, [], ◌∷◌, ◌==◌, any, all,
  and_then, is_some, if◌then◌else◌, ◌>>=◌, ◌>>◌,
}
use weave_gate.Common.Text.{split, is_empty, starts_with_char, ends_with_char, trim_start_matches}

pub data Component : Type 0 where
  root_dir cur_dir parent_dir : Component
  normal : String → Component

-- what a part between two slashes is, where it does not stand first
unfoldable pub part_component : String → Option Component
part_component part =
    if is_empty part || part == "."
    then none
    else if part == ".."
    then some parent_dir
    else some (normal part)

parts_components : List String → List Component
unfolding part_component
parts_components [] = []
parts_components (part ∷ parts) =
    let rest = parts_components parts in
    elim (part_component part) [ none ↦ rest | some c ↦ c ∷ rest ]

-- a dot counts only where it stands first
first_components : List String → List Component
unfolding parts_components
first_components [] = []
first_components (part ∷ parts) =
    if part == "." then cur_dir ∷ parts_components parts else parts_components (part ∷ parts)

-- `Path::components`
unfoldable pub components : String → List Component
unfolding first_components
components path =
    if starts_with_char b'/' path
    then root_dir ∷ parts_components (split b'/' path)
    else first_components (split b'/' path)

-- `PathBuf::push`
unfoldable pub push : String → String → String
push path part =
    if starts_with_char b'/' part
    then part
    else if is_empty path || ends_with_char b'/' path
    then path ++ part
    else path ++ ("/" ++ part)

abbrev pub is_normal : Component → Bool
is_normal (normal s) = true
is_normal root_dir = false
is_normal cur_dir = false
is_normal parent_dir = false

-- one round of the loop of `sanitize_path`
unfoldable pub push_component : String → Component → String
push_component full_path (normal comp) =
    if all is_normal (components comp) then push full_path comp else full_path
push_component full_path cur_dir = full_path
push_component full_path root_dir = full_path
push_component full_path parent_dir = full_path

unfoldable pub push_components : String → List Component → String
push_components full_path [] = full_path
push_components full_path (c ∷ cs) = push_components (push_component full_path c) cs

unfoldable pub sanitize_path : (String → String) → String → String → String
sanitize_path decode base tail =
    push_components base (components (decode (trim_start_matches b'/' tail)))

-- `is_hidden`, of the components of a path
unfoldable pub is_hidden : List Component → Bool
is_hidden = any (λ c. elim c [
  | normal s ↦ starts_with_char b'.' s
  | root_dir ↦ false
  | cur_dir ↦ false
  | parent_dir ↦ false
])

abbrev pub component_eq : Component → Component → Bool
component_eq root_dir root_dir = true
component_eq cur_dir cur_dir = true
component_eq parent_dir parent_dir = true
component_eq (normal s) (normal t) = s == t
component_eq _ _ = false

-- `strip_prefix`, on components
unfoldable pub strip_components : List Component → List Component → Option (List Component)
strip_components cs [] = some cs
strip_components [] (b ∷ bs) = none
strip_components (c ∷ cs) (b ∷ bs) =
    let rest = strip_components cs bs in if component_eq c b then rest else none

module _ (symlink_metadata : String → Option Bool) where
  -- `contains_symlink`: an error where a component's metadata cannot be read
  unfoldable pub contains_symlink : List Component → String → Option Bool
  contains_symlink [] current = some false
  contains_symlink (normal c ∷ cs) current =
      let next = push current c in
      let rest = contains_symlink cs next in
      and_then (symlink_metadata next) (λ is_symlink. if is_symlink then some true else rest)
  contains_symlink (root_dir ∷ cs) current = contains_symlink cs current
  contains_symlink (cur_dir ∷ cs) current = contains_symlink cs current
  contains_symlink (parent_dir ∷ cs) current = contains_symlink cs current

pub record AccessOpts : Type 0 where
  pub base_path : String
  pub disable_symlinks : Bool
  pub ignore_hidden_files : Bool

-- a status where the access is denied
pub data Access : Type 0 where
  granted : Access
  denied : ℕ → Access

module _ (canonicalize : String → Option String) (symlink_metadata : String → Option Bool) where
  -- the two optional checks
  unfoldable pub check_links : AccessOpts → List Component → Access
  check_links opts relative =
      if opts.disable_symlinks
      then elim (contains_symlink symlink_metadata relative opts.base_path) [
        | none ↦ denied 404
        | some true ↦ denied 403
        | some false ↦ granted
      ]
      else granted

  unfoldable pub check_hidden : AccessOpts → List Component → Access
  check_hidden opts relative =
      if opts.ignore_hidden_files && is_hidden relative then denied 404 else granted

  unfoldable pub then_check : Access → Access → Access
  then_check granted next = next
  then_check (denied status) next = denied status

  -- the resolved path must lie below the resolved base
  unfoldable pub check_resolved : Option String → Option String → Access
  check_resolved none base = denied 404
  check_resolved (some file) none = denied 404
  check_resolved (some file) (some base) =
      if is_some (strip_components (components file) (components base)) then granted else denied 404

  -- the checks of `static_files::handle` on a path (without the index file that was appended)
  unfoldable pub check_access : AccessOpts → String → Access
  check_access opts file_path =
      elim (strip_components (components file_path) (components opts.base_path)) [
        | none ↦ denied 404
        | some relative ↦
            then_check (check_resolved (canonicalize file_path) (canonicalize opts.base_path))
              (then_check (check_links opts relative) (check_hidden opts relative))
      ]
