-- ===== src/Paths/Granted.antt =====
-- What the checks on a path promise of one that they let through.
use mathlib.Core.Path.{ap₂}
use weave_gate.Common.{
  String, ◌≡◌, ◌⊎◌, refl, ap, Bool, true, false, Option, none, some, List, [], ◌∷◌, ◌++◌, eq_iff,
  All, inl, inr, Bool-cases, Option-cases, arith,
}
use weave_gate.Common.Pairs.{some_inj}
use weave_gate.Common.Text.{starts_with_char}
use weave_gate.Paths.{
  Component, root_dir, cur_dir, parent_dir, normal, components, push, is_hidden, component_eq,
  strip_components, contains_symlink, AccessOpts, Access, granted, denied, check_links,
  check_hidden, then_check, check_resolved, check_access,
}
use weave_gate.Paths.Below.{names}

component_eq_sound : (c b : Component) → component_eq c b ≡ true → c ≡ b
component_eq_sound root_dir root_dir h = refl
component_eq_sound cur_dir cur_dir h = refl
component_eq_sound parent_dir parent_dir h = refl
component_eq_sound (normal s) (normal t) h = ap normal ((eq_iff s t).0 h)
component_eq_sound c b h = cc

pub strip_components_sound :
    (cs bs rest : List Component) → strip_components cs bs ≡ some rest → cs ≡ bs ++ rest
unfolding strip_components
strip_components_sound cs [] rest h = some_inj h
strip_components_sound [] (b ∷ bs) rest h = cc
strip_components_sound (c ∷ cs) (b ∷ bs) rest h = elim (Bool-cases (component_eq c b)) [
  | inl e ↦ ap₂ ◌∷◌ (component_eq_sound c b e) (strip_components_sound cs bs rest (rw e at h))
  | inr e ↦ cc (rw e at h)
]

hidden_names :
    (cs : List Component)
    → is_hidden cs ≡ false
    → All (λ s. starts_with_char b'.' s ≡ false) (names cs)
unfolding is_hidden
hidden_names [] h = tt
hidden_names (normal s ∷ cs) h = (ground (arith, h), hidden_names cs (ground (arith, h)))
hidden_names (root_dir ∷ cs) h = hidden_names cs h
hidden_names (cur_dir ∷ cs) h = hidden_names cs h
hidden_names (parent_dir ∷ cs) h = hidden_names cs h

module _ (canonicalize : String → Option String) (symlink_metadata : String → Option Bool) where
  -- No directory or file on the way from `current` is a symbolic link.
  pub NoLinks : List Component → String → Type 0
  NoLinks [] current = Unit
  NoLinks (normal c ∷ cs) current =
      (symlink_metadata (push current c) ≡ some false) × NoLinks cs (push current c)
  NoLinks (root_dir ∷ cs) current = NoLinks cs current
  NoLinks (cur_dir ∷ cs) current = NoLinks cs current
  NoLinks (parent_dir ∷ cs) current = NoLinks cs current

  contains_symlink-NoLinks :
      (cs : List Component) (current : String)
      → contains_symlink symlink_metadata cs current ≡ some false
      → NoLinks cs current
  unfolding contains_symlink NoLinks
  contains_symlink-NoLinks [] current h = tt
  contains_symlink-NoLinks (normal c ∷ cs) current h =
      elim (Option-cases (symlink_metadata (push current c))) [
        | inl e ↦ cc (rw e at h)
        | inr (true, e) ↦ cc (rw e at h)
        | inr (false, e) ↦ (e, contains_symlink-NoLinks cs (push current c) (rw e at h))
      ]
  contains_symlink-NoLinks (root_dir ∷ cs) current h = contains_symlink-NoLinks cs current h
  contains_symlink-NoLinks (cur_dir ∷ cs) current h = contains_symlink-NoLinks cs current h
  contains_symlink-NoLinks (parent_dir ∷ cs) current h = contains_symlink-NoLinks cs current h

  -- What a path that is let through is: below the base by its text and when both are resolved; and,
  -- as far as the options ask for it, reached without symbolic links and without hidden names.
  pub record IsGranted (opts : AccessOpts) (file_path : String) : Type 0 where
    pub relative : List Component
    pub file : String
    pub base : String
    pub rest : List Component
    pub by_text : components file_path ≡ components opts.base_path ++ relative
    pub file_resolved : canonicalize file_path ≡ some file
    pub base_resolved : canonicalize opts.base_path ≡ some base
    pub inside : components file ≡ components base ++ rest
    pub links : (opts.disable_symlinks ≡ false) ⊎ NoLinks relative opts.base_path
    pub shown :
        (opts.ignore_hidden_files ≡ false)
        ⊎ All (λ s. starts_with_char b'.' s ≡ false) (names relative)

  then_check-granted :
      (a b : Access)
      → then_check canonicalize symlink_metadata a b ≡ granted
      → (a ≡ granted) × (b ≡ granted)
  unfolding then_check
  then_check-granted granted b h = (refl, h)
  then_check-granted (denied n) b h = cc

  check_links-granted :
      (opts : AccessOpts) (relative : List Component)
      → check_links canonicalize symlink_metadata opts relative ≡ granted
      → (opts.disable_symlinks ≡ false) ⊎ NoLinks relative opts.base_path
  unfolding check_links
  check_links-granted opts relative h = elim (Bool-cases opts.disable_symlinks) [
    | inr e ↦ inl e
    | inl e ↦ elim (Option-cases (contains_symlink symlink_metadata relative opts.base_path)) [
      | inl n ↦ cc (rw (e, n, check_links) at h)
      | inr (true, n) ↦ cc (rw (e, n, check_links) at h)
      | inr (false, n) ↦ inr (contains_symlink-NoLinks relative opts.base_path n)
    ]
  ]

  check_hidden-granted :
      (opts : AccessOpts) (relative : List Component)
      → check_hidden canonicalize symlink_metadata opts relative ≡ granted
      → (opts.ignore_hidden_files ≡ false)
        ⊎ All (λ s. starts_with_char b'.' s ≡ false) (names relative)
  unfolding check_hidden
  check_hidden-granted opts relative h = elim (Bool-cases opts.ignore_hidden_files) [
    | inr e ↦ inl e
    | inl e ↦ elim (Bool-cases (is_hidden relative)) [
      | inl f ↦ cc (rw (e, f, check_hidden) at h)
      | inr f ↦ inr (hidden_names relative f)
    ]
  ]

  check_resolved-granted :
      (o b : Option String)
      → check_resolved canonicalize symlink_metadata o b ≡ granted
      → (file : String) × (base : String) × (rest : List Component) × (o ≡ some file)
        × (b ≡ some base)
        × (components file ≡ components base ++ rest)
  unfolding check_resolved
  check_resolved-granted none b h = cc
  check_resolved-granted (some file) none h = cc
  check_resolved-granted (some file) (some base) h =
      elim (Option-cases (strip_components (components file) (components base))) [
        | inl e ↦ cc (rw (e, check_resolved) at h)
        | inr (rest, e) ↦ (file, base, rest, refl, refl, strip_components_sound _ _ rest e)
      ]

  -- A path that the checks let through lies below the base, by its text and after both have been
  -- resolved by the file system, so that no link leads out of it. If symbolic links are disabled,
  -- there is none on the way to it; if hidden files are ignored, none of its names begins with a dot.
  pub check_access-IsGranted :
      (opts : AccessOpts) (file_path : String)
      → check_access canonicalize symlink_metadata opts file_path ≡ granted
      → IsGranted opts file_path
  unfolding check_access
  check_access-IsGranted opts file_path h =
      elim (Option-cases (strip_components (components file_path) (components opts.base_path))) [
        | inl e ↦ cc (rw (e, check_access) at h)
        | inr (relative, e) ↦
            let (resolved, more) = then_check-granted _ _ (rw (e, check_access) at h) in
            let (linked, hidden) = then_check-granted _ _ more in
            let (file, base, rest, f, b, inside) = check_resolved-granted _ _ resolved in
            record {
              relative = relative;
              file = file;
              base = base;
              rest = rest;
              by_text = strip_components_sound _ _ relative e;
              file_resolved = f;
              base_resolved = b;
              inside = inside;
              links = check_links-granted opts relative linked;
              shown = check_hidden-granted opts relative hidden;
            }
      ]
