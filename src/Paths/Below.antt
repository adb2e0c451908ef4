-- ===== src/Paths/Below.antt =====
-- Where a sanitized path lies.
use Prim.Native.Char.{Char}
use Prim.Native.String.{◌++◌}
use text.Mathlib.TextLemmas.{nil-append, cons-append, append-nil, append_assoc}
use weave_gate.Common.{
  ℕ, String, ◌≡◌, refl, sym, ap, ◌∙◌, false, Option, none, some, List, [], ◌∷◌, ◌==◌, All, inl, inr,
  Bool-cases, arith,
}
use weave_gate.Common.Text.{
  split, is_empty, is_char, count_char, starts_with_char, ends_with_char, trim_start_matches,
}
use weave_gate.Paths.{
  Component, root_dir, cur_dir, parent_dir, normal, part_component, parts_components,
  first_components, components, push, push_component, push_components, sanitize_path,
}

-- A single name: not empty, not `.` or `..`, and without a slash.
pub record IsName (s : String) : Type 0 where
  pub filled : is_empty s ≡ false
  pub not_dot : (s == ".") ≡ false
  pub not_dots : (s == "..") ≡ false
  pub no_slash : count_char b'/' s ≡ 0

-- the count of a character that does not stand first
count_behind :
    (n : ℕ) (c : Char) (s : String)
    → is_char n c ≡ false
    → count_char n (String.◌∷◌ c s) ≡ count_char n s
unfolding count_char
count_behind n c s e = rw e (omega arith)

split_parts : (n : ℕ) (s : String) → All (λ p. count_char n p ≡ 0) (split n s)
unfolding split count_char
split_parts n String.[] = (refl, tt)
split_parts n (String.◌∷◌ c s) = elim (Bool-cases (is_char n c)) [
  | inl e ↦ rw e (refl, split_parts n s)
  | inr e ↦ rw e (go e (split n s) (split_parts n s))
]
  where
    go :
        is_char n c ≡ false
        → (l : List String) → All (λ p. count_char n p ≡ 0) l
        → All
            (λ p. count_char n p ≡ 0)
            (elim l [ [] ↦ String.◌∷◌ c String.[] ∷ [] | p ∷ ps ↦ String.◌∷◌ c p ∷ ps ])
    go e [] h = (count_behind n c String.[] e, tt)
    go e (p ∷ ps) (h, hs) = (count_behind n c p e ∙ h, hs)

split_name : (n : ℕ) (s : String) → count_char n s ≡ 0 → split n s ≡ s ∷ []
unfolding split count_char
split_name n String.[] h = refl
split_name n (String.◌∷◌ c s) h = elim (Bool-cases (is_char n c)) [
  | inl e ↦ absurd (ground (arith, h, e))
  | inr e ↦ rw (e, split_name n s (sym (count_behind n c s e) ∙ h)) refl
]

part_name : (s : String) → IsName s → part_component s ≡ some (normal s)
unfolding part_component
part_name s v = rw (v.filled, v.not_dot, v.not_dots) refl

one_part : (s : String) → IsName s → parts_components (s ∷ []) ≡ normal s ∷ []
unfolding parts_components
one_part s v = rw (parts_components, part_name s v) refl

first_name : (s : String) → IsName s → first_components (s ∷ []) ≡ normal s ∷ []
unfolding first_components
first_name s v = rw v.not_dot (one_part s v)

no_first_slash : (s : String) → count_char b'/' s ≡ 0 → starts_with_char b'/' s ≡ false
unfolding count_char
no_first_slash String.[] h = refl
no_first_slash (String.◌∷◌ c s) h = elim (Bool-cases (is_char b'/' c)) [
  | inl e ↦ absurd (ground (arith, h, e))
  | inr e ↦ e
]

-- A name is its own only component.
components_name : (s : String) → IsName s → components s ≡ normal s ∷ []
unfolding components
components_name s v =
    rw (no_first_slash s v.no_slash, split_name b'/' s v.no_slash) (first_name s v)

-- the names among components
abbrev pub names : List Component → List String
names [] = []
names (normal s ∷ cs) = s ∷ names cs
names (root_dir ∷ cs) = names cs
names (cur_dir ∷ cs) = names cs
names (parent_dir ∷ cs) = names cs

-- A part without a slash is nothing, a step up, or a name.
part_cases :
    (s : String)
    → count_char b'/' s ≡ 0
    → All IsName (names (elim (part_component s) [ none ↦ [] | some c ↦ c ∷ [] ]))
unfolding part_component
part_cases s h = elim (Bool-cases (is_empty s)) [
  | inl e ↦ rw e tt
  | inr e ↦ elim (Bool-cases (s == ".")) [
    | inl f ↦ rw (e, f) tt
    | inr f ↦ elim (Bool-cases (s == "..")) [
      | inl g ↦ rw (e, f, g) tt
      | inr g ↦ rw (e, f, g) (record { filled = e; not_dot = f; not_dots = g; no_slash = h }, tt)
    ]
  ]
]

parts_components-IsName :
    (parts : List String)
    → All (λ p. count_char b'/' p ≡ 0) parts
    → All IsName (names (parts_components parts))
unfolding parts_components
parts_components-IsName [] h = tt
parts_components-IsName (p ∷ ps) (h, hs) =
    go (part_component p) (part_cases p h) (parts_components-IsName ps hs)
  where
    go :
        (o : Option Component)
        → All IsName (names (elim o [ none ↦ [] | some c ↦ c ∷ [] ]))
        → All IsName (names (parts_components ps))
        → All IsName
            (names (elim o [ none ↦ parts_components ps | some c ↦ c ∷ parts_components ps ]))
    go none v vs = vs
    go (some (normal s)) (v, _) vs = (v, vs)
    go (some root_dir) v vs = vs
    go (some cur_dir) v vs = vs
    go (some parent_dir) v vs = vs

components-IsName : (path : String) → All IsName (names (components path))
unfolding components first_components
components-IsName path = elim (Bool-cases (starts_with_char b'/' path)) [
  | inl e ↦ rw e (parts_components-IsName (split b'/' path) (split_parts b'/' path))
  | inr e ↦ rw e (go (split b'/' path) (split_parts b'/' path))
]
  where
    go :
        (parts : List String)
        → All (λ p. count_char b'/' p ≡ 0) parts
        → All IsName (names (first_components parts))
    go [] h = tt
    go (p ∷ ps) (h, hs) = elim (Bool-cases (p == ".")) [
      | inl e ↦ rw e (parts_components-IsName ps hs)
      | inr e ↦ rw e (parts_components-IsName (p ∷ ps) (h, hs))
    ]

-- the text of names below a directory
abbrev pub below : List String → String
below [] = ""
below (s ∷ ss) = "/" ++ (s ++ below ss)

-- a directory's text, to which a slash and a name can be added
abbrev pub IsDirectory : String → Type 0
IsDirectory base = (is_empty base ≡ false) × (ends_with_char b'/' base ≡ false)

push_name : (base s : String) → IsDirectory base → IsName s → push base s ≡ base ++ ("/" ++ s)
unfolding push
push_name base s (filled, open_end) v = rw (no_first_slash s v.no_slash, filled, open_end) refl

ends_with-append :
    (n : ℕ) (a b : String) → is_empty b ≡ false → ends_with_char n (a ++ b) ≡ ends_with_char n b
ends_with-append n String.[] b h = rw nil-append refl
ends_with-append n (String.◌∷◌ c String.[]) String.[] h = absurd (ground (arith, h))
ends_with-append n (String.◌∷◌ c String.[]) (String.◌∷◌ d b) h = rw (cons-append, nil-append) refl
ends_with-append n (String.◌∷◌ c (String.◌∷◌ d a)) b h =
    rw (cons-append, cons-append) (rw cons-append at (ends_with-append n (String.◌∷◌ d a) b h))

name_end : (s : String) → count_char b'/' s ≡ 0 → ends_with_char b'/' s ≡ false
unfolding count_char
name_end String.[] h = refl
name_end (String.◌∷◌ c String.[]) h = no_first_slash (String.◌∷◌ c String.[]) h
name_end (String.◌∷◌ c (String.◌∷◌ d s)) h = name_end (String.◌∷◌ d s) (omega (arith, h))

is_empty-append : (a b : String) → is_empty a ≡ false → is_empty (a ++ b) ≡ false
is_empty-append String.[] b h = absurd (ground (arith, h))
is_empty-append (String.◌∷◌ c a) b h = rw cons-append refl

pushed-IsDirectory :
    (base s : String) → IsDirectory base → IsName s → IsDirectory (base ++ ("/" ++ s))
pushed-IsDirectory base s (filled, open_end) v = (
  is_empty-append base ("/" ++ s) filled,
  ends_with-append b'/' base ("/" ++ s) (is_empty-append "/" s refl)
      ∙ (ends_with-append b'/' "/" s v.filled ∙ name_end s v.no_slash),
)

-- Pushing components adds their names below the directory.
push_components-eq-below :
    (base : String) (cs : List Component)
    → IsDirectory base
    → All IsName (names cs)
    → push_components base cs ≡ base ++ below (names cs)
unfolding push_components push_component
push_components-eq-below base [] d h = sym (append-nil base)
push_components-eq-below base (root_dir ∷ cs) d h = push_components-eq-below base cs d h
push_components-eq-below base (cur_dir ∷ cs) d h = push_components-eq-below base cs d h
push_components-eq-below base (parent_dir ∷ cs) d h = push_components-eq-below base cs d h
push_components-eq-below base (normal s ∷ cs) d (v, h) =
    rw (components_name s v, push_name base s d v)
      (push_components-eq-below (base ++ ("/" ++ s)) cs (pushed-IsDirectory base s d v) h
        ∙ (append_assoc base ("/" ++ s) (below (names cs))
            ∙ ap (◌++◌ base) (append_assoc "/" s (below (names cs)))))

-- Under a base directory whose text is not empty and does not end with a slash: whatever a
-- request's path is and however it is encoded, the path that is looked up is the base's text and
-- behind it, each after a slash, the names of the decoded path in their order, none of which is
-- empty, `.` or `..` or holds a slash.
pub sanitize_path-IsName :
    (decode : String → String) (base tail : String)
    → IsDirectory base
    → let asked = names (components (decode (trim_start_matches b'/' tail))) in
      (sanitize_path decode base tail ≡ base ++ below asked) × All IsName asked
unfolding sanitize_path
sanitize_path-IsName decode base tail d =
    let cs = components (decode (trim_start_matches b'/' tail)) in
    let v = components-IsName (decode (trim_start_matches b'/' tail)) in
    (push_components-eq-below base cs d v, v)
