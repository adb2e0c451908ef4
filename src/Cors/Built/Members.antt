-- ===== src/Cors/Built/Members.antt =====
-- What a configured check allows.
use weave_gate.Common.{
  String, ◌≡◌, ◌⊎◌, inl, inr, refl, sym, ◌∙◌, Bool, true, false, ◌||◌, Option, none, some, List, [],
  ◌∷◌, ◌++◌, ◌==◌, eq_iff, any, map, Bool-cases, Option-cases, arith, subst,
}
use weave_gate.Common.Pairs.{some_inj, Pairs, none_left, pair}
use weave_gate.Common.Text.{split, trim, is_empty}
use weave_gate.Http.{Http}
use weave_gate.Cors.{Cors, Configured}
use weave_gate.Cors.Built.{
  Build, built, name_parts, add_member, extend, map_all, into_origin, name_set, build, origin_set,
  new_cors, new,
}

-- The text is in the list.
abbrev pub member : String → List String → Bool
member n set = any (λ m. m == n) set

or_false_right : (b : Bool) → (b || false) ≡ b
or_false_right true = refl
or_false_right false = refl

or_true : (b : Bool) → (b || true) ≡ true
or_true true = refl
or_true false = refl

or_false : (b c : Bool) → (b || (c || false)) ≡ (b || c)
or_false b true = refl
or_false b false = refl

member-append :
    (n : String) (xs ys : List String) → member n (xs ++ ys) ≡ (member n xs || member n ys)
member-append n [] ys = refl
member-append n (x ∷ xs) ys = ground (arith, member-append n xs ys)

member-add_member :
    (n k : String) (set : List String) → member n (add_member set k) ≡ (member n set || k == n)
unfolding add_member
member-add_member n k set = elim (Bool-cases (member k set)) [
  | inr e ↦ rw (add_member, e) (member-append n set (k ∷ []) ∙ or_false (member n set) (k == n))
  | inl e ↦ elim (Bool-cases (k == n)) [
    | inr d ↦ rw (add_member, e, d) (sym (or_false_right (member n set)))
    | inl d ↦
        let same : member n set ≡ true = rw ((eq_iff k n).0 d) at e in
        rw (add_member, e, d) (same ∙ sym (or_true (member n set)))
  ]
]

member-extend :
    (n : String) (set ns : List String) → member n (extend set ns) ≡ (member n set || member n ns)
unfolding extend
member-extend n set [] = sym (or_false_right (member n set))
member-extend n set (k ∷ ns) =
    ground (arith, member-extend n (add_member set k) ns, member-add_member n k set)

map_all-Pairs {ℓ κ} :
    {A : Type ℓ} {B : Type κ} (f : A → Option B) (xs : List A) (ys : List B)
    → map_all f xs ≡ some ys
    → Pairs (λ x y. f x ≡ some y) xs ys
unfolding map_all
map_all-Pairs f [] ys h = subst (Pairs (λ x y. f x ≡ some y) []) (some_inj h) none_left
map_all-Pairs f (x ∷ xs) ys h = elim (Option-cases (f x)) [
  | inl e ↦ cc (rw (e, map_all) at h)
  | inr (y, e) ↦ elim (Option-cases (map_all f xs)) [
    | inl g ↦ cc (rw (e, g, map_all) at h)
    | inr (rest, g) ↦
        subst (Pairs (λ x y. f x ≡ some y) (x ∷ xs)) (some_inj (rw (e, g, map_all) at h))
          (pair e (map_all-Pairs f xs rest g))
  ]
]

module _ (L : Http) (name_of : String → Option String)
    (try_from_parts : String → String → Option L.Value) (header_of : List String → L.Value) where
  -- The members of a set are what the setting's names are read as.
  pub IsNameSet : String → List String → Type 0
  IsNameSet setting set =
      (names : List String) × Pairs (λ x y. name_of x ≡ some y) (name_parts setting) names
      × ((n : String) → member n set ≡ member n names)

  -- Every origin, or what the setting's parts are read as.
  pub IsOriginSet : String → Option (List L.Value) → Type 0
  IsOriginSet origins_str origins =
      ((origins_str ≡ "*") × (origins ≡ none))
      ⊎ ((os : List L.Value) × (origins ≡ some os)
          × Pairs (λ x y. into_origin L name_of try_from_parts header_of x ≡ some y)
              (map trim (split b',' origins_str)) os)

  name_set-IsNameSet :
      (setting : String) (set : List String)
      → name_set L name_of try_from_parts header_of setting ≡ some set
      → IsNameSet setting set
  unfolding name_set IsNameSet
  name_set-IsNameSet setting set h = elim (Option-cases (map_all name_of (name_parts setting))) [
    | inl e ↦ cc (rw (e, name_set) at h)
    | inr (names, e) ↦
        let same : extend [] names ≡ set = some_inj (rw (e, name_set) at h) in
        (
          names,
          map_all-Pairs name_of (name_parts setting) names e,
          λ n. rw (← same) (member-extend n [] names),
        )
  ]

  origin_set-IsOriginSet :
      (origins_str : String) (origins : Option (List L.Value))
      → origin_set L name_of try_from_parts header_of origins_str ≡ some origins
      → IsOriginSet origins_str origins
  unfolding origin_set IsOriginSet
  origin_set-IsOriginSet origins_str origins h = elim (Bool-cases (origins_str == "*")) [
    | inl e ↦ inl ((eq_iff origins_str "*").0 e, sym (some_inj (rw (e, origin_set) at h)))
    | inr e ↦
        let parts = map trim (split b',' origins_str) in
        let read = into_origin L name_of try_from_parts header_of in
        elim (Option-cases (map_all read parts)) [
          | inl n ↦ cc (rw (e, n, origin_set) at h)
          | inr (os, n) ↦
              inr (os, sym (some_inj (rw (e, n, origin_set) at h)), map_all-Pairs read parts os n)
        ]
  ]

  -- What the settings configure.
  pub record IsConfigured (origins_str allow_str expose_str : String) (c : Configured L)
      : Type 0 where
    pub enabled : is_empty origins_str ≡ false
    pub origins : IsOriginSet origins_str c.cors.origins
    pub allowed : IsNameSet allow_str c.cors.allowed_headers
    pub exposed : IsNameSet expose_str c.cors.exposed_headers
    pub methods :
        (m : String) → member m c.cors.allowed_methods ≡ member m ("GET" ∷ "HEAD" ∷ "OPTIONS" ∷ [])
    pub max_age : c.cors.max_age ≡ none
    pub allowed_header : c.allowed_headers ≡ header_of c.cors.allowed_headers
    pub exposed_header : c.exposed_headers ≡ header_of c.cors.exposed_headers
    pub methods_header : c.methods_header ≡ header_of c.cors.allowed_methods

  built_inj : {a b : Configured L} → ◌≡◌ {A = Build L} (built (some a)) (built (some b)) → a ≡ b
  built_inj h = cc

  not_built : (c : Configured L) → ◌≡◌ {A = Build L} (built none) (built (some c)) → ⊥
  not_built c h = cc

  build-IsConfigured :
      (origins_str allow_str expose_str : String) (cors : Cors L)
      → is_empty origins_str ≡ false
      → new_cors L name_of try_from_parts header_of origins_str allow_str expose_str ≡ some cors
      → IsConfigured origins_str allow_str expose_str
          (build L name_of try_from_parts header_of cors)
  unfolding new_cors build
  build-IsConfigured origins_str allow_str expose_str cors e h =
      elim (Option-cases (origin_set L name_of try_from_parts header_of origins_str)) [
        | inl n ↦ cc (rw (n, new_cors) at h)
        | inr (os, o) ↦
            elim (Option-cases (name_set L name_of try_from_parts header_of allow_str)) [
              | inl n ↦ cc (rw (o, n, new_cors) at h)
              | inr (allowed, a) ↦
                  elim (Option-cases (name_set L name_of try_from_parts header_of expose_str)) [
                    | inl n ↦ cc (rw (o, a, n, new_cors) at h)
                    | inr (exposed, x) ↦
                        subst
                          (λ (k : Cors L).
                            IsConfigured origins_str allow_str expose_str
                              (build L name_of try_from_parts header_of k))
                          (some_inj (rw (o, a, x, new_cors) at h))
                          (record {
                            enabled = e;
                            origins = origin_set-IsOriginSet origins_str os o;
                            allowed = name_set-IsNameSet allow_str allowed a;
                            exposed = name_set-IsNameSet expose_str exposed x;
                            methods = λ m. member-extend m [] ("GET" ∷ "HEAD" ∷ "OPTIONS" ∷ []);
                            max_age = refl;
                            allowed_header = refl;
                            exposed_header = refl;
                            methods_header = refl;
                          })
                  ]
            ]
      ]

  -- The check that settings configure allows every origin if they are `*`, or else those that their
  -- parts are read as, each of which is an origin; the methods GET, HEAD and OPTIONS; and exactly the
  -- header names of the settings, each of which is a name, or `origin` and `content-type` where a
  -- setting is empty. It answers with the headers for these sets, and without an age.
  pub new-IsConfigured :
      (origins_str allow_str expose_str : String) (c : Configured L)
      → new L name_of try_from_parts header_of origins_str allow_str expose_str ≡ built (some c)
      → IsConfigured origins_str allow_str expose_str c
  unfolding new
  new-IsConfigured origins_str allow_str expose_str c h = elim (Bool-cases (is_empty origins_str)) [
    | inl e ↦ absurd (not_built c (rw (e, new) at h))
    | inr e ↦
        elim (Option-cases
          (new_cors L name_of try_from_parts header_of origins_str allow_str expose_str)) [
            | inl n ↦ cc (rw (e, n, new) at h)
            | inr (cors, n) ↦
                subst (IsConfigured origins_str allow_str expose_str)
                  (built_inj (rw (e, n, new) at h))
                  (build-IsConfigured origins_str allow_str expose_str cors e n)
          ]
  ]
