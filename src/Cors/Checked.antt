-- ===== src/Cors/Checked.antt =====
-- What a valid cross-origin request is.
use weave_gate.Common.{
  ℕ, zero, suc, String, ◌≡◌, refl, sym, ap, subst, ◌⊎◌, inl, inr, Bool, true, false, Option, none,
  some, List, [], ◌∷◌, ◌==◌, any, all, All, get_elem?, Option-cases, Bool-cases, arith,
}
use weave_gate.Common.Text.{split, trim, is_empty}
use weave_gate.Http.{Http}
use weave_gate.Cors.{
  Configured, Validated, preflight, simple, not_cors, CheckResult, valid, forbidden,
  is_method_allowed, is_header_allowed, is_origin_allowed, append_preflight_headers, cors_headers,
  requested_method_allowed, requested_headers_allowed, check_preflight, check_simple, check_request,
}

-- An item of the list passes the test.
abbrev pub Found {ℓ} : {A : Type ℓ} → (A → Bool) → List A → Type ℓ
Found {A} p xs = (i : ℕ) × (x : A) × (get_elem? xs i ≡ some x) × (p x ≡ true)

pub any-Found {ℓ} : {A : Type ℓ} (p : A → Bool) (xs : List A) → any p xs ≡ true → Found p xs
any-Found p [] h = cc
any-Found p (x ∷ xs) h = elim (Bool-cases (p x)) [
  | inl e ↦ (zero, x, refl, e)
  | inr e ↦ let (i, y, found, q) = any-Found p xs (ground arith) in (suc i, y, found, q)
]

module _ (L : Http) (method_of : L.Value → Option String) (name_of : String → Option String)
    (c : Configured L) where
  -- The origin has a text, and it is one of the configured ones if there are any.
  abbrev pub IsOriginAllowed : L.Value → Type 0
  IsOriginAllowed v =
      (L.value_is_empty v ≡ false)
      × ((c.cors.origins ≡ none)
          ⊎ ((os : List L.Value) × (c.cors.origins ≡ some os) × Found (λ o. L.value_eq o v) os))

  -- The method that a preflight request asks for is a configured one.
  abbrev pub IsMethodAllowed : L.Headers → Type 0
  IsMethodAllowed headers =
      (v : L.Value) × (m : String) × (L.get headers "access-control-request-method" ≡ some v)
      × (method_of v ≡ some m)
      × Found (λ a. a == m) c.cors.allowed_methods

  abbrev pub IsNameAllowed : String → Type 0
  IsNameAllowed part =
      (n : String) × (name_of (trim part) ≡ some n) × Found (λ a. a == n) c.cors.allowed_headers

  -- The header names that it asks for, if any, are all configured ones.
  abbrev pub AreNamesAllowed : L.Headers → Type 0
  AreNamesAllowed headers =
      (L.get headers "access-control-request-headers" ≡ none)
      ⊎ ((v : L.Value) × (text : String) × (L.get headers "access-control-request-headers" ≡ some v)
          × (L.to_str v ≡ some text)
          × All IsNameAllowed (split b',' text))

  is_origin_allowed_sound :
      (v : L.Value) → is_origin_allowed L method_of name_of c v ≡ true → IsOriginAllowed v
  unfolding is_origin_allowed
  is_origin_allowed_sound v h = elim (Bool-cases (L.value_is_empty v)) [
    | inl e ↦ absurd (ground arith)
    | inr e ↦ elim (Option-cases c.cors.origins) [
      | inl n ↦ (e, inl n)
      | inr (os, o) ↦ (e, inr (os, o, any-Found (λ o. L.value_eq o v) os (ground arith)))
    ]
  ]

  name_allowed :
      (part : String)
      → is_header_allowed L method_of name_of c (trim part) ≡ true
      → IsNameAllowed part
  unfolding is_header_allowed
  name_allowed part h = elim (Bool-cases (is_empty (trim part))) [
    | inl e ↦ absurd (ground arith)
    | inr e ↦ elim (Option-cases (name_of (trim part))) [
      | inl n ↦ absurd (ground arith)
      | inr (name, n) ↦ (
        name,
        n,
        any-Found (λ a. a == name) c.cors.allowed_headers (rw (e, n, is_header_allowed) at h),
      )
    ]
  ]

  names_allowed :
      (parts : List String)
      → all (λ part. is_header_allowed L method_of name_of c (trim part)) parts ≡ true
      → All IsNameAllowed parts
  names_allowed [] h = tt
  names_allowed (part ∷ parts) h =
      (name_allowed part (ground arith), names_allowed parts (ground arith))

  requested_headers_allowed_sound :
      (headers : L.Headers)
      → requested_headers_allowed L method_of name_of c
          (L.get headers "access-control-request-headers")
        ≡ true
      → AreNamesAllowed headers
  unfolding requested_headers_allowed
  requested_headers_allowed_sound headers h =
      elim (Option-cases (L.get headers "access-control-request-headers")) [
        | inl n ↦ inl n
        | inr (v, e) ↦ elim (Option-cases (L.to_str v)) [
          | inl n ↦ absurd (ground arith)
          | inr (text, t) ↦ inr (
            v,
            text,
            e,
            t,
            names_allowed (split b',' text) (rw (e, t, requested_headers_allowed) at h),
          )
        ]
      ]

  requested_method_allowed_sound :
      (headers : L.Headers)
      → requested_method_allowed L method_of name_of c
          (L.get headers "access-control-request-method")
        ≡ true
      → IsMethodAllowed headers
  unfolding requested_method_allowed is_method_allowed
  requested_method_allowed_sound headers h =
      elim (Option-cases (L.get headers "access-control-request-method")) [
        | inl n ↦ absurd (ground arith)
        | inr (v, e) ↦ elim (Option-cases (method_of v)) [
          | inl n ↦ absurd (ground arith)
          | inr (m, t) ↦ (
            v,
            m,
            e,
            t,
            any-Found (λ a. a == m) c.cors.allowed_methods
                (rw (e, t, requested_method_allowed, is_method_allowed) at h),
          )
        ]
      ]

  get-cors_headers :
      (v : L.Value)
      → L.get (cors_headers L method_of name_of c v) "access-control-allow-origin" ≡ some v
  unfolding cors_headers
  get-cors_headers v =
      L.get_insert (append_preflight_headers L method_of name_of c L.empty)
        "access-control-allow-origin" v "access-control-allow-origin"

  -- What the check promises of a valid request: no origin, and then no headers; or an allowed
  -- origin, which the headers name, and for a preflight request an allowed method and allowed
  -- header names.
  pub data IsValidCheck (method : String) (headers h : L.Headers) : Validated L → Type 0 where
    no_origin : L.get headers "origin" ≡ none → h ≡ L.empty → IsValidCheck method headers h not_cors
    allowed_simple :
        (v : L.Value)
        → L.get headers "origin" ≡ some v
        → (method == "OPTIONS") ≡ false
        → IsOriginAllowed v
        → L.get h "access-control-allow-origin" ≡ some v
        → IsValidCheck method headers h (simple v)
    allowed_preflight :
        (v : L.Value)
        → L.get headers "origin" ≡ some v
        → (method == "OPTIONS") ≡ true
        → IsOriginAllowed v
        → IsMethodAllowed headers
        → AreNamesAllowed headers
        → L.get h "access-control-allow-origin" ≡ some v
        → IsValidCheck method headers h (preflight v)

  valid_inj :
      {h h' : L.Headers} {s s' : Validated L}
      → ◌≡◌ {A = CheckResult L} (valid h s) (valid h' s')
      → (h ≡ h') × (s ≡ s')
  valid_inj e = (ap headers_of e, ap state_of e)
    where
      headers_of : CheckResult L → L.Headers
      headers_of (valid h s) = h
      headers_of (forbidden r) = L.empty

      state_of : CheckResult L → Validated L
      state_of (valid h s) = s
      state_of (forbidden r) = not_cors

  check_simple_sound :
      (method : String) (headers h : L.Headers) (state : Validated L) (v : L.Value)
      → L.get headers "origin" ≡ some v
      → (method == "OPTIONS") ≡ false
      → check_simple L method_of name_of c v ≡ valid h state
      → IsValidCheck method headers h state
  unfolding check_simple
  check_simple_sound method headers h state v o m e =
      elim (Bool-cases (is_origin_allowed L method_of name_of c v)) [
        | inr a ↦ absurd (ground arith)
        | inl a ↦
            let (eh, es) = valid_inj (rw (a, check_simple) at e) in
            subst (IsValidCheck method headers h) es
              (allowed_simple v o m (is_origin_allowed_sound v a) (rw (← eh) (get-cors_headers v)))
      ]

  check_preflight_sound :
      (method : String) (headers h : L.Headers) (state : Validated L) (v : L.Value)
      → L.get headers "origin" ≡ some v
      → (method == "OPTIONS") ≡ true
      → check_preflight L method_of name_of c v headers ≡ valid h state
      → IsValidCheck method headers h state
  unfolding check_preflight
  check_preflight_sound method headers h state v o m e =
      let a : is_origin_allowed L method_of name_of c v ≡ true = ground arith in
      let b : requested_method_allowed L method_of name_of c
            (L.get headers "access-control-request-method")
          ≡ true =
        ground arith in
      let d : requested_headers_allowed L method_of name_of c
            (L.get headers "access-control-request-headers")
          ≡ true =
        ground arith in
      let (eh, es) = valid_inj (rw (a, b, d, check_preflight) at e) in
      subst (IsValidCheck method headers h) es (
        allowed_preflight v o m (is_origin_allowed_sound v a)
          (requested_method_allowed_sound headers b) (requested_headers_allowed_sound headers d)
          (rw (← eh) (get-cors_headers v)))

  -- A request that the check accepts has no origin and gets no headers; or its origin is allowed
  -- and the headers name it, and a preflight request asks for an allowed method and for allowed
  -- header names only.
  pub check_request-IsValidCheck :
      (method : String) (headers h : L.Headers) (state : Validated L)
      → check_request L method_of name_of c method headers ≡ valid h state
      → IsValidCheck method headers h state
  unfolding check_request
  check_request-IsValidCheck method headers h state e =
      elim (Option-cases (L.get headers "origin")) [
        | inl n ↦
            let (eh, es) = valid_inj (rw (n, check_request) at e) in
            subst (IsValidCheck method headers h) es (no_origin n (sym eh))
        | inr (v, o) ↦ elim (Bool-cases (method == "OPTIONS")) [
          | inl m ↦
              check_preflight_sound method headers h state v o m (rw (o, m, check_request) at e)
          | inr m ↦ check_simple_sound method headers h state v o m (rw (o, m, check_request) at e)
        ]
      ]
