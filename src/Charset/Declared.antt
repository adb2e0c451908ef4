-- ===== src/Charset/Declared.antt =====
-- What the default charset does to a response.
use weave_gate.Common.{
  List, [], ◌∷◌, ◌==◌, any, String, ◌≡◌, refl, ◌∙◌, ap, true, false, Option, none, some, and_then,
  arith, sym, ◌⊎◌, inl, inr, Bool-cases, Option-cases,
}
use mathlib.Core.Bool.{false≢true}
use weave_gate.Http.{Http, Response}
use weave_gate.Charset.{
  Mime, wants_charset, contains_text_only, with_charset, charset_text, new_header, post_process,
}

-- the types whose texts get a charset
abbrev pub listed : List String
listed =
    "application/atom+xml" ∷ "application/rss+xml" ∷ "text/calendar" ∷ "text/csv" ∷ "text/html"
    ∷ "text/markdown" ∷ "text/plain" ∷ "text/xml" ∷ []

-- a text of a listed type without a charset
abbrev pub IsWanted : Mime → Type 0
IsWanted m =
    (m.type_name == "text" ≡ true)
    × (any (λ n. n == m.essence) listed ≡ true)
    × (m.has_charset ≡ false)

abbrev pub IsUnwanted : Mime → Type 0
IsUnwanted m =
    (m.type_name == "text" ≡ false)
    ⊎ (any (λ n. n == m.essence) listed ≡ false)
    ⊎ (m.has_charset ≡ true)

wants_charset-cases :
    (m : Mime)
    → ((wants_charset m ≡ true) × IsWanted m) ⊎ ((wants_charset m ≡ false) × IsUnwanted m)
unfolding wants_charset contains_text_only
wants_charset-cases m = elim (Bool-cases (m.type_name == "text")) [
  | inr e ↦ inr (rw (e, wants_charset, contains_text_only) refl, inl e)
  | inl e ↦ elim (Bool-cases (any (λ n. n == m.essence) listed)) [
    | inr l ↦ inr (rw (e, l, wants_charset, contains_text_only) refl, inr (inl l))
    | inl l ↦ elim (Bool-cases m.has_charset) [
      | inl c ↦ inr (rw (e, l, c, wants_charset, contains_text_only) refl, inr (inr c))
      | inr c ↦ inl (rw (e, l, c, wants_charset, contains_text_only) refl, (e, l, c))
    ]
  ]
]

wants_charset-IsWanted : (m : Mime) → wants_charset m ≡ true → IsWanted m
wants_charset-IsWanted m h = elim (wants_charset-cases m) [
  | inl (e, w) ↦ w
  | inr (e, u) ↦ absurd (false≢true (sym e ∙ h))
]

module _ (L : Http) (parse_mime : String → Option Mime) where
  -- A text that the crate gives as a header's value is read back; and what has the parameter behind
  -- a semicolon has a charset.
  pub record Laws : Type 0 where
    pub to_str-from_str : (s : String) (v : L.Value) → L.from_str s ≡ some v → L.to_str v ≡ some s
    pub parsed_charset :
        (s : String) (m : Mime) → parse_mime (with_charset s) ≡ some m → m.has_charset ≡ true

  charset_text-cases :
      (s t : String)
      → charset_text L parse_mime s ≡ some t
      → (m : Mime) × (parse_mime s ≡ some m) × (wants_charset m ≡ true) × (t ≡ with_charset s)
  unfolding charset_text
  charset_text-cases s t h = elim (Option-cases (parse_mime s)) [
    | inl e ↦ cc (rw (e, charset_text) at h)
    | inr (m, e) ↦ elim (Bool-cases (wants_charset m)) [
      | inr w ↦ cc (rw (e, w, charset_text) at h)
      | inl w ↦ (m, e, w, ground (arith, rw (e, w, charset_text) at h))
    ]
  ]

  wants_charset-bare : (m : Mime) → wants_charset m ≡ true → m.has_charset ≡ false
  unfolding wants_charset
  wants_charset-bare m h = ground (arith)

  charset_text-again : Laws → (s : String) → charset_text L parse_mime (with_charset s) ≡ none
  charset_text-again laws s = elim (Option-cases (charset_text L parse_mime (with_charset s))) [
    | inl e ↦ e
    | inr (t, h) ↦
        let (m, e, w, _) = charset_text-cases (with_charset s) t h in
        absurd (false≢true (sym (wants_charset-bare m w) ∙ laws.parsed_charset s m e))
  ]

  -- A response that keeps its type: without a readable one, or with one that does not parse, is not
  -- wanted, or cannot be built with the charset.
  abbrev pub IsKept : Response L → Type 0
  IsKept resp =
      (and_then (L.get resp.headers "content-type") L.to_str ≡ none)
      ⊎ ((text : String) × (and_then (L.get resp.headers "content-type") L.to_str ≡ some text)
          × ((parse_mime text ≡ none)
              ⊎ ((mime : Mime) × (parse_mime text ≡ some mime)
                  × (IsUnwanted mime ⊎ (IsWanted mime × (L.from_str (with_charset text) ≡ none))))))

  -- A type whose charset is declared.
  pub record IsDeclared (resp : Response L) (value : L.Value) : Type 0 where
    pub text : String
    pub mime : Mime
    pub given : and_then (L.get resp.headers "content-type") L.to_str ≡ some text
    pub parsed : parse_mime text ≡ some mime
    pub wanted : IsWanted mime
    pub built : L.from_str (with_charset text) ≡ some value

  new_header-IsDeclared :
      (resp : Response L) (value : L.Value)
      → new_header L parse_mime resp.headers ≡ some value
      → IsDeclared resp value
  unfolding new_header
  new_header-IsDeclared resp value h =
      elim (Option-cases (and_then (L.get resp.headers "content-type") L.to_str)) [
        | inl e ↦ cc (rw (e, new_header) at h)
        | inr (s, e) ↦ elim (Option-cases (charset_text L parse_mime s)) [
          | inl n ↦ cc (rw (e, n, new_header) at h)
          | inr (t, n) ↦
              let (m, p, w, same) = charset_text-cases s t n in
              record {
                text = s;
                mime = m;
                given = e;
                parsed = p;
                wanted = wants_charset-IsWanted m w;
                built = rw same at (rw (e, n, new_header) at h);
              }
        ]
      ]

  new_header-IsKept :
      (resp : Response L) → new_header L parse_mime resp.headers ≡ none → IsKept resp
  unfolding new_header charset_text
  new_header-IsKept resp h =
      elim (Option-cases (and_then (L.get resp.headers "content-type") L.to_str)) [
        | inl e ↦ inl e
        | inr (s, e) ↦ elim (Option-cases (parse_mime s)) [
          | inl p ↦ inr (s, e, inl p)
          | inr (m, p) ↦ elim (wants_charset-cases m) [
            | inr (w, u) ↦ inr (s, e, inr (m, p, inl u))
            | inl (w, is) ↦
                inr (s, e, inr (m, p, inr (is, rw (e, p, w, new_header, charset_text) at h)))
          ]
        ]
      ]

  new_header-again :
      Laws
      → (resp : Response L) (value : L.Value) → IsDeclared resp value
      → new_header L parse_mime (L.insert resp.headers "content-type" value) ≡ none
  unfolding new_header
  new_header-again laws resp value d =
      let found : L.get (L.insert resp.headers "content-type" value) "content-type" ≡ some value =
        L.get_insert resp.headers "content-type" value "content-type" in
      rw (new_header, found, laws.to_str-from_str _ value d.built, charset_text-again laws d.text)
        refl

  -- Where the text of a header that is set is read back as it was, and a type with the new text is parsed
  -- as one that has a charset: with the default charset on, the type of a response gets a charset, and
  -- nothing else changes, where it is a readable text of one of the listed types, without a charset, and
  -- the new text is a header's value. In every other case the response stays as it is, as it does with the default charset off. And
  -- a second run changes nothing more.
  pub post_process-declares :
      Laws
      → (resp : Response L)
      → ((IsKept resp × (post_process L parse_mime true resp ≡ resp))
          ⊎ ((value : L.Value) × IsDeclared resp value
              × (post_process L parse_mime true resp
                  ≡ record resp { headers = L.insert resp.headers "content-type" value })))
        × (post_process L parse_mime true (post_process L parse_mime true resp)
            ≡ post_process L parse_mime true resp)
        × (post_process L parse_mime false resp ≡ resp)
  unfolding post_process
  post_process-declares laws resp = elim (Option-cases (new_header L parse_mime resp.headers)) [
    | inl e ↦
        let once : post_process L parse_mime true resp ≡ resp = rw (post_process, e) refl in
        (inl (new_header-IsKept resp e, once), ap (post_process L parse_mime true) once, refl)
    | inr (value, e) ↦
        let d = new_header-IsDeclared resp value e in
        let resp' : Response L = record resp {
          headers = L.insert resp.headers "content-type" value;
        } in
        let once : post_process L parse_mime true resp ≡ resp' = rw (post_process, e) refl in
        let again : post_process L parse_mime true resp' ≡ resp' =
          rw (post_process, new_header-again laws resp value d) refl in
        (inr (value, d, once), ap (post_process L parse_mime true) once ∙ (again ∙ sym once), refl)
  ]
