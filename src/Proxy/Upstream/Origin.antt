-- ===== src/Proxy/Upstream/Origin.antt =====
-- The request's path cannot leave the origin of its instance.
use Prim.Native.Char.{Char, code}
use Prim.Native.String.{◌++◌}
use text.Mathlib.TextLemmas.{nil-append, cons-append}
use weave_gate.Common.{
  Option, ok_or, ok_or-eq-ok, ap, ◌∙◌, if◌then◌else◌, ℕ, String, ◌≡◌, refl, sym, ◌≢◌, ◌⊎◌, inl, inr,
  Bool, ◌||◌, true, false, some, arith, eqb, eqb_eq, eqb_ne, subst, ok, err, >>=-eq-ok, ◌==◌,
  Bool-cases,
}
use weave_gate.Common.Text.{is_empty, trim_end_matches, put_back}
use weave_gate.Common.Text.Laws.{strip_prefix-append}
use weave_gate.Common.Pairs.{ok_inj}
use weave_gate.Routes.Document.{IsRooted}
use weave_gate.Http.{Http}
use weave_gate.Rules.{UpstreamUriTemplate, upstream_uri_template}
use weave_gate.Proxy.Upstream.{without_prefix, rooted_path, merged_path, upstream_text}

put_back-IsRooted :
    (drop : Bool) (c : Char) (t : String)
    → code c ≡ b'/'
    → (put_back drop c t ≡ "") ⊎ IsRooted (put_back drop c t)
put_back-IsRooted true c String.[] h = inl refl
put_back-IsRooted false c String.[] h = inr h
put_back-IsRooted drop c (String.◌∷◌ d t) h = inr h

trim_end_matches-IsRooted :
    (n : ℕ) (s : String)
    → IsRooted s
    → (trim_end_matches n s ≡ "") ⊎ IsRooted (trim_end_matches n s)
unfolding trim_end_matches
trim_end_matches-IsRooted n String.[] h = elim h [ ]
trim_end_matches-IsRooted n (String.◌∷◌ c s) h = put_back-IsRooted _ c (trim_end_matches n s) h

append-IsRooted : (s t : String) → IsRooted s → IsRooted (s ++ t)
append-IsRooted String.[] t h = elim h [ ]
append-IsRooted (String.◌∷◌ c s) t h = rw cons-append h

merged_path-IsRooted :
    (base path : String) → IsRooted base → IsRooted path → IsRooted (merged_path base path)
unfolding merged_path
merged_path-IsRooted base path b p = elim (Bool-cases (is_empty base || base == "/")) [
  | inl e ↦ rw (e, merged_path) p
  | inr e ↦
      rw (e, merged_path)
        (elim (trim_end_matches-IsRooted b'/' base b) [
          | inl gone ↦ rw (gone, nil-append) p
          | inr left ↦ append-IsRooted _ path left
        ])
]

rooted_path_sound : (path p : String) → rooted_path path ≡ ok p → IsRooted p
unfolding rooted_path
rooted_path_sound String.[] p h = subst IsRooted (ok_inj h) refl
rooted_path_sound (String.◌∷◌ c s) p h = elim (Bool-cases (eqb (code c) b'/')) [
  | inl e ↦ subst IsRooted (ok_inj (rw e at h)) (eqb_eq _ _ e)
  | inr e ↦ cc (rw e at h)
]

rooted_path-IsRooted : (path : String) → IsRooted path → rooted_path path ≡ ok path
unfolding rooted_path
rooted_path-IsRooted String.[] h = elim h [ ]
rooted_path-IsRooted (String.◌∷◌ c s) h = ground arith

rooted_path_refused :
    (path : String)
    → path ≢ ""
    → ¬ IsRooted path
    → rooted_path path ≡ err "invalid path after strip-prefix"
unfolding rooted_path
rooted_path_refused String.[] h k = absurd (h refl)
rooted_path_refused (String.◌∷◌ c s) h k = ground arith

text_under :
    (template : UpstreamUriTemplate) (path_and_query full : String)
    → IsRooted template.base_path
    → upstream_text template path_and_query ≡ ok full
    → (p : String) × IsRooted p × (full ≡ template.origin ++ p)
unfolding upstream_text
text_under template path_and_query full base h =
    let (p, e, f) =
      >>=-eq-ok (rooted_path (without_prefix template.strip_prefix path_and_query)) _ h in
    (_, merged_path-IsRooted template.base_path p base (rooted_path_sound _ p e), sym (ok_inj f))

base-IsRooted :
    (path : String) → (path ≡ "") ⊎ IsRooted path → IsRooted (if is_empty path then "/" else path)
base-IsRooted String.[] h = refl
base-IsRooted (String.◌∷◌ c s) (inl e) = cc
base-IsRooted (String.◌∷◌ c s) (inr r) = r

module _ (L : Http) where
  -- what a template that was built from an instance's URI holds
  upstream_uri_template-IsRooted :
      (prefix : Option String) (upstream : L.Uri) (template : UpstreamUriTemplate)
      → (L.path upstream ≡ "") ⊎ IsRooted (L.path upstream)
      → upstream_uri_template L prefix upstream ≡ ok template
      → (scheme : String) × (authority : String) × (L.scheme_str upstream ≡ some scheme)
        × (L.authority upstream ≡ some authority)
        × (template.origin ≡ scheme ++ ("://" ++ authority))
        × IsRooted template.base_path
  unfolding upstream_uri_template
  upstream_uri_template-IsRooted prefix upstream template rooted h =
      let (authority, a, h₁) = >>=-eq-ok (ok_or (L.authority upstream) _) _ h in
      let (scheme, s, h₂) = >>=-eq-ok (ok_or (L.scheme_str upstream) _) _ h₁ in
      let e = ok_inj h₂ in
      (
        scheme,
        authority,
        ok_or-eq-ok _ _ s,
        ok_or-eq-ok _ _ a,
        sym (ap (λ t. t.origin) e),
        subst (λ (t : UpstreamUriTemplate). IsRooted t.base_path) e
            (base-IsRooted (L.path upstream) rooted),
      )

  -- Under a template that was compiled from an instance's URI, whose own path is empty or begins with a
  -- slash: whatever the request's path, the text of the upstream's URI is the instance's scheme and
  -- authority and behind them a path that begins with a slash.
  pub upstream_text-IsRooted :
      (prefix : Option String) (upstream : L.Uri) (template : UpstreamUriTemplate)
      → (L.path upstream ≡ "") ⊎ IsRooted (L.path upstream)
      → upstream_uri_template L prefix upstream ≡ ok template
      → (path_and_query full : String) → upstream_text template path_and_query ≡ ok full
      → (scheme : String) × (authority : String) × (p : String) × (L.scheme_str upstream
          ≡ some scheme)
        × (L.authority upstream ≡ some authority)
        × IsRooted p
        × (full ≡ (scheme ++ ("://" ++ authority)) ++ p)
  upstream_text-IsRooted prefix upstream template rooted built path_and_query full h =
      let (scheme, authority, s, a, o, base) =
        upstream_uri_template-IsRooted prefix upstream template rooted built in
      let (p, r, e) = text_under template path_and_query full base h in
      (scheme, authority, p, s, a, r, e ∙ ap (λ x. x ++ p) o)

-- With a prefix, a request that begins with it falls into one of three cases. Nothing is left of
-- it, and it goes to the root under the base path; or what is left begins with a slash, and it goes
-- there under the base path; or else it is refused.
pub upstream_text-prefix :
    (origin base prefix rest : String)
    → let t : UpstreamUriTemplate = record {
      origin = origin;
      base_path = base;
      strip_prefix = some prefix;
    } in
      ((rest ≡ "") × (upstream_text t (prefix ++ rest) ≡ ok (origin ++ merged_path base "/")))
      ⊎ (IsRooted rest × (upstream_text t (prefix ++ rest) ≡ ok (origin ++ merged_path base rest)))
      ⊎ ((rest ≢ "")
          × (¬ IsRooted rest)
          × (upstream_text t (prefix ++ rest) ≡ err "invalid path after strip-prefix"))
unfolding upstream_text without_prefix rooted_path
upstream_text-prefix origin base prefix String.[] = inl (refl, rw strip_prefix-append refl)
upstream_text-prefix origin base prefix (String.◌∷◌ c s) = elim (Bool-cases (eqb (code c) b'/')) [
  | inl e ↦ inr (inl (eqb_eq _ _ e, rw (strip_prefix-append, e) refl))
  | inr e ↦ inr (inr ((λ h. cc), eqb_ne _ _ e, rw (strip_prefix-append, e) refl))
]
