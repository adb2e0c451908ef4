-- ===== src/Settings/Advanced/Compiled.antt =====
-- What the options of the file are compiled to.
use weave_gate.Common.{
  false, unwrap_or, ℕ, String, ◌≡◌, arith, zero, suc, refl, sym, ap, ◌∙◌, true, Option, none, some,
  List, [], ◌∷◌, Option-cases, inl, inr, Result, ok, ok_or, ok_or-eq-ok, ensure, traverse, ◌>>=◌,
  >>=-eq-ok, subst, ensure-eq-ok, context-eq-ok,
}
use weave_gate.Common.Pairs.{ok_inj, Pairs, none_left, pair, Pairs-weaken, traverse-Pairs}
use weave_gate.Http.{Http}
use weave_gate.Redirects.{Regex, Redirects, Rewrites, VirtualHosts}
use weave_gate.Finish.{HeadersEntry}
use weave_gate.Settings.Advanced.{
  Compilers, FileHeaders, FileRedirects, FileRewrites, FileVirtualHosts, FileAdvanced, Advanced,
  kind_status, in_option, compile_headers, compile_source, compile_rewrites, compile_redirects,
  get_valid_dirpath, root_of_host, compile_virtual_hosts, pattern_of, tls_settings, tunnel_limit,
  proxy_settings, compile_advanced,
}

-- both absent, or both there and related
pub data Optional {ℓ κ μ} {A : Type ℓ} {B : Type κ} (R : A → B → Type μ)
    : Option A → Option B → Type (ℓ ⊔ κ ⊔ μ) where
  absent : Optional R none none
  present : {a : A} {b : B} → R a b → Optional R (some a) (some b)

pub in_option-Optional {ℓ κ μ} :
    {A : Type ℓ} {B : Type κ} (R : A → B → Type μ) (f : A → Result B)
    → ((a : A) (b : B) → f a ≡ ok b → R a b)
    → (o : Option A) (p : Option B) → in_option f o ≡ ok p
    → Optional R o p
in_option-Optional R f each none p h = subst (Optional R none) (ok_inj h) absent
in_option-Optional R f each (some a) p h =
    let (b, e, h') = >>=-eq-ok (f a) _ h in
    subst (Optional R (some a)) (ok_inj h') (present (each a b e))

-- the hosts that have a root
abbrev pub with_root : List FileVirtualHosts → List FileVirtualHosts
with_root [] = []
with_root (entry ∷ entries) = elim entry.root [
  | none ↦ with_root entries
  | some _ ↦ entry ∷ with_root entries
]

module _ (L : Http) (c : Compilers) where
  abbrev pub IsHeaders : FileHeaders L → HeadersEntry L → Type 0
  IsHeaders entry compiled =
      (c.glob_new entry.source ≡ some compiled.source) × (compiled.headers ≡ entry.headers)

  -- the regular expression of the glob's text
  abbrev pub IsSource : String → Regex → Type 0
  IsSource source regex =
      (text : String) × (c.glob_regex source ≡ some text)
      × (c.regex_new (pattern_of text) ≡ some regex)

  abbrev pub IsRewrites : FileRewrites → Rewrites → Type 0
  IsRewrites entry compiled =
      IsSource entry.source compiled.source
      × (compiled.destination ≡ entry.destination)
      × (compiled.redirect ≡ entry.redirect)

  abbrev pub IsRedirects : FileRedirects → Redirects → Type 0
  IsRedirects entry compiled =
      (compiled.host ≡ entry.host)
      × IsSource entry.source compiled.source
      × (compiled.destination ≡ entry.destination)
      × (compiled.kind ≡ kind_status entry.kind)

  abbrev pub IsVirtualHost : FileVirtualHosts → VirtualHosts → Type 0
  IsVirtualHost entry compiled =
      (compiled.host ≡ entry.host)
      × (entry.root ≡ some compiled.root)
      × (c.exists compiled.root ≡ true)
      × (c.is_dir compiled.root ≡ true)

  compile_headers-IsHeaders :
      (entry : FileHeaders L) (compiled : HeadersEntry L)
      → compile_headers L c entry ≡ ok compiled
      → IsHeaders entry compiled
  unfolding compile_headers
  compile_headers-IsHeaders entry compiled h =
      let (source, e, h') = >>=-eq-ok (ok_or (c.glob_new entry.source) _) _ h in
      subst (IsHeaders entry) (ok_inj h') (ok_or-eq-ok _ _ e, refl)

  compile_source-IsSource :
      (e₁ e₂ source : String) (regex : Regex)
      → compile_source L c e₁ e₂ source ≡ ok regex
      → IsSource source regex
  unfolding compile_source
  compile_source-IsSource e₁ e₂ source regex h =
      let (text, e, h') = >>=-eq-ok (ok_or (c.glob_regex source) e₁) _ h in
      (text, ok_or-eq-ok _ _ e, ok_or-eq-ok _ _ h')

  compile_rewrites-IsRewrites :
      (entry : FileRewrites) (compiled : Rewrites)
      → compile_rewrites L c entry ≡ ok compiled
      → IsRewrites entry compiled
  unfolding compile_rewrites
  compile_rewrites-IsRewrites entry compiled h =
      let (source, e, h') = >>=-eq-ok (compile_source L c _ _ entry.source) _ h in
      subst (IsRewrites entry) (ok_inj h') (compile_source-IsSource _ _ _ source e, refl, refl)

  compile_redirects-IsRedirects :
      (entry : FileRedirects) (compiled : Redirects)
      → compile_redirects L c entry ≡ ok compiled
      → IsRedirects entry compiled
  unfolding compile_redirects
  compile_redirects-IsRedirects entry compiled h =
      let (source, e, h') = >>=-eq-ok (compile_source L c _ _ entry.source) _ h in
      subst (IsRedirects entry) (ok_inj h')
        (refl, compile_source-IsSource _ _ _ source e, refl, refl)

  get_valid_dirpath-IsDir :
      (path : String) (root : String)
      → get_valid_dirpath L c path ≡ ok root
      → (path ≡ root) × (c.exists path ≡ true) × (c.is_dir path ≡ true)
  unfolding get_valid_dirpath
  get_valid_dirpath-IsDir path root h =
      let (_, e₁, h₁) = >>=-eq-ok (ensure (c.exists path) _) _ h in
      let (_, e₂, h₂) = >>=-eq-ok (ensure (c.is_dir path) _) _ h₁ in
      (ok_inj h₂, ensure-eq-ok _ _ e₁, ensure-eq-ok _ _ e₂)

  compile_virtual_hosts-none :
      (entry : FileVirtualHosts) (entries : List FileVirtualHosts)
      → entry.root ≡ none
      → compile_virtual_hosts L c (entry ∷ entries) ≡ compile_virtual_hosts L c entries
  unfolding compile_virtual_hosts
  compile_virtual_hosts-none entry entries e = rw (e) refl

  root_of_host-IsDir :
      (path : String) (root : String)
      → root_of_host L c path ≡ ok root
      → (path ≡ root) × (c.exists path ≡ true) × (c.is_dir path ≡ true)
  unfolding root_of_host
  root_of_host-IsDir path root h =
      get_valid_dirpath-IsDir path root (context-eq-ok _ (get_valid_dirpath L c path) h)

  compile_virtual_hosts-some :
      (entry : FileVirtualHosts) (entries : List FileVirtualHosts) {root : String}
      → entry.root ≡ some root
      → compile_virtual_hosts L c (entry ∷ entries) ≡ (
          root_of_host L c root >>= λ root_dir. compile_virtual_hosts L c entries >>= λ rest.
          ok (record { host = entry.host; root = root_dir } ∷ rest))
  unfolding compile_virtual_hosts
  compile_virtual_hosts-some entry entries e = rw (e) refl

  compile_virtual_hosts-IsVirtualHost :
      (entries : List FileVirtualHosts) (hosts : List VirtualHosts)
      → compile_virtual_hosts L c entries ≡ ok hosts
      → Pairs IsVirtualHost (with_root entries) hosts
  unfolding compile_virtual_hosts
  compile_virtual_hosts-IsVirtualHost [] hosts h =
      subst (Pairs IsVirtualHost []) (ok_inj h) none_left
  compile_virtual_hosts-IsVirtualHost (entry ∷ entries) hosts h = elim (Option-cases entry.root) [
    | inl e ↦ rw (e) (
        compile_virtual_hosts-IsVirtualHost entries hosts
          (sym (compile_virtual_hosts-none entry entries e) ∙ h))
    | inr (root, e) ↦
        let (dir, e₁, h₁) =
          >>=-eq-ok (root_of_host L c root) _
            (sym (compile_virtual_hosts-some entry entries e) ∙ h) in
        let (rest, e₂, h₂) = >>=-eq-ok (compile_virtual_hosts L c entries) _ h₁ in
        let (same, there, is_dir) = root_of_host-IsDir root dir e₁ in
        rw (e) (
          subst (Pairs IsVirtualHost _) (ok_inj h₂) (
            pair (refl, e ∙ ap some same, rw (sym same) there, rw (sym same) is_dir)
              (compile_virtual_hosts-IsVirtualHost entries rest e₂)))
  ]

  -- no limit and a limit of zero are none, and any other stays
  abbrev pub IsTunnelLimit : Option ℕ → Option ℕ → Type 0
  IsTunnelLimit none limit = limit ≡ none
  IsTunnelLimit (some zero) limit = limit ≡ none
  IsTunnelLimit (some (suc n)) limit = limit ≡ some (suc n)

  abbrev pub IsAdvanced : FileAdvanced L → Advanced L → Type 0
  IsAdvanced file compiled =
      Optional (Pairs IsHeaders) file.headers compiled.headers
      × Optional (Pairs IsRewrites) file.rewrites compiled.rewrites
      × Optional (Pairs IsRedirects) file.redirects compiled.redirects
      × Optional (λ entries hosts. Pairs IsVirtualHost (with_root entries) hosts) file.virtual_hosts
          compiled.virtual_hosts
      × (tls_settings L c file.proxy_tls ≡ ok compiled.proxy_settings.tls)
      × IsTunnelLimit file.max_upgrade_tunnels compiled.proxy_settings.max_upgrade_tunnels
      × (compiled.proxy_settings.proxy_first ≡ unwrap_or file.proxy_first false)
      × (compiled.proxy_settings.pool_max_idle_per_host
          ≡ unwrap_or file.proxy_pool_max_idle_per_host 32)
      × (compiled.proxy_settings.pool_idle_timeout_secs
          ≡ unwrap_or file.proxy_pool_idle_timeout_secs 90)
      × (compiled.proxy_defs ≡ file.proxies)
      × (compiled.routes_bootstrap ≡ file.routes_bootstrap)

  tunnel_limit-IsTunnelLimit : (limit : Option ℕ) → IsTunnelLimit limit (tunnel_limit L c limit)
  tunnel_limit-IsTunnelLimit none = refl
  tunnel_limit-IsTunnelLimit (some zero) = refl
  tunnel_limit-IsTunnelLimit (some (suc n)) = ground arith

  traverse-all {ℓ κ μ} :
      {A : Type ℓ} {B : Type κ} (R : A → B → Type μ) (f : A → Result B)
      → ((a : A) (b : B) → f a ≡ ok b → R a b)
      → (xs : List A) (ys : List B) → traverse f xs ≡ ok ys
      → Pairs R xs ys
  traverse-all R f each xs ys h = Pairs-weaken R each (traverse-Pairs f xs ys h)

  -- Where the advanced options of a file are accepted, they correspond to the file: no list appears or
  -- disappears, and each header, rewrite and redirect entry has, in order, one compiled entry with its
  -- glob's matcher or regular expression and its other values; the virtual hosts are those that have a
  -- root, which is an existing directory; the client's trust is the file's. There is no limit of
  -- tunnels where the file gives none or zero, and any other is the file's; the proxy's place and its
  -- pools are the file's, or else behind the static files, 32 connections and 90 seconds.
  pub compile_advanced-IsAdvanced :
      (file : FileAdvanced L) (compiled : Advanced L)
      → compile_advanced L c file ≡ ok compiled
      → IsAdvanced file compiled
  unfolding compile_advanced proxy_settings
  compile_advanced-IsAdvanced file compiled h =
      let (headers, e₁, h₁) =
        >>=-eq-ok (in_option (traverse (compile_headers L c)) file.headers) _ h in
      let (rewrites, e₂, h₂) =
        >>=-eq-ok (in_option (traverse (compile_rewrites L c)) file.rewrites) _ h₁ in
      let (redirects, e₃, h₃) =
        >>=-eq-ok (in_option (traverse (compile_redirects L c)) file.redirects) _ h₂ in
      let (tls, e₄, h₄) = >>=-eq-ok (tls_settings L c file.proxy_tls) _ h₃ in
      let (hosts, e₅, h₅) =
        >>=-eq-ok (in_option (compile_virtual_hosts L c) file.virtual_hosts) _ h₄ in
      subst (IsAdvanced file) (ok_inj h₅) (
        in_option-Optional _ _ (traverse-all _ _ compile_headers-IsHeaders) file.headers headers e₁,
        in_option-Optional _ _ (traverse-all _ _ compile_rewrites-IsRewrites) file.rewrites rewrites
            e₂,
        in_option-Optional _ _ (traverse-all _ _ compile_redirects-IsRedirects) file.redirects
            redirects e₃,
        in_option-Optional _ _ compile_virtual_hosts-IsVirtualHost file.virtual_hosts hosts e₅,
        e₄,
        tunnel_limit-IsTunnelLimit file.max_upgrade_tunnels,
        refl,
        refl,
        refl,
        refl,
        refl,
      )
