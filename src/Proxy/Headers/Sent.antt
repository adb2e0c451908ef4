-- ===== src/Proxy/Headers/Sent.antt =====
-- The headers that are sent upstream, name by name.
use weave_gate.Common.{
  String, ◌≡◌, refl, ◌&&◌, Option, none, some, ◌==◌, arith, or_else, if◌then◌else◌, is_some,
  Option-cases, inl, inr,
}
use weave_gate.Http.{Http, Request}
use weave_gate.Proxy.Headers.{
  append_forwarded_headers, set_forwarded_for, set_forwarded_host, forwarded_proto,
}

module _ (L : Http) (req : Request L) where
  -- the values that the proxy sets itself
  abbrev pub forwarded_for : Option String → Option L.Value
  forwarded_for remote_ip = elim remote_ip [
    | none ↦ L.get req.headers "x-forwarded-for"
    | some ip ↦ L.from_str ip
  ]

  get-set_forwarded_host :
      (h : L.Headers) (j : String)
      → L.get (set_forwarded_host L h req) j ≡ (
          if "x-forwarded-host" == j && is_some (L.get req.headers "host")
          then L.get req.headers "host"
          else L.get h j)
  unfolding set_forwarded_host
  get-set_forwarded_host h j = elim (Option-cases (L.get req.headers "host")) [
    | inl e ↦ rw (e, set_forwarded_host) (ground arith)
    | inr (v, e) ↦
        rw (e, set_forwarded_host) (ground (arith, L.get_insert h "x-forwarded-host" v j))
  ]

  get-set_forwarded_for :
      (ip : Option String) (h : L.Headers) (j : String)
      → L.get (set_forwarded_for L h req ip) j
        ≡ (if "x-forwarded-for" == j then or_else (forwarded_for ip) (L.get h j) else L.get h j)
  unfolding set_forwarded_for
  get-set_forwarded_for none h j = elim (Option-cases (L.get req.headers "x-forwarded-for")) [
    | inl e ↦ rw (e, set_forwarded_for) (ground arith)
    | inr (v, e) ↦ rw (e, set_forwarded_for) (ground (arith, L.get_insert h "x-forwarded-for" v j))
  ]
  get-set_forwarded_for (some ip) h j = elim (Option-cases (L.from_str ip)) [
    | inl e ↦ rw (e, set_forwarded_for) (ground arith)
    | inr (v, e) ↦ rw (e, set_forwarded_for) (ground (arith, L.get_insert h "x-forwarded-for" v j))
  ]

  module _ (remote_ip : Option String) where
    -- What `append_forwarded_headers` leaves under a name, where `before` stood.
    abbrev pub after_forwarded : String → Option L.Value → Option L.Value
    after_forwarded j before =
        if "x-forwarded-host" == j && is_some (L.get req.headers "host")
        then L.get req.headers "host"
        else if "x-forwarded-proto" == j
        then some (forwarded_proto L req)
        else if "x-forwarded-for" == j
        then or_else (forwarded_for remote_ip) before
        else before

    pub get-append_forwarded :
        (h : L.Headers) (j : String)
        → L.get (append_forwarded_headers L h req remote_ip) j ≡ after_forwarded j (L.get h j)
    unfolding append_forwarded_headers
    get-append_forwarded h j =
        let h₁ = set_forwarded_for L h req remote_ip in
        let h₂ = L.insert h₁ "x-forwarded-proto" (forwarded_proto L req) in
        rw
          (
            get-set_forwarded_host h₂ j,
            L.get_insert h₁ "x-forwarded-proto" (forwarded_proto L req) j,
            get-set_forwarded_for remote_ip h j,
          )
          refl
