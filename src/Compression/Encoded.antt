-- ===== src/Compression/Encoded.antt =====
-- What the compression of bodies does to a response.
use Prim.Native.String.{◌++◌}
use weave_gate.Common.{
  String, ◌≡◌, ◌⊎◌, inl, inr, refl, ◌∙◌, true, false, Option, none, some, ◌==◌, arith, Bool-cases,
  Option-cases, is_some, if◌then◌else◌,
}
use weave_gate.Common.Text.{contains}
use weave_gate.Common.Text.Laws.{contains-append}
use weave_gate.Http.{Http, Request, Response}
use weave_gate.Encodings.{ContentCoding, as_str, get_preferred_encoding}
use weave_gate.Compression.{
  Coders, text_of, vary_text, vary, create_encoding_header, encoded, skips_type, auto, with_vary,
  post_process,
}

module _ (L : Http) (c : Coders L) where
  get-encoded :
      (coding : ContentCoding) (resp : Response L) (j : String)
      → L.get resp.headers "content-encoding" ≡ none
      → L.get (encoded L c coding resp).headers j ≡ (
          if "content-encoding" == j
          then some (L.from_static (as_str coding))
          else if "content-length" == j
          then none
          else L.get resp.headers j)
  unfolding encoded create_encoding_header
  get-encoded coding resp j h =
      let h₁ = L.remove resp.headers "content-encoding" in
      let h₂ = L.remove h₁ "content-length" in
      rw (encoded, h, create_encoding_header)
        (ground (
          arith,
          L.get_insert h₂ "content-encoding" (L.from_static (as_str coding)) j,
          L.get_remove h₁ "content-length" j,
          L.get_remove resp.headers "content-encoding" j,
        ))

  with_vary-bare :
      (resp : Response L)
      → L.get resp.headers "content-encoding" ≡ none
      → L.get (with_vary L c resp).headers "content-encoding" ≡ none
  unfolding with_vary
  with_vary-bare resp h =
      L.get_insert resp.headers "vary" (vary L (L.get resp.headers "vary")) "content-encoding" ∙ h

  contains_at_end : (a : String) → contains (a ++ "accept-encoding") "accept-encoding" ≡ true
  contains_at_end a = contains-append a "accept-encoding" ""

  -- `Vary` names the codings that a client accepts.
  pub Varies : L.Value → Type 0
  Varies v = (t : String) × (v ≡ L.from_static t) × (contains t "accept-encoding" ≡ true)

  vary_text-contains : (a : String) → contains (vary_text L a) "accept-encoding" ≡ true
  unfolding vary_text
  vary_text-contains a = elim (Bool-cases (contains a "accept-encoding")) [
    | inl e ↦ rw (vary_text, e) e
    | inr e ↦ rw (vary_text, e) (contains_at_end _)
  ]

  vary-Varies : (o : Option L.Value) → Varies (vary L o)
  unfolding vary Varies
  vary-Varies none = ("accept-encoding", refl, contains_at_end "")
  vary-Varies (some h) = (vary_text L (text_of L h), refl, vary_text-contains (text_of L h))

  -- The body in a coding that the client prefers, which is named, without a length.
  pub record IsEncoded (req : Request L) (resp resp' : Response L) : Type 0 where
    pub coding : ContentCoding
    pub preferred :
        get_preferred_encoding c.parse_quality (c.accept_encoding req.headers) ≡ some coding
    pub not_head : (req.method == "HEAD") ≡ false
    pub not_options : (req.method == "OPTIONS") ≡ false
    pub worth : skips_type L c (with_vary L c resp).headers ≡ false
    pub body : resp'.body ≡ c.encode coding resp.body
    pub status : resp'.status ≡ resp.status
    pub headers :
        (j : String)
        → L.get resp'.headers j ≡ (
            if "content-encoding" == j
            then some (L.from_static (as_str coding))
            else if "content-length" == j
            then none
            else if "vary" == j
            then some (vary L (L.get resp.headers "vary"))
            else L.get resp.headers j)

  encoded-IsEncoded :
      (req : Request L) (resp : Response L) (coding : ContentCoding)
      → L.get resp.headers "content-encoding" ≡ none
      → get_preferred_encoding c.parse_quality (c.accept_encoding req.headers) ≡ some coding
      → (req.method == "HEAD") ≡ false
      → (req.method == "OPTIONS") ≡ false
      → skips_type L c (with_vary L c resp).headers ≡ false
      → IsEncoded req resp (encoded L c coding (with_vary L c resp))
  unfolding encoded with_vary
  encoded-IsEncoded req resp coding bare p hd op w = record {
    coding = coding;
    preferred = p;
    not_head = hd;
    not_options = op;
    worth = w;
    body = refl;
    status = refl;
    headers = λ j.
        get-encoded coding (with_vary L c resp) j (with_vary-bare resp bare)
        ∙ ground (arith, L.get_insert resp.headers "vary" (vary L (L.get resp.headers "vary")) j);
  }

  -- With compression on: what is compressed already stays as it is. Any other response gets a `Vary`
  -- that names the codings a client accepts, and either nothing else of it changes or its body is
  -- encoded: in the client's preferred coding, which is named, without a length, not for `HEAD` or
  -- `OPTIONS`, not for a type that is known and not compressible, and with all other headers kept.
  pub post_process-cases :
      (req : Request L) (resp : Response L)
      → ((is_some (L.get resp.headers "content-encoding") ≡ true)
          × (post_process L c true req resp ≡ resp))
        ⊎ ((L.get resp.headers "content-encoding" ≡ none)
            × Varies (vary L (L.get resp.headers "vary"))
            × ((post_process L c true req resp ≡ with_vary L c resp)
                ⊎ IsEncoded req resp (post_process L c true req resp)))
  unfolding post_process auto
  post_process-cases req resp = elim (Option-cases (L.get resp.headers "content-encoding")) [
    | inr (v, e) ↦ inl (rw e refl, rw (post_process, e) refl)
    | inl e ↦ inr (e, vary-Varies (L.get resp.headers "vary"), bare e)
  ]
    where
      bare :
          L.get resp.headers "content-encoding" ≡ none
          → (post_process L c true req resp ≡ with_vary L c resp)
            ⊎ IsEncoded req resp (post_process L c true req resp)
      bare e = elim (Bool-cases (req.method == "HEAD")) [
        | inl hd ↦ inl (rw (post_process, e, auto, hd) refl)
        | inr hd ↦ elim (Bool-cases (req.method == "OPTIONS")) [
          | inl op ↦ inl (rw (post_process, e, auto, hd, op) refl)
          | inr op ↦
              elim (Option-cases
                (get_preferred_encoding c.parse_quality (c.accept_encoding req.headers))) [
                  | inl p ↦ inl (rw (post_process, e, auto, hd, op, p) refl)
                  | inr (coding, p) ↦
                      elim (Bool-cases (skips_type L c (with_vary L c resp).headers)) [
                        | inl w ↦ inl (rw (post_process, e, auto, hd, op, p, w) refl)
                        | inr w ↦ inr (
                            rw (post_process, e, auto, hd, op, p, w)
                              (encoded-IsEncoded req resp coding e p hd op w))
                      ]
                ]
        ]
      ]
