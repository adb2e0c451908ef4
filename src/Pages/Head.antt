-- ===== src/Pages/Head.antt =====
-- The answers to `HEAD`, and the default page.
use Prim.Native.String.{len, ◌++◌}
use text.Mathlib.TextLemmas.{cons-append}
use weave_gate.Common.{
  ℕ, String, ◌≡◌, ◌≢◌, refl, ◌∙◌, Bool, true, false, Option, some, ◌==◌, Bool-cases, inl, inr,
}
use weave_gate.Common.Text.{is_empty, decimal}
use weave_gate.Http.{Http}
use weave_gate.Pages.{
  html, page_response, configured_page, page_content, default_page, error_response,
}

module _ (L : Http) (files : String → Option String) (reason : ℕ → String) where
  get-page_response :
      (is_head : Bool) (status : ℕ) (content : String)
      → L.get (page_response L is_head status content).headers "content-length"
        ≡ some (L.from_static (decimal (len content)))
  unfolding page_response
  get-page_response is_head status content =
      let h₁ = L.insert L.empty "content-type" (L.from_static html) in
      let h₂ = L.insert h₁ "content-length" (L.from_static (decimal (len content))) in
      L.get_insert h₂ "accept-ranges" (L.from_static "bytes") "content-length"
      ∙ L.get_insert h₁ "content-length" (L.from_static (decimal (len content))) "content-length"

  is_empty_ne : (s : String) → is_empty s ≡ false → s ≢ ""
  is_empty_ne String.[] e h = cc
  is_empty_ne (String.◌∷◌ ch s) e h = cc

  append_ne : (s t : String) → is_empty s ≡ false → s ++ t ≢ ""
  append_ne String.[] t e = cc
  append_ne (String.◌∷◌ ch s) t e = rw cons-append (λ h. cc)

  page_content-ne :
      (status : ℕ) (page404 page50x : String)
      → page_content L files reason status page404 page50x ≢ ""
  unfolding page_content default_page
  page_content-ne status page404 page50x =
      elim (Bool-cases (is_empty (configured_page L files reason status page404 page50x))) [
        | inl e ↦ rw (e, page_content) (append_ne _ _ refl)
        | inr e ↦ rw (e, page_content) (is_empty_ne _ e)
      ]

  -- An error page for `HEAD` has the status and the headers of the page for `method`, and no body;
  -- both announce the length of the page, which is never empty.
  pub error_response-head :
      (method : String) (status : ℕ) (page404 page50x : String)
      → (method == "HEAD") ≡ false
      → let page = error_response L files reason method status page404 page50x in
        let head = error_response L files reason "HEAD" status page404 page50x in
        (head.status ≡ status)
        × (page.status ≡ status)
        × (head.headers ≡ page.headers)
        × (head.body ≡ "")
        × (L.get head.headers "content-length" ≡ some (L.from_static (decimal (len page.body))))
        × (page.body ≢ "")
  unfolding error_response page_response
  error_response-head method status page404 page50x h =
      let content = page_content L files reason status page404 page50x in
      rw h (
        refl,
        refl,
        refl,
        refl,
        get-page_response true status content,
        page_content-ne status page404 page50x,
      )
