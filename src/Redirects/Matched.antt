-- ===== src/Redirects/Matched.antt =====
-- The entry that is chosen, and what an internal rewrite keeps.
use weave_gate.Common.{
  String, ◌≡◌, refl, ◌∙◌, ap, inl, inr, true, false, Option, none, some, List, [], ◌∷◌, ◌++◌, ◌==◌,
  All, Result, ok, err, ◌>>=◌, Option-cases, Bool-cases,
}
use weave_gate.Http.{Http, Request}
use weave_gate.Redirects.{
  Redirects, Rewrites, Texts, redirect_fits, get_redirection, host_of, rewritten, rewrite_request,
  merge_uris, rewrite_with, RedirectsKind, rewrite_by, answer_or_go_on, rewrites_answer,
  rewrite_uri_path,
}

-- Either no entry fits, or the first that does is chosen.
pub data IsFirstRedirect (uri_host uri_path : String) (rs : List Redirects)
    : Option Redirects → Type 0 where
  no_match :
      All (λ r. redirect_fits uri_host uri_path r ≡ false) rs
      → IsFirstRedirect uri_host uri_path rs none
  first_match :
      (before after : List Redirects) (r : Redirects)
      → rs ≡ before ++ (r ∷ after)
      → All (λ r'. redirect_fits uri_host uri_path r' ≡ false) before
      → redirect_fits uri_host uri_path r ≡ true
      → IsFirstRedirect uri_host uri_path rs (some r)

one_more :
    (uri_host uri_path : String) (r : Redirects) (rs : List Redirects) (o : Option Redirects)
    → redirect_fits uri_host uri_path r ≡ false
    → IsFirstRedirect uri_host uri_path rs o
    → IsFirstRedirect uri_host uri_path (r ∷ rs) o
one_more uri_host uri_path r rs none f (no_match all_unfit) = no_match (f, all_unfit)
one_more uri_host uri_path r rs (some _) f (first_match before after r' e unfit fits) =
    first_match (r ∷ before) after r' (ap (◌∷◌ r) e) (f, unfit) fits

-- The redirect that is chosen is the first whose host, if it has one, is the request's and whose
-- pattern matches the path; none is chosen only where none fits.
pub get_redirection-IsFirstRedirect :
    (uri_host uri_path : String) (rs : List Redirects)
    → IsFirstRedirect uri_host uri_path rs (get_redirection uri_host uri_path rs)
unfolding get_redirection
get_redirection-IsFirstRedirect uri_host uri_path [] = no_match tt
get_redirection-IsFirstRedirect uri_host uri_path (r ∷ rs) =
    elim (Bool-cases (redirect_fits uri_host uri_path r)) [
      | inl f ↦ rw (f, get_redirection) (first_match [] rs r refl tt f)
      | inr f ↦
          rw (f, get_redirection)
            (one_more uri_host uri_path r rs _ f
              (get_redirection-IsFirstRedirect uri_host uri_path rs))
    ]

module _ (L : Http) (texts : Texts L) where
  -- The rest of a request, beside its URI and its `Host`, is the same.
  pub record IsRewritten (req req' : Request L) : Type 0 where
    pub same_method : req'.method ≡ req.method
    pub same_body : req'.body ≡ req.body
    pub same_headers :
        (j : String) → ("host" == j) ≡ false → L.get req'.headers j ≡ L.get req.headers j

  unchanged : (req : Request L) → IsRewritten req req
  unchanged req = record { same_method = refl; same_body = refl; same_headers = λ j h. refl }

  rewritten-IsRewritten :
      (req : Request L) (uri : L.Uri) → IsRewritten req (rewritten L texts req uri)
  unfolding rewritten
  rewritten-IsRewritten req uri = record {
    same_method = refl;
    same_body = refl;
    same_headers = λ j h. go j h (host_of L texts uri);
  }
    where
      go :
          (j : String)
          → ("host" == j) ≡ false
          → (o : Option L.Value)
          → L.get (elim o [ none ↦ req.headers | some host ↦ L.insert req.headers "host" host ]) j
            ≡ L.get req.headers j
      go j h none = refl
      go j h (some host) = L.get_insert req.headers "host" host j ∙ rw h refl

  answer_or_go_on-IsRewritten :
      (req : Request L) (dest : Result String)
      → IsRewritten req (answer_or_go_on L texts req (rewrite_request L texts req dest)).1
  unfolding answer_or_go_on rewrite_request
  answer_or_go_on-IsRewritten req (err e) = unchanged req
  answer_or_go_on-IsRewritten req (ok text) = go (merge_uris L texts req.uri text)
    where
      go :
          (m : Result L.Uri)
          → IsRewritten req
              (answer_or_go_on L texts req (m >>= λ uri. ok (rewritten L texts req uri))).1
      go (err e) = unchanged req
      go (ok uri) = rewritten-IsRewritten req uri

  rewrite_by-IsRewritten :
      (kind : Option RedirectsKind) (dest : Result String) (req : Request L)
      → IsRewritten req (rewrite_by L texts kind dest req).1
  unfolding rewrite_by
  rewrite_by-IsRewritten (some kind) dest req = unchanged req
  rewrite_by-IsRewritten none dest req = answer_or_go_on-IsRewritten req dest

  -- Whatever entry matches, the steps behind the rewrites see a request with the method, the body
  -- and all headers but `Host` of the one that came in.
  pub rewrites_answer-IsRewritten :
      (rewrites : Option (List Rewrites)) (req : Request L)
      → IsRewritten req (rewrites_answer L texts rewrites req).1
  unfolding rewrites_answer rewrite_with
  rewrites_answer-IsRewritten none req = unchanged req
  rewrites_answer-IsRewritten (some rewrites) req =
      elim (Option-cases (rewrite_uri_path (L.path req.uri) rewrites)) [
        | inl e ↦ rw (e, rewrites_answer) (unchanged req)
        | inr (matched, e) ↦ rw (e, rewrites_answer) (rewrite_by-IsRewritten matched.redirect _ req)
      ]
