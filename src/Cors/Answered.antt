-- ===== src/Cors/Answered.antt =====
-- What the handler's last step for cross-origin requests does to a response.
use weave_gate.Common.{
  String, ◌≡◌, refl, sym, ap, ◌∙◌, false, Option, none, some, List, [], ◌∷◌, ◌==◌, eq_refl, is_nil,
  or_else, if◌then◌else◌, arith,
}
use weave_gate.Http.{Http, Request, Response, first_value}
use weave_gate.Cors.{
  Configured, Validated, valid, check_request, insert_all, add_headers, post_process,
}
use weave_gate.Proxy.Headers.Copied.{last_value}

module _ (L : Http) (method_of : L.Value → Option String) (name_of : String → Option String) where
  cons_found :
      (k : String) (v : L.Value) (l : List (String × L.Value)) → first_value k ((k, v) ∷ l) ≡ some v
  unfolding first_value
  cons_found k v l = rw (eq_refl k) refl

  -- An empty map has no items.
  iter_empty : L.iter L.empty ≡ []
  iter_empty = go (L.iter L.empty) refl
    where
      clash : {v : L.Value} → none ≡ some v → ⊥
      clash h = cc

      go : (l : List (String × L.Value)) → L.iter L.empty ≡ l → L.iter L.empty ≡ []
      go [] e = e
      go ((k, v) ∷ l) e = absurd (
          clash (
            sym (L.get_empty k)
            ∙ (L.get_iter L.empty k ∙ (ap (first_value k) e ∙ cons_found k v l))))

  get-insert_all :
      (src : List (String × L.Value)) (dst : L.Headers) (j : String)
      → L.get (insert_all L method_of name_of src dst) j ≡ or_else (last_value j src) (L.get dst j)
  unfolding insert_all
  get-insert_all [] dst j = refl
  get-insert_all ((k, v) ∷ src) dst j =
      get-insert_all src (L.insert dst k v) j ∙ ground (arith, L.get_insert dst k v j)

  -- If the check gives headers, the response has these in place of its own ones of their names,
  -- it varies with the origin, and it lists no allowed methods. Every other header is as it was.
  pub get-post_process :
      (c : Configured L) (req : Request L) (resp : Response L) (h : L.Headers) (state : Validated L)
      (j : String)
      → check_request L method_of name_of c req.method req.headers ≡ valid h state
      → is_nil (L.iter h) ≡ false
      → L.get (post_process L method_of name_of (some c) req resp).headers j ≡ (
          if "allow" == j
          then none
          else if "vary" == j
          then some (L.from_static "origin")
          else or_else (last_value j (L.iter h)) (L.get resp.headers j))
  unfolding post_process add_headers
  get-post_process c req resp h state j e n =
      let filled = insert_all L method_of name_of (L.iter h) resp.headers in
      rw (e, post_process, n, add_headers)
        (L.get_remove (L.insert filled "vary" (L.from_static "origin")) "allow" j
          ∙ ground (
            arith,
            L.get_insert filled "vary" (L.from_static "origin") j,
            get-insert_all (L.iter h) resp.headers j,
          ))
