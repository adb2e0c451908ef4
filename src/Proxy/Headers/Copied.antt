-- ===== src/Proxy/Headers/Copied.antt =====
-- What a header map holds after the loops over it.
use weave_gate.Common.{
  String, ◌≡◌, refl, Bool, Option, none, some, List, [], ◌∷◌, ◌==◌, eq_iff, any, arith, or_else,
  if◌then◌else◌, Bool-cases, inl, inr, ap, ◌∙◌,
}
use weave_gate.Http.{Http}
use weave_gate.Proxy.Headers.{copy_headers, remove_all}

-- the last value under a name
abbrev pub last_value {ℓ} : {V : Type ℓ} → String → List (String × V) → Option V
last_value j [] = none
last_value j ((k, v) ∷ l) = or_else (last_value j l) (if k == j then some v else none)

module _ (L : Http) where
  pub get-remove_all :
      (names : List String) (h : L.Headers) (j : String)
      → L.get (remove_all L names h) j ≡ (if any (λ n. n == j) names then none else L.get h j)
  unfolding remove_all
  get-remove_all [] h j = refl
  get-remove_all (n ∷ names) h j =
      get-remove_all names (L.remove h n) j ∙ ground (arith, L.get_remove h n j)

  pub get-copy_headers :
      (skip : String → Bool) (src : List (String × L.Value)) (dst : L.Headers) (j : String)
      → L.get (copy_headers L skip src dst) j
        ≡ (if skip j then L.get dst j else or_else (last_value j src) (L.get dst j))
  unfolding copy_headers
  get-copy_headers skip [] dst j = ground arith
  get-copy_headers skip ((k, v) ∷ src) dst j =
      let rest = if skip k then dst else L.insert dst k v in
      get-copy_headers skip src rest j ∙ elim (Bool-cases (k == j)) [
        | inl e ↦
            let same : skip k ≡ skip j = ap skip ((eq_iff k j).0 e) in
            ground (arith, L.get_insert dst k v j)
        | inr e ↦ ground (arith, L.get_insert dst k v j)
      ]
