-- ===== src/Proxy/Matching/First.antt =====
-- The rule that is found is the first that fits.
use weave_gate.Common.{
  ℕ, suc, ◌+◌, String, ◌≡◌, refl, ap, ◌∙◌, ◌⊎◌, inl, inr, true, false, none, some, List, [], ◌∷◌,
  ◌++◌, All, arith, length, Bool-cases,
}
use weave_gate.Http.{Http, Request}
use weave_gate.Rules.{ProxyRule}
use weave_gate.Proxy.Matching.{request_host, rule_fits, find_from, find_rule}

module _ (L : Http) where
  abbrev pub Unfit : String → String → ProxyRule L → Type 0
  Unfit host path r = rule_fits L host path r ≡ false

  -- A rule fits, no rule before it does, and it is `found`, which is its index and the rule.
  pub record IsFirst (host path : String) (rules : List (ProxyRule L)) (found : ℕ × ProxyRule L)
      : Type 0 where
    pub before : List (ProxyRule L)
    pub after : List (ProxyRule L)
    pub split : rules ≡ before ++ (found.1 ∷ after)
    pub index : found.0 ≡ length before
    pub fits : rule_fits L host path found.1 ≡ true
    pub unfit : All (Unfit host path) before

  module _ (host path : String) where
    find_from-cases :
        (i : ℕ) (rules : List (ProxyRule L))
        → (All (Unfit host path) rules × (find_from L i host path rules ≡ none))
          ⊎ ((k : ℕ) × (r : ProxyRule L) × IsFirst host path rules (k, r)
              × (find_from L i host path rules ≡ some (i + k, r)))
    unfolding find_from
    find_from-cases i [] = inl (tt, refl)
    find_from-cases i (r ∷ rules) = elim (Bool-cases (rule_fits L host path r)) [
      | inl fits ↦ inr (
        0,
        r,
        record { before = []; after = rules; split = refl; index = refl; fits = fits; unfit = tt },
        rw fits (ap (λ (j : ℕ). some (j, r)) (omega arith)),
      )
      | inr unfit ↦ elim (find_from-cases (suc i) rules) [
        | inl (none_fits, e) ↦ inl ((unfit, none_fits), rw unfit e)
        | inr (k, q, first, e) ↦ inr (
          suc k,
          q,
          record {
            before = r ∷ first.before;
            after = first.after;
            split = ap (◌∷◌ r) first.split;
            index = ap suc first.index;
            fits = first.fits;
            unfit = (unfit, first.unfit);
          },
          rw unfit (e ∙ ap (λ (j : ℕ). some (j, q)) (omega arith)),
        )
      ]
    ]

  -- For a request with a host, either no rule fits and none is found, or the first that fits is.
  pub find_rule-cases :
      (rules : List (ProxyRule L)) (req : Request L) (host : String)
      → request_host L req ≡ some host
      → (All (Unfit host (L.path req.uri)) rules × (find_rule L (some rules) req ≡ none))
        ⊎ ((found : ℕ × ProxyRule L) × IsFirst host (L.path req.uri) rules found
            × (find_rule L (some rules) req ≡ some found))
  unfolding find_rule
  find_rule-cases rules req host h = rw h (elim (find_from-cases host (L.path req.uri) 0 rules) [
    | inl none_fits ↦ inl none_fits
    | inr (k, r, first, e) ↦ inr ((k, r), first, e ∙ ap (λ (j : ℕ). some (j, r)) (omega arith))
  ])
