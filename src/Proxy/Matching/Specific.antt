-- ===== src/Proxy/Matching/Specific.antt =====
-- The rule that is found is the most specific of those that fit.
use weave_gate.Common.{
  ℕ, zero, suc, String, ◌≡◌, refl, sym, ap, ◌∙◌, subst, inl, inr, true, Option, some, List, [], ◌∷◌,
  ◌++◌, All, All-get, arith, get_elem?, ok,
}
use weave_gate.Common.Pairs.{Pairs, none_left, pair, some_inj}
use weave_gate.Http.{Http, Request}
use weave_gate.Routes.{Proxy}
use weave_gate.Rules.{Glob, ProxyRule, compile_proxy_rules, sort_proxy_defs_by_specificity}
use weave_gate.Rules.Specificity.{Precedes, Descending, sort_proxy_defs_lem}
use weave_gate.Rules.Aligned.{IsCompiled, compile_proxy_rules_lem}
use weave_gate.Proxy.Matching.{request_host, host_fits, find_rule}
use weave_gate.Proxy.Matching.First.{Unfit, find_rule-cases}

module _ (L : Http) (glob_new : String → Option Glob) where
  -- A definition applies to a host and a path: its host, if any, is that host, and its source
  -- compiles to a glob that matches the path.
  pub record Applies (host path : String) (def : Proxy) : Type 0 where
    pub host_ok : host_fits L def.host host ≡ true
    pub glob : Glob
    pub compiled : glob_new def.source ≡ some glob
    pub matches : glob path ≡ true

  module _ (host path : String) where
    Unfit-def :
        (def : Proxy) (r : ProxyRule L)
        → IsCompiled L glob_new def r
        → Unfit L host path r
        → ¬ Applies host path def
    Unfit-def def r c u a =
        let g : r.source ≡ a.glob = some_inj (sym c.same_source ∙ a.compiled) in
        let m : r.source path ≡ true = ap (λ (f : Glob). f path) g ∙ a.matches in
        let q : host_fits L r.host host ≡ true = rw c.same_host a.host_ok in cc (rw (q, m) at u)

    Descending-append : (l m : List Proxy) → Descending (l ++ m) → Descending m
    Descending-append [] m h = h
    Descending-append (d ∷ l) m h = Descending-append l m h.1

    Precedes-self : (d : Proxy) → Precedes d d
    Precedes-self d = inr (refl, omega arith)

    first_Precedes :
        {before : List Proxy} {rules : List (ProxyRule L)} (d e : Proxy) (after : List Proxy)
        (j : ℕ)
        → Pairs (IsCompiled L glob_new) before rules
        → All (Unfit L host path) rules
        → All (Precedes d) after
        → get_elem? (before ++ (d ∷ after)) j ≡ some e
        → Applies host path e
        → Precedes d e
    first_Precedes d e after zero none_left u p h a =
        subst (Precedes d) (some_inj h) (Precedes-self d)
    first_Precedes d e after (suc j) none_left u p h a = All-get (Precedes d) after j e p h
    first_Precedes d e after zero (pair {x} {y} c cs) (v, u) p h a =
        absurd (Unfit-def x y c v (subst (Applies host path) (sym (some_inj h)) a))
    first_Precedes d e after (suc j) (pair {xs} {ys} c cs) (v, u) p h a =
        first_Precedes {before = xs} {rules = ys} d e after j cs u p h a

    -- the definitions of a list of rules that is split at one of them
    split_defs :
        (defs : List Proxy) (before after : List (ProxyRule L)) (r : ProxyRule L)
        → Pairs (IsCompiled L glob_new) defs (before ++ (r ∷ after))
        → (front : List Proxy) × (d : Proxy) × (back : List Proxy) × (defs ≡ front ++ (d ∷ back))
          × IsCompiled L glob_new d r
          × Pairs (IsCompiled L glob_new) front before
    split_defs defs [] after r (pair {x} {xs} c cs) = ([], x, xs, refl, c, none_left)
    split_defs defs (b ∷ before) after r (pair {x} {xs} c cs) =
        let (front, d, back, e, c', cs') = split_defs xs before after r cs in
        (x ∷ front, d, back, ap (◌∷◌ x) e, c', pair c cs')

  -- Among the sorted and compiled definitions, the rule that a request is given comes from a
  -- definition that precedes every definition that applies to the request: its source is longer,
  -- or as long and with at least as many stars.
  pub find_rule-Precedes :
      (defs : List Proxy) (rules : List (ProxyRule L)) (req : Request L) (host : String)
      (found : ℕ × ProxyRule L) (e : Proxy) (j : ℕ)
      → compile_proxy_rules L glob_new (sort_proxy_defs_by_specificity defs) ≡ ok rules
      → request_host L req ≡ some host
      → find_rule L (some rules) req ≡ some found
      → get_elem? (sort_proxy_defs_by_specificity defs) j ≡ some e
      → Applies host (L.path req.uri) e
      → (d : Proxy) × IsCompiled L glob_new d found.1 × Precedes d e
  find_rule-Precedes defs rules req host found e j compiled h f there a =
      elim (find_rule-cases L rules req host h) [
        | inl (none_fits, n) ↦ cc (n, f)
        | inr (found', first, f') ↦
            let path = L.path req.uri in
            let sorted = sort_proxy_defs_by_specificity defs in
            let cs = compile_proxy_rules_lem L glob_new sorted rules compiled in
            let (front, d, back, s, c, cs') =
              split_defs host path sorted first.before first.after found'.1
                (subst (Pairs (IsCompiled L glob_new) sorted) first.split cs) in
            let descending =
              Descending-append host path front (d ∷ back)
                (subst Descending s (sort_proxy_defs_lem defs).1) in
            (
              d,
              subst (λ (z : ℕ × ProxyRule L). IsCompiled L glob_new d z.1) (some_inj (sym f' ∙ f))
                  c,
              first_Precedes host path d e back j cs' first.unfit descending.0
                  (subst (λ l. get_elem? l j ≡ some e) s there) a,
            )
      ]
