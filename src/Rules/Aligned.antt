-- ===== src/Rules/Aligned.antt =====
-- Every compiled rule has one template for each instance of its balancer.
use weave_gate.Common.{
  String, ◌≡◌, refl, subst, ◌<◌, Option, some, List, [], ◌∷◌, arith, length, ok, ok_or, traverse,
  >>=-eq-ok, ok_or-eq-ok,
}
use weave_gate.Common.Pairs.{Pairs, traverse-Pairs, Pairs-weaken, ok_inj}
use weave_gate.Http.{Http}
use weave_gate.Balancer
use weave_gate.Balancer.{Balancer, len}
use weave_gate.Routes.{Proxy, validate_prefix}
use weave_gate.Routes.Document.{IsRootedIfGiven, prefix_iff}
use weave_gate.Rules.{
  Glob, ProxyRule, upstream_uri_template, compile_proxy_targets, compile_rule, compile_proxy_rules,
}

module _ (L : Http) where
  -- A rule has instances, each with its own template at its index, and a prefix, if any, that
  -- begins with a slash.
  pub record IsAligned (r : ProxyRule L) : Type 0 where
    pub some_target : 0 < len r.balancer
    pub one_each :
        Pairs
          (λ u t. upstream_uri_template L r.strip_prefix u ≡ ok t)
          r.balancer.targets
          r.uri_templates
    pub prefix : IsRootedIfGiven r.strip_prefix

  -- What a definition and the rule that it is compiled to have in common.
  pub record IsCompiled (glob_new : String → Option Glob) (def : Proxy) (r : ProxyRule L)
      : Type 0 where
    pub same_host : r.host ≡ def.host
    pub same_source : glob_new def.source ≡ some r.source
    pub fresh : r.balancer.next ≡ 0
    pub aligned : IsAligned r

  new_lem :
      (name : Option String) (us : List L.Uri) (b : Balancer L.Uri)
      → Balancer.new name us ≡ ok b
      → (b.targets ≡ us) × (b.next ≡ 0) × (0 < length us)
  unfolding Balancer.new
  new_lem name [] b h = cc
  new_lem name (u ∷ us) b h = (ground arith, ground arith, omega arith)

  module _ (glob_new : String → Option Glob) where
    compile_rule-IsCompiled :
        (def : Proxy) (r : ProxyRule L)
        → compile_rule L glob_new def ≡ ok r
        → IsCompiled glob_new def r
    unfolding compile_rule
    compile_rule-IsCompiled def r h =
        let (source, e₁, h₁) = >>=-eq-ok (ok_or (glob_new def.source) _) _ h in
        let (t, e₂, h₂) = >>=-eq-ok (validate_prefix def.strip_prefix _) _ h₁ in
        let (us, e₃, h₃) = >>=-eq-ok (compile_proxy_targets L def) _ h₂ in
        let (ts, e₄, h₄) =
          >>=-eq-ok (traverse (upstream_uri_template L def.strip_prefix) us) _ h₃ in
        let (b, e₅, h₅) = >>=-eq-ok (Balancer.new def.name us) _ h₄ in
        let (same, zeroed, pos) = new_lem def.name us b e₅ in
        subst (IsCompiled glob_new def) (ok_inj h₅) (record {
          same_host = refl;
          same_source = ok_or-eq-ok _ _ e₁;
          fresh = zeroed;
          aligned = record {
            some_target = rw same pos;
            one_each = rw same (traverse-Pairs _ us ts e₄);
            prefix = (prefix_iff def.strip_prefix _).0 e₂;
          };
        })

    -- Compilation keeps the order and the number of the definitions, and each rule has its
    -- definition's host and glob, starts with its first instance, and is aligned.
    pub compile_proxy_rules_lem :
        (defs : List Proxy) (rules : List (ProxyRule L))
        → compile_proxy_rules L glob_new defs ≡ ok rules
        → Pairs (IsCompiled glob_new) defs rules
    unfolding compile_proxy_rules
    compile_proxy_rules_lem defs rules h =
        Pairs-weaken (IsCompiled glob_new) compile_rule-IsCompiled (traverse-Pairs _ defs rules h)
