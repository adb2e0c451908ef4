-- ===== src/Proxy/Upstream/Rotated.antt =====
-- A request is sent to the instance whose turn it is.
use native.Mathlib.Nat.{mod-lt}
use weave_gate.Common.{◌≡◌, refl, ◌%◌, some, get_elem?, get_elem?_total, ok}
use weave_gate.Common.Pairs.{Pairs-get}
use weave_gate.Http.{Http}
use weave_gate.Balancer.{len, next_index}
use weave_gate.Rules.{UpstreamUriTemplate, ProxyRule, upstream_uri_template}
use weave_gate.Rules.Aligned.{IsAligned}
use weave_gate.Proxy.Upstream.{build_upstream_uri_from_template, upstream_uri_for_rule}

module _ (L : Http) (rule : ProxyRule L) (aligned : IsAligned L rule) where
  -- A request under an aligned rule always finds a template: the one that was built for the
  -- instance whose turn it is, with the rule's prefix. The rule stays aligned.
  pub upstream_uri_for_rule_lem :
      (req_uri : L.Uri)
      → (target : L.Uri) × (template : UpstreamUriTemplate) × (get_elem? rule.balancer.targets
            (rule.balancer.next % len rule.balancer)
          ≡ some target)
        × (upstream_uri_template L rule.strip_prefix target ≡ ok template)
        × ((upstream_uri_for_rule L rule req_uri).0
            ≡ build_upstream_uri_from_template L template req_uri)
        × IsAligned L (upstream_uri_for_rule L rule req_uri).1
  unfolding upstream_uri_for_rule next_index
  upstream_uri_for_rule_lem req_uri =
      let n = rule.balancer.next % len rule.balancer in
      let (target, found) =
        get_elem?_total rule.balancer.targets n (mod-lt _ aligned.some_target) in
      let (template, there, built) = Pairs-get n aligned.one_each found in
      (
        target,
        template,
        found,
        built,
        rw there refl,
        record {
          some_target = aligned.some_target;
          one_each = aligned.one_each;
          prefix = aligned.prefix;
        },
      )
