-- ===== src/Redirects/Tests.antt =====
-- Runs of the redirects and rewrites.
use weave_gate.Common.{String, ◌≡◌, refl, true, none, some, [], ◌∷◌}
use weave_gate.Common.Text.{strip_prefix, split_once}
use weave_gate.Http.Assoc.{assoc}
use weave_gate.Redirects.{Redirects, Rewrites, Regex, Texts, get_redirection, rewrites_answer}
use weave_gate.Redirects.Matched.{IsRewritten, rewrites_answer-IsRewritten}
use weave_gate.Proxy.Tests.{req}

-- a pattern for the texts that begin with one, which captures the rest
abbrev pub starting : String → Regex
starting prefix path = elim (strip_prefix path prefix) [
  | none ↦ none
  | some rest ↦ some (path ∷ rest ∷ [])
]

-- texts whose only placeholder stands at the end and is the first group
abbrev pub texts : Texts assoc
texts = record {
  replace_all = λ dest caps. some dest;
  from_parts = λ scheme authority pq. some (record {
    scheme = scheme;
    authority = authority;
    host = authority;
    port = none;
    path = elim pq [ none ↦ "/" | some p ↦ p ];
    query = none;
  });
  path_query = λ pq. elim (split_once b'?' pq) [ none ↦ none | some (path, query) ↦ some query ];
  valid_path = λ pq. true;
}

abbrev docs : Redirects
docs = record {
  host = some "docs.example";
  source = starting "/";
  destination = "/docs";
  kind = 301;
}

abbrev old : Redirects
old = record { host = none; source = starting "/old"; destination = "/new"; kind = 308 }

second : get_redirection "gateway.local" "/old/page" (docs ∷ old ∷ []) ≡ some old
unfolding get_redirection strip_prefix
second = refl

abbrev pub to_index : Rewrites
to_index = record { source = starting "/api"; destination = "/index.html"; redirect = none }

rewrites_answer-IsRewritten_example :
    IsRewritten assoc texts req (rewrites_answer assoc texts (some (to_index ∷ [])) req).1
rewrites_answer-IsRewritten_example =
    rewrites_answer-IsRewritten assoc texts (some (to_index ∷ [])) req
