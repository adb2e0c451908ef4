-- ===== src/Cors/Tests.antt =====
-- Runs of the check of cross-origin requests.
use weave_gate.Common.{String, ◌≡◌, refl, true, none, some, List, [], ◌∷◌}
use weave_gate.Common.Text.{split, trim, strip_prefix}
use weave_gate.Http.{Request, Response, first_value}
use weave_gate.Http.Assoc.{assoc, drop_name}
use weave_gate.Cors.{
  Configured, preflight, valid, check_request, check_preflight, check_simple, cors_headers,
  append_preflight_headers, is_origin_allowed, is_method_allowed, is_header_allowed,
  requested_method_allowed, requested_headers_allowed, rejects,
}
use Prim.Native.String.{◌++◌}
use weave_gate.Common.{Option}
use weave_gate.Common.Text.{join}
use weave_gate.Cors.Built.{
  panicked, built, new, split_scheme, new_cors, extend, origin_set, map_all, build, into_origin,
  add_member, name_set, name_parts,
}
use weave_gate.Cors.Built.Members.{IsConfigured, new-IsConfigured}
use weave_gate.Cors.Checked.{IsValidCheck, check_request-IsValidCheck}
use weave_gate.Proxy.Tests.{req}

abbrev home : Configured assoc
home = record {
  cors = record {
    allowed_headers = "content-type" ∷ "x-token" ∷ [];
    exposed_headers = [];
    max_age = none;
    allowed_methods = "GET" ∷ "HEAD" ∷ "OPTIONS" ∷ [];
    origins = some ("https://home.example" ∷ []);
  };
  allowed_headers = "content-type, x-token";
  exposed_headers = "";
  methods_header = "GET, HEAD, OPTIONS";
}

abbrev asked : List (String × String)
asked =
    ("origin", "https://home.example")
    ∷ ("access-control-request-method", "GET")
    ∷ ("access-control-request-headers", "x-token, content-type")
    ∷ []

abbrev given : List (String × String)
given =
    ("access-control-allow-origin", "https://home.example")
    ∷ ("access-control-allow-methods", "GET, HEAD, OPTIONS")
    ∷ ("access-control-expose-headers", "")
    ∷ ("access-control-allow-headers", "content-type, x-token")
    ∷ []

checked :
    check_request assoc some some home "OPTIONS" asked
    ≡ valid given (preflight "https://home.example")
unfolding check_request check_preflight cors_headers append_preflight_headers is_origin_allowed
    is_method_allowed is_header_allowed requested_method_allowed requested_headers_allowed
    first_value drop_name split trim
checked = refl

check_request-IsValidCheck_example :
    IsValidCheck assoc some some home "OPTIONS" asked given (preflight "https://home.example")
check_request-IsValidCheck_example =
    check_request-IsValidCheck assoc some some home "OPTIONS" asked given
      (preflight "https://home.example") checked

abbrev resp : Response assoc
resp = record { status = 200; headers = ("allow", "GET") ∷ ("etag", "1") ∷ []; body = "home" }

abbrev foreign : Request assoc
foreign = record req { headers = ("origin", "https://evil.example") ∷ [] }

foreign-rejects : rejects assoc some some (some home) foreign ≡ true
unfolding rejects check_request check_simple is_origin_allowed first_value
foreign-rejects = refl

abbrev asking : Request assoc
asking = record req { method = "OPTIONS"; headers = asked }

abbrev parts_joined : String → String → Option String
parts_joined scheme rest = some (scheme ++ ("://" ++ rest))

abbrev configured : Configured assoc
configured = record {
  cors = record {
    allowed_headers = "x-token" ∷ "etag" ∷ [];
    exposed_headers = "origin" ∷ "content-type" ∷ [];
    max_age = none;
    allowed_methods = "GET" ∷ "HEAD" ∷ "OPTIONS" ∷ [];
    origins = some ("https://a.example" ∷ "http://b:80" ∷ []);
  };
  allowed_headers = "x-token,etag";
  exposed_headers = "origin,content-type";
  methods_header = "GET,HEAD,OPTIONS";
}

two_origins :
    new assoc some parts_joined
      (join ",")
      "https://a.example, http://b:80"
      "x-token,etag, x-token"
      ""
    ≡ built (some configured)
unfolding new new_cors origin_set map_all split into_origin split_scheme trim strip_prefix name_set
    name_parts build extend join add_member
two_origins = refl

-- a host alone is no origin
no_scheme : new assoc some parts_joined (join ",") "a.example" "" "" ≡ panicked
unfolding new new_cors origin_set map_all split into_origin split_scheme trim strip_prefix
no_scheme = refl

new-IsConfigured_example :
    IsConfigured assoc some parts_joined
      (join ",")
      "https://a.example, http://b:80"
      "x-token,etag, x-token"
      ""
      configured
new-IsConfigured_example =
    new-IsConfigured assoc some parts_joined (join ",") "https://a.example, http://b:80"
      "x-token,etag, x-token" "" configured two_origins
