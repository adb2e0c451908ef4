-- ===== src/Handler/Tests.antt =====
-- Runs of the request handler.
use weave_gate.Common.{String, ◌≡◌, ◌⊎◌, refl, true, false, none, some, [], ◌∷◌, ◌==◌, is_ok}
use weave_gate.Common.Text.{strip_prefix, split_once}
use weave_gate.Http.{Request, Response, first_value}
use weave_gate.Http.Assoc.{assoc, parse, whole_path}
use weave_gate.Redirects.{
  redirects_answer, rewrites_answer, rewrite_uri_path, rewrite_with, rewrite_by, answer_or_go_on,
  rewrite_request, replace_placeholders, merge_uris, keep_query, rewritten, host_of,
}
use weave_gate.Redirects.Tests.{texts, to_index}
use weave_gate.Pages.{is_allowed, health_answer, metrics_answer}
use weave_gate.Pages.Tests.{files, reason}
use weave_gate.Cors.{rejects}
use weave_gate.Proxy.Matching.{find_rule}
use weave_gate.Proxy.Forward.{ProxyState, pre_process}
use weave_gate.Proxy.Tests.{req, users_rule, api_rule}
use weave_gate.Handler.{
  Services, HandlerOpts, answered, to_static, check_credentials, checks, method_answer, cors_answer,
  basic_auth_answer, maintenance_answer, handle_front, early_proxy, after_early_proxy,
  redirects_then, after_rewrites, late_proxy, try_reverse_proxy,
}
use weave_gate.Handler.Guarded.{handle_front-unauthorized}

abbrev pub services : Services assoc
services = record {
  files = files;
  reason = reason;
  gathered = "";
  credentials = λ headers.
      split_once b':' (elim (first_value "authorization" headers) [ none ↦ "" | some v ↦ v ]);
  bcrypt_verify = λ given hash. given == hash;
  method_of = some;
  name_of = some;
  texts = texts;
  client = λ r. some (record { status = 101; headers = []; body = "" });
}

abbrev opts : HandlerOpts assoc
opts = record {
  health = true;
  metrics_enabled = false;
  cors = none;
  basic_auth = "user:secret";
  maintenance_mode = false;
  maintenance_mode_status = 503;
  maintenance_mode_file = "";
  page404 = "404.html";
  page50x = "50x.html";
  redirects = none;
  rewrites = none;
  proxy_first = true;
}

abbrev state : ProxyState assoc
state = record {
  proxies = some (users_rule ∷ api_rule ∷ []);
  has_client = true;
  permits = some 2;
  tunnels = 1;
}

abbrev post : Request assoc
post = record req { method = "POST" }

wrong :
    (user password : String)
    → split_once b':' "user:secret" ≡ some (user, password)
    → is_ok (check_credentials assoc services opts req.headers user password) ≡ false
unfolding check_credentials first_value split_once
wrong user password e = refl

handle_front-unauthorized_example :
    (resp : Response assoc) × (handle_front assoc services opts state req none
      ≡ (answered resp, state))
    × ((resp.status ≡ 403) ⊎ (resp.status ≡ 401) ⊎ (resp.status ≡ 500))
unfolding is_allowed
handle_front-unauthorized_example =
    handle_front-unauthorized assoc services opts state req none refl refl refl refl refl wrong

-- no rules, and every path under `/api` is the page `/index.html`
abbrev pub static_opts : HandlerOpts assoc
static_opts = record opts { basic_auth = ""; rewrites = some (to_index ∷ []) }

abbrev pub idle : ProxyState assoc
idle = record { proxies = none; has_client = false; permits = none; tunnels = 0 }

abbrev index : Request assoc
index = record req {
  uri = record {
    scheme = none;
    authority = none;
    host = none;
    port = none;
    path = "/index.html?q=1";
    query = none;
  };
}

rewritten_index : (handle_front assoc services static_opts idle req none).0 ≡ to_static index
unfolding handle_front checks method_answer cors_answer basic_auth_answer maintenance_answer
    is_allowed health_answer metrics_answer rejects early_proxy try_reverse_proxy pre_process
    find_rule after_early_proxy redirects_answer redirects_then rewrites_answer rewrite_uri_path
    rewrite_with rewrite_by answer_or_go_on rewrite_request replace_placeholders merge_uris
    keep_query rewritten host_of after_rewrites late_proxy strip_prefix split_once parse whole_path
rewritten_index = refl
