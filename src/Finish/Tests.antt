-- ===== src/Finish/Tests.antt =====
-- Runs of the last headers.
use weave_gate.Common.{◌≡◌, refl, true, none, some, [], ◌∷◌, is_some}
use weave_gate.Common.Text.{rsplit_once, strip_prefix}
use weave_gate.Http.{Response}
use weave_gate.Http.Assoc.{assoc}
use weave_gate.Finish.{HeadersEntry, FinishOpts, max_age_for, get_max_age, matched_path, finish}
use weave_gate.Finish.Names.{get-finish}
use weave_gate.Proxy.Tests.{req}

abbrev entry : HeadersEntry assoc
entry = record {
  source = λ path. is_some (strip_prefix path "/api");
  headers = ("x-frame-options", "SAMEORIGIN") ∷ [];
}

abbrev opts : FinishOpts assoc
opts = record {
  cache_control_headers = true;
  security_headers = true;
  headers = some (entry ∷ []);
  redirect_trailing_slash = true;
}

abbrev resp : Response assoc
resp = record { status = 200; headers = ("content-type", "text/html") ∷ []; body = "" }

hour : get_max_age "/feed/news.atom" ≡ 3600
unfolding get_max_age max_age_for rsplit_once
hour = refl

-- a path that ends with a slash is matched with two slashes before the file's name
two_slashes : matched_path "/docs/" (some "index.html") true ≡ "/docs//index.html"
unfolding matched_path
two_slashes = refl

-- an entry's header takes the place of the security header
get-finish_example :
    assoc.get (finish assoc opts req none resp).headers "x-frame-options" ≡ some "SAMEORIGIN"
unfolding matched_path strip_prefix
get-finish_example = get-finish assoc opts req none resp "x-frame-options"
