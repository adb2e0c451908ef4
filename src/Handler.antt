-- ===== src/Handler.antt =====
-- handler.rs, `RequestHandler::handle` up to the static files, with basic_auth.rs: the checks in
-- their order, the redirects and rewrites, and the reverse proxy before or behind them. The steps
-- that never fail give a response, and one that fails is answered by the page for 500, so that no
-- error is left. `Services` holds what belongs to crates and to the system: the typed header
-- `Authorization`, bcrypt, which is false for a broken hash, files and the upstream client.
pub mod Guarded
pub mod Passed
pub mod Answering
pub mod Tests
use weave_gate.Common.{
  ℕ, String, Bool, true, false, not, ◌&&◌, Option, none, some, List, ◌==◌, eqb, or_else,
  if◌then◌else◌, Result, ok, err, ok_or, ensure, is_ok, ◌>>=◌, ◌>>◌,
}
use weave_gate.Common.Text.{is_empty, split_once}
use weave_gate.Http.{Http, Request, Response}
use weave_gate.Cors
use weave_gate.Cors.{Configured, rejects}
use weave_gate.Pages.{is_allowed, error_response, get_response, health_answer, metrics_answer}
use weave_gate.Redirects.{Redirects, Rewrites, Texts, redirects_answer, rewrites_answer}
use weave_gate.Proxy.Forward.{ProxyState, pre_process}

pub record Services (L : Http) : Type 0 where
  pub files : String → Option String
  pub reason : ℕ → String
  pub gathered : String
  pub credentials : L.Headers → Option (String × String)
  pub bcrypt_verify : String → String → Bool
  pub method_of : L.Value → Option String
  pub name_of : String → Option String
  pub texts : Texts L
  pub client : Request L → Option (Response L)

-- the options that these steps read; the rules of the proxy are in its state
pub record HandlerOpts (L : Http) : Type 0 where
  pub health : Bool
  pub metrics_enabled : Bool
  pub cors : Option (Configured L)
  pub basic_auth : String
  pub maintenance_mode : Bool
  pub maintenance_mode_status : ℕ
  pub maintenance_mode_file : String
  pub page404 : String
  pub page50x : String
  pub redirects : Option (List Redirects)
  pub rewrites : Option (List Rewrites)
  pub proxy_first : Bool

-- a response, or the request that goes on to the static files
pub data Outcome (L : Http) : Type 0 where
  answered : Response L → Outcome L
  to_static : Request L → Outcome L

module _ (L : Http) (o : Services L) (opts : HandlerOpts L) where
  -- the page for a status, for the method of the request
  unfoldable pub error_page : Request L → ℕ → Response L
  error_page req status =
      error_response L o.files o.reason req.method status opts.page404 opts.page50x

  -- `redirects::handle_error`
  unfoldable pub or_error_page : Request L → Result (Response L) → Response L
  or_error_page req (ok resp) = resp
  or_error_page req (err e) = error_page req 500

  -- basic_auth.rs, `check_request`
  unfoldable pub check_credentials : L.Headers → String → String → Result (Unit {0})
  check_credentials headers userid password = do
    credentials ← ok_or (o.credentials headers) "401"
    let (user, given) = credentials
    ensure ((user == userid) && o.bcrypt_verify given password) "401"

  unfoldable pub unauthorized : Request L → Response L
  unauthorized req =
      let page = error_page req 401 in
      record page {
        headers =
            L.insert page.headers "www-authenticate"
              (L.from_static "Basic realm=\"WeaveGate\", charset=\"UTF-8\"");
      }

  -- basic_auth.rs, `pre_process`
  unfoldable pub basic_auth_answer : Request L → Option (Response L)
  basic_auth_answer req =
      if is_empty opts.basic_auth
      then none
      else if req.method == "OPTIONS"
      then none
      else elim (split_once b':' opts.basic_auth) [
        | none ↦ some (error_page req 500)
        | some (user_id, password) ↦
            if is_ok (check_credentials req.headers user_id password)
            then none
            else some (unauthorized req)
      ]

  unfoldable pub method_answer : Request L → Option (Response L)
  method_answer req = if not (is_allowed req.method) then some (error_page req 405) else none

  -- cors.rs, `pre_process`
  unfoldable pub cors_answer : Request L → Option (Response L)
  cors_answer req =
      if rejects L o.method_of o.name_of opts.cors req then some (error_page req 403) else none

  -- maintenance_mode.rs, `pre_process`
  unfoldable pub maintenance_answer : Request L → Option (Response L)
  maintenance_answer req =
      if opts.maintenance_mode
      then some (
          get_response L o.files o.reason req.method opts.maintenance_mode_status
            opts.maintenance_mode_file)
      else none

  -- the steps before the proxy and the redirects, of which the first that answers ends the request
  unfoldable pub checks : Request L → Option (Response L)
  checks req = or_else (method_answer req) (
      or_else (health_answer L opts.health req) (
        or_else (metrics_answer L opts.metrics_enabled o.gathered req)
          (or_else (cors_answer req) (or_else (basic_auth_answer req) (maintenance_answer req)))))

  -- the answer to a client of what the proxy gives
  unfoldable pub proxy_response : Request L → Result (Response L) → Response L
  proxy_response req (err e) = error_page req 502
  proxy_response req (ok resp) =
      if eqb resp.status 101
      then resp
      else Cors.post_process L o.method_of o.name_of opts.cors req resp

  unfoldable pub try_reverse_proxy :
      ProxyState L → Request L → Option String → Option (Response L) × ProxyState L
  try_reverse_proxy s req remote_ip =
      let (result, s') = pre_process L o.client s req remote_ip in
      (elim result [ none ↦ none | some r ↦ some (proxy_response req r) ], s')

  -- the proxy behind the redirects and rewrites, unless it came first
  unfoldable pub late_proxy :
      Bool → ProxyState L → Request L → Option String → Outcome L × ProxyState L
  late_proxy true s req remote_ip = (to_static req, s)
  late_proxy false s req remote_ip =
      let (answer, s') = try_reverse_proxy s req remote_ip in
      (elim answer [ none ↦ to_static req | some resp ↦ answered resp ], s')

  -- what follows a rewrite, which may have answered
  unfoldable pub after_rewrites :
      ProxyState L
      → Option String
      → Option (Result (Response L)) × Request L
      → Outcome L × ProxyState L
  after_rewrites s remote_ip (some result, req) = (answered (or_error_page req result), s)
  after_rewrites s remote_ip (none, req) = late_proxy opts.proxy_first s req remote_ip

  unfoldable pub redirects_then :
      ProxyState L
      → Request L
      → Option String
      → Option (Result (Response L))
      → Outcome L × ProxyState L
  redirects_then s req remote_ip (some result) = (answered (or_error_page req result), s)
  redirects_then s req remote_ip none =
      after_rewrites s remote_ip (rewrites_answer L o.texts opts.rewrites req)

  -- what follows the early proxy, which may have answered
  unfoldable pub after_early_proxy :
      Request L → Option String → Option (Response L) × ProxyState L → Outcome L × ProxyState L
  after_early_proxy req remote_ip (some resp, s) = (answered resp, s)
  after_early_proxy req remote_ip (none, s) =
      redirects_then s req remote_ip (redirects_answer L o.texts opts.redirects req)

  unfoldable pub early_proxy :
      Bool → ProxyState L → Request L → Option String → Option (Response L) × ProxyState L
  early_proxy true s req remote_ip = try_reverse_proxy s req remote_ip
  early_proxy false s req remote_ip = (none, s)

  unfoldable pub handle_front : ProxyState L → Request L → Option String → Outcome L × ProxyState L
  handle_front s req remote_ip = elim (checks req) [
    | some resp ↦ (answered resp, s)
    | none ↦ after_early_proxy req remote_ip (early_proxy opts.proxy_first s req remote_ip)
  ]
