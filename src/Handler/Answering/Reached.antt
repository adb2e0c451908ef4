-- ===== src/Handler/Answering/Reached.antt =====
-- What a response of the handler comes from.
use weave_gate.Common.{String, ◌≡◌, ◌⊎◌, inl, inr, refl, ap, Option, none, some, ℕ, is_some}
use weave_gate.Http.{Http, Request, Response}
use weave_gate.Redirects.Matched.{IsRewritten}
use weave_gate.Proxy.Forward.{ProxyState}
use weave_gate.Statics.{StaticFileResponse, served, refused}
use weave_gate.Statics.Files.{file_reply}
use weave_gate.Statics.Served.{IsServed, handle-IsServed}
use weave_gate.Handler.{
  Services, HandlerOpts, Outcome, answered, to_static, error_page, checks, handle_front,
}
use weave_gate.Handler.Passed.{handle_front-IsRewritten}
use weave_gate.Handler.Answering.{
  FileServices, FileOpts, handle_opts, list_directory, markdown_path, static_result,
  static_response, post_process, static_answer, finish_outcome, handle,
}

module _ (L : Http) (o : Services L) (opts : HandlerOpts L) (f : FileServices L)
    (files : FileOpts L) where
  -- What the static files give for a request: a page for an error, or a served file.
  pub data IsStart (asked : Request L) (start : Response L × Option String) : Type 0 where
    error_start :
        (status : ℕ)
        → static_result L o opts f files asked ≡ refused status
        → start ≡ (error_page L o opts asked status, none)
        → IsStart asked start
    file_start :
        (resp : Response L) (path : String)
        → start ≡ (resp, some path)
        → IsServed L f.disk f.coders.parse_quality f.decode
            (list_directory L o opts f files)
            (file_reply L f.files asked.headers)
            (handle_opts L o opts f files asked)
            resp
            path
        → IsStart asked start

  -- A response of the static files, behind all checks and with the later steps.
  pub record IsStaticAnswer (req : Request L) (resp : Response L) : Type 0 where
    pub asked : Request L
    pub start : Response L × Option String
    pub passed : checks L o opts req ≡ none
    pub rewritten : IsRewritten L o.texts req asked
    pub source : IsStart asked start
    pub finished :
        resp
        ≡ post_process L o opts f files asked (is_some (markdown_path L o opts f files asked)) start

  static_response-IsStart :
      (asked : Request L) (r : StaticFileResponse L)
      → static_result L o opts f files asked ≡ r
      → IsStart asked (static_response L o opts f files asked r)
  unfolding static_response static_result
  static_response-IsStart asked (refused status) e = error_start status e refl
  static_response-IsStart asked (served resp path) e = file_start resp path refl (
      handle-IsServed L f.disk f.coders.parse_quality f.decode (list_directory L o opts f files)
        (file_reply L f.files asked.headers) (handle_opts L o opts f files asked) resp path e)

  Outcome-cases :
      (x : Outcome L × ProxyState L)
      → ((resp : Response L) × (s : ProxyState L) × (x ≡ (answered resp, s)))
        ⊎ ((asked : Request L) × (s : ProxyState L) × (x ≡ (to_static asked, s)))
  Outcome-cases (answered resp, s) = inl (resp, s, refl)
  Outcome-cases (to_static asked, s) = inr (asked, s, refl)

  -- Every response of the handler is an answer of one of its steps up to the proxy; or the request
  -- passed all checks, credentials and maintenance included, and was at most rewritten, and the
  -- response is made by the later steps from the page for an error, or from a file that was found for
  -- the request's path below the root of its virtual host, with all checks of that path passed.
  pub handle-cases :
      (s : ProxyState L) (req : Request L) (remote_ip : Option String)
      → let (resp, s') = handle L o opts f files s req remote_ip in
        (handle_front L o opts s req remote_ip ≡ (answered resp, s')) ⊎ IsStaticAnswer req resp
  unfolding handle finish_outcome static_answer
  handle-cases s req remote_ip = elim (Outcome-cases (handle_front L o opts s req remote_ip)) [
    | inl (resp, s', e) ↦ rw (e, handle, finish_outcome) (inl refl)
    | inr (asked, s', e) ↦
        let (passed, rewritten) =
          handle_front-IsRewritten L o opts remote_ip s req asked (ap (λ x. x.0) e) in
        rw (e, handle, finish_outcome, static_answer)
          (inr (record {
            asked = asked;
            start = static_response L o opts f files asked (static_result L o opts f files asked);
            passed = passed;
            rewritten = rewritten;
            source = static_response-IsStart asked _ refl;
            finished = refl;
          }))
  ]
