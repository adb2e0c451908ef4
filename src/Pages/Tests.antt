-- ===== src/Pages/Tests.antt =====
-- Runs of the error pages.
use weave_gate.Common.{ℕ, String, ◌≡◌, refl, Option, none, some, ◌==◌, if◌then◌else◌}
use weave_gate.Common.Text.{trim}
use weave_gate.Http.Assoc.{assoc}
use weave_gate.Pages.{page_content, configured_page, page_text}

-- a page for 404 and none for 50x
abbrev pub files : String → Option String
files path = if path == "404.html" then some " <h1>Nothing here</h1> " else none

abbrev pub reason : ℕ → String
reason status = "Reason"

not_found : page_content assoc files reason 404 "404.html" "50x.html" ≡ "<h1>Nothing here</h1>"
unfolding page_content configured_page page_text trim
not_found = refl
