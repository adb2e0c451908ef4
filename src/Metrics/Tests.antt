-- ===== src/Metrics/Tests.antt =====
-- A run of the collectors: a connection with two requests, one of which is answered.
use weave_gate.Common.{ℕ, refl, true, List, [], ◌∷◌}
use weave_gate.Http.{Response, first_value}
use weave_gate.Http.Assoc.{assoc}
use weave_gate.Common.Text.{parse_uint}
use weave_gate.Https.Tests.{plain}
use weave_gate.Metrics.{
  Op, inc_inflight, dec_inflight, inc_connections, inc_requests, observe_duration, add_bytes,
  status_class, labels_of, record_request, content_length, on_arrival, on_end, Traffic, Course,
  started, connected, arrived, answered, cancelled,
}
use weave_gate.Metrics.Accounted.{IsAccount, course-IsAccount}

abbrev page : Response assoc
page = record { status = 200; headers = ("content-length", "12") ∷ []; body = "Hello, world" }

abbrev calls : List (Op ℕ)
calls =
    inc_connections
    ∷ inc_inflight
    ∷ inc_inflight
    ∷ dec_inflight
    ∷ inc_requests (record { method = "GET"; status = "2xx"; host = "example" })
    ∷ observe_duration (record { method = "GET"; status = "2xx"; host = "example" }) 5
    ∷ add_bytes (record { method = "GET"; status = "2xx"; host = "example" }) 12
    ∷ []

abbrev traffic : Traffic assoc ℕ
traffic = record {
  connections = 1;
  inflight = 0;
  cancelled = 1;
  answers = (plain, page) ∷ [];
  ops = calls;
}

course : Course assoc ℕ true traffic
unfolding on_arrival on_end record_request labels_of content_length status_class parse_uint
    first_value
course =
    cancelled {n = 0}
      (answered {n = 1} (arrived (arrived (connected started refl) refl) refl) refl plain page 5
        refl)
      refl refl

course-IsAccount_example : IsAccount assoc ℕ traffic
course-IsAccount_example = course-IsAccount assoc ℕ traffic course
