-- ===== src/Metrics/Accounted.antt =====
-- What the collectors hold after any interleaving of connections and requests.
use weave_gate.Common.{
  ℕ, ◌+◌, ◌≡◌, refl, sym, ◌∙◌, ap, arith, Bool, true, not, ◌&&◌, none, some, List, [], ◌∷◌, ◌++◌,
  ◌==◌, eqb, Bool-cases, inl, inr, if◌then◌else◌,
}
use mathlib.Core.List.{append-nil}
use weave_gate.Http.{Http, Request, Response}
use weave_gate.Metrics.{
  Labels, Op, inc_inflight, dec_inflight, inc_connections, dec_connections, inc_requests, add_bytes,
  labels_of, record_request, content_length, on_arrival, on_end, new_service, dropped_service,
  Traffic, Course, started, connected, disconnected, arrived, answered, failed, cancelled,
}

unfoldable pub sum_by {ℓ} : {A : Type ℓ} → (A → ℕ) → List A → ℕ
sum_by f [] = 0
sum_by f (x ∷ xs) = f x + sum_by f xs

sum_by-++ {ℓ} :
    {A : Type ℓ} (f : A → ℕ) (xs ys : List A) → sum_by f (xs ++ ys) ≡ sum_by f xs + sum_by f ys
unfolding sum_by
sum_by-++ f [] ys = omega arith
sum_by-++ f (x ∷ xs) ys = omega (arith, sum_by-++ f xs ys)

abbrev pub same_labels : Labels → Labels → Bool
same_labels a b = a.method == b.method && (a.status == b.status && a.host == b.host)

module _ {Time : Type 0} where
  -- what a call adds to the gauges, to the counter of requests and to that of bytes
  abbrev pub raises : Op Time → ℕ
  raises inc_inflight = 1
  raises _ = 0

  abbrev pub lowers : Op Time → ℕ
  lowers dec_inflight = 1
  lowers _ = 0

  abbrev pub opens : Op Time → ℕ
  opens inc_connections = 1
  opens _ = 0

  abbrev pub closes : Op Time → ℕ
  closes dec_connections = 1
  closes _ = 0

  abbrev pub requests_of : Labels → Op Time → ℕ
  requests_of l (inc_requests k) = if same_labels k l then 1 else 0
  requests_of l _ = 0

  abbrev pub bytes_of : Labels → Op Time → ℕ
  bytes_of l (add_bytes k n) = if same_labels k l then n else 0
  bytes_of l _ = 0

module _ (L : Http) (Time : Type 0) where
  -- the answer is one that the collectors count under these labels
  abbrev pub counts : Labels → Request L × Response L → Bool
  counts l (req, resp) =
      not (L.path req.uri == "/metrics") && same_labels (labels_of L Time req resp.status) l

  abbrev pub IsAccount : Traffic L Time → Type 0
  IsAccount s =
      (sum_by raises s.ops ≡ sum_by lowers s.ops + (s.inflight + s.cancelled))
      × (sum_by opens s.ops ≡ sum_by closes s.ops + s.connections)
      × ((l : Labels)
          → (sum_by (requests_of l) s.ops ≡ sum_by (λ a. if counts l a then 1 else 0) s.answers)
            × (sum_by (bytes_of l) s.ops
                ≡ sum_by (λ a. if counts l a then content_length L Time a.1 else 0) s.answers))

  requests-record_request :
      (l : Labels) (req : Request L) (resp : Response L) (elapsed : Time)
      → sum_by (requests_of l) (on_end L Time true req (some resp) elapsed)
        ≡ (if counts l (req, resp) then 1 else 0)
  unfolding on_end record_request sum_by
  requests-record_request l req resp elapsed = elim (Bool-cases (L.path req.uri == "/metrics")) [
    | inl e ↦ rw (e, record_request) refl
    | inr e ↦ elim (Bool-cases (eqb (content_length L Time resp) 0)) [
      | inl z ↦ rw (e, z, record_request) (ground arith)
      | inr z ↦ rw (e, z, record_request) (ground arith)
    ]
  ]

  bytes-record_request :
      (l : Labels) (req : Request L) (resp : Response L) (elapsed : Time)
      → sum_by (bytes_of l) (on_end L Time true req (some resp) elapsed)
        ≡ (if counts l (req, resp) then content_length L Time resp else 0)
  unfolding on_end record_request sum_by
  bytes-record_request l req resp elapsed = elim (Bool-cases (L.path req.uri == "/metrics")) [
    | inl e ↦ rw (e, record_request) refl
    | inr e ↦ elim (Bool-cases (eqb (content_length L Time resp) 0)) [
      | inl z ↦ rw (e, z, record_request) (ground arith)
      | inr z ↦ rw (e, z, record_request) (ground arith)
    ]
  ]

  gauges-record_request :
      (req : Request L) (resp : Response L) (elapsed : Time)
      → (sum_by raises (on_end L Time true req (some resp) elapsed) ≡ 0)
        × (sum_by lowers (on_end L Time true req (some resp) elapsed) ≡ 1)
        × (sum_by opens (on_end L Time true req (some resp) elapsed) ≡ 0)
        × (sum_by closes (on_end L Time true req (some resp) elapsed) ≡ 0)
  unfolding on_end record_request sum_by
  gauges-record_request req resp elapsed = elim (Bool-cases (L.path req.uri == "/metrics")) [
    | inl e ↦ rw (e, record_request) (refl, refl, refl, refl)
    | inr e ↦ elim (Bool-cases (eqb (content_length L Time resp) 0)) [
      | inl z ↦ rw (e, z, record_request) (refl, refl, refl, refl)
      | inr z ↦ rw (e, z, record_request) (refl, refl, refl, refl)
    ]
  ]

  -- calls that fit the change of the state keep the account
  ++-IsAccount :
      (s t : Traffic L Time) (os : List (Op Time))
      → IsAccount s
      → t.ops ≡ s.ops ++ os
      → s.inflight + s.cancelled + sum_by raises os ≡ sum_by lowers os + (t.inflight + t.cancelled)
      → s.connections + sum_by opens os ≡ sum_by closes os + t.connections
      → ((l : Labels)
          → (sum_by (λ a. if counts l a then 1 else 0) t.answers
              ≡ sum_by (requests_of l) os + sum_by (λ a. if counts l a then 1 else 0) s.answers)
            × (sum_by (λ a. if counts l a then content_length L Time a.1 else 0) t.answers
                ≡ sum_by (bytes_of l) os
                  + sum_by (λ a. if counts l a then content_length L Time a.1 else 0) s.answers))
      → IsAccount t
  ++-IsAccount s t os (g, c, k) e flying opened counted = (
    rw e (omega (arith, g, flying, sum_by-++ raises s.ops os, sum_by-++ lowers s.ops os)),
    rw e (omega (arith, c, opened, sum_by-++ opens s.ops os, sum_by-++ closes s.ops os)),
    λ l. (
      rw e (omega (arith, (k l).0, (counted l).0, sum_by-++ (requests_of l) s.ops os)),
      rw e (omega (arith, (k l).1, (counted l).1, sum_by-++ (bytes_of l) s.ops os)),
    ),
  )

  -- With the metrics on, however connections and requests interleave: the gauge of requests has been
  -- raised as often as it was lowered, and once more for each request on its way and for each whose
  -- future was dropped, so that these are never taken back; that of connections, once more for each
  -- that is open. For every method, class of status and host, the counter of requests holds the number
  -- of answers with these labels, without those of `/metrics` itself, and that of bytes the sum of
  -- their `Content-Length`, none being 0.
  pub course-IsAccount : (s : Traffic L Time) → Course L Time true s → IsAccount s
  unfolding sum_by on_arrival on_end
  course-IsAccount s started = (refl, refl, λ l. (refl, refl))
  course-IsAccount t (connected {s = s} r e) =
      ++-IsAccount s t (new_service L Time) (course-IsAccount s r) (ap (λ x. x.ops) e)
        (rw e (omega arith)) (rw e (omega arith)) (λ l. rw e (omega arith, omega arith))
  course-IsAccount t (disconnected {s = s} r h e) =
      ++-IsAccount s t (dropped_service L Time) (course-IsAccount s r) (ap (λ x. x.ops) e)
        (rw e (omega arith)) (rw e (omega (arith, h))) (λ l. rw e (omega arith, omega arith))
  course-IsAccount t (arrived {s = s} r e) =
      ++-IsAccount s t (on_arrival L Time true) (course-IsAccount s r) (ap (λ x. x.ops) e)
        (rw e (omega arith)) (rw e (omega arith)) (λ l. rw e (omega arith, omega arith))
  course-IsAccount t (answered {s = s} r h req resp elapsed e) =
      let (up, down, made, dropped) = gauges-record_request req resp elapsed in
      ++-IsAccount s t (on_end L Time true req (some resp) elapsed) (course-IsAccount s r)
        (ap (λ x. x.ops) e) (rw e (omega (arith, h, up, down)))
        (rw e (omega (arith, made, dropped)))
        (λ l.
          rw
            (e, requests-record_request l req resp elapsed, bytes-record_request l req resp elapsed)
            (omega arith, omega arith))
  course-IsAccount t (failed {s = s} r h req elapsed e) =
      ++-IsAccount s t (on_end L Time true req none elapsed) (course-IsAccount s r)
        (ap (λ x. x.ops) e) (rw e (omega (arith, h))) (rw e (omega (arith, h)))
        (λ l. rw e (omega arith, omega arith))
  course-IsAccount t (cancelled {s = s} r h e) =
      ++-IsAccount s t [] (course-IsAccount s r) (ap (λ x. x.ops) e ∙ sym (append-nil s.ops))
        (rw e (omega (arith, h))) (rw e (omega arith)) (λ l. rw e (omega arith, omega arith))
