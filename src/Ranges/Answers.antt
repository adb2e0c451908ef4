-- ===== src/Ranges/Answers.antt =====
-- The answers of `response_body`.
use weave_gate.Common.{
  true, ◌≢◌, ℕ, zero, suc, ◌-◌, ◌≤◌, ◌≡◌, refl, ◌⊎◌, inl, inr, String, Bool, false, Option, none,
  some, List, arith, eqb, take, drop, Option-cases, Bool-cases,
}
use weave_gate.Ranges.{
  Range, Dates, ConditionalHeaders, ConditionalBody, no_body, with_body, Served, sent, failed,
  check, bare, filled, not_satisfiable, answer_range, answer_body, response_body, bytes_range,
}
use weave_gate.Ranges.Bytes.{bytes_range-bounds}

module _ (D : Dates) (content_type : String) (modified : Option D.Time) (len : ℕ)
    (content : List ℕ) where
  -- The kinds of answers: without a body; refused; broken; the whole file; or a part of it.
  pub data IsAnswer (seek_works : Bool) (c : ConditionalHeaders D) : Served D → Type 0 where
    unchanged :
        (status : ℕ)
        → check D c modified ≡ no_body status
        → IsAnswer seek_works c (sent (bare D status))
    refused :
        (range : Option Range)
        → check D c modified ≡ with_body range
        → (bytes_range range len ≡ none)
          ⊎ ((start : ℕ) × (end : ℕ) × (bytes_range range len ≡ some (start, end))
              × (D.content_range start end len ≡ none))
        → IsAnswer seek_works c (sent (not_satisfiable D len))
    broken : seek_works ≡ false → IsAnswer seek_works c (failed 500)
    whole :
        (range : Option Range)
        → check D c modified ≡ with_body range
        → bytes_range range len ≡ some (0, len)
        → IsAnswer seek_works c (
            sent (record {
              status = 200;
              body = take len content;
              content_range = none;
              content_length = some len;
              content_type = some content_type;
              accept_ranges = true;
              last_modified = modified;
            }))
    part :
        (range : Option Range) (start end : ℕ) (shown : D.ContentRange)
        → check D c modified ≡ with_body range
        → bytes_range range len ≡ some (start, end)
        → (start ≤ end) × (end ≤ len) × (end - start ≢ len)
        → D.content_range start end len ≡ some shown
        → IsAnswer seek_works c (
            sent (record {
              status = 206;
              body = take (end - start) (drop start content);
              content_range = some shown;
              content_length = some (end - start);
              content_type = some content_type;
              accept_ranges = true;
              last_modified = modified;
            }))

  module _ (seek_works : Bool) (c : ConditionalHeaders D) (range : Option Range) where
    -- a part that is as long as the file begins at its begin
    whole_answer :
        (start end : ℕ)
        → check D c modified ≡ with_body range
        → bytes_range range len ≡ some (start, end)
        → (start ≤ end) × (end ≤ len)
        → end - start ≡ len
        → IsAnswer seek_works c
            (sent (filled D content_type modified len content 200 none start len))
    whole_answer zero end k e b same =
        let at_end : end ≡ len = omega arith in whole range k (rw at_end at e)
    whole_answer (suc start) end k e (le, inside) same = absurd (omega arith)

    answer_range-IsAnswer :
        (start end : ℕ)
        → check D c modified ≡ with_body range
        → bytes_range range len ≡ some (start, end)
        → IsAnswer seek_works c
            (answer_range D content_type modified len content seek_works (start, end))
    unfolding answer_range
    answer_range-IsAnswer start end k e =
        let (le, inside) = bytes_range-bounds range len start end e in
        elim (Bool-cases seek_works) [
          | inr dead ↦ rw (dead, answer_range) (broken refl)
          | inl alive ↦ elim (Bool-cases (eqb (end - start) len)) [
            | inl same ↦
                rw (alive, same, answer_range)
                  (rw alive at (whole_answer start end k e (le, inside) (ground arith)))
            | inr less ↦ elim (Option-cases (D.content_range start end len)) [
              | inl none_shown ↦
                  rw (alive, less, none_shown, answer_range)
                    (refused range k (inr (start, end, e, none_shown)))
              | inr (shown, s) ↦
                  rw (alive, less, s, answer_range)
                    (part range start end shown k e (le, inside, ground arith) s)
            ]
          ]
        ]

    answer_body-IsAnswer :
        check D c modified ≡ with_body range
        → IsAnswer seek_works c (answer_body D content_type modified len content seek_works range)
    unfolding answer_body
    answer_body-IsAnswer k = elim (Option-cases (bytes_range range len)) [
      | inl e ↦ rw (e, answer_body) (refused range k (inl e))
      | inr ((start, end), e) ↦ rw (e, answer_body) (answer_range-IsAnswer start end k e)
    ]

  -- Every answer to a request for a file is one of these: without a body, as the conditional
  -- headers ask for it; refused, where no range can be satisfied or shown; broken, where the file
  -- cannot be read; the file as far as the length goes; or a part of it, which is the bytes that the
  -- first range asks for out of so many, shown as such and with their number as the length.
  pub response_body-IsAnswer :
      (seek_works : Bool) (c : ConditionalHeaders D)
      → IsAnswer seek_works c (response_body D content_type modified len content seek_works c)
  unfolding response_body
  response_body-IsAnswer seek_works c = go (check D c modified) refl
    where
      go :
          (b : ConditionalBody)
          → check D c modified ≡ b
          → IsAnswer seek_works c (response_body D content_type modified len content seek_works c)
      go (no_body status) e = rw (e, response_body) (unchanged status e)
      go (with_body range) e = rw (e, response_body) (answer_body-IsAnswer seek_works c range e)
