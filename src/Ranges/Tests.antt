-- ===== src/Ranges/Tests.antt =====
-- Runs of the ranges and of the answers for a file of ten bytes.
use weave_gate.Common.{
  ℕ, ◌+◌, ◌≤◌, ◌<◌, ◌≡◌, ◌⊎◌, refl, true, none, some, List, [], ◌∷◌, arith, leb, ltb,
}
use weave_gate.Ranges.{
  included, Range, Dates, ConditionalHeaders, FileResponse, sent, check, requested, available,
  bytes_range, response_body, fails_unmodified, is_unmodified, range_for, answer_body, answer_range,
  bare,
}
use weave_gate.Ranges.Bytes.{bytes_range-included}

-- seconds as times, and the two ends as a `Content-Range`
abbrev pub seconds : Dates
seconds = record {
  Time = ℕ;
  IfRange = ℕ;
  ContentRange = ℕ × ℕ;
  precondition_passes = λ since time. leb time since;
  is_modified = λ since time. ltb since time;
  range_is_modified = λ date modified. elim modified [ none ↦ true | some time ↦ ltb date time ];
  content_range = λ start end len. some (start, end);
  unsatisfied_bytes = λ len. (0, len);
}

abbrev ten : List ℕ
ten = 0 ∷ 1 ∷ 2 ∷ 3 ∷ 4 ∷ 5 ∷ 6 ∷ 7 ∷ 8 ∷ 9 ∷ []

abbrev two_to_four : Range
two_to_four = (included 2, included 4) ∷ []

two_to_four-bytes : bytes_range (some two_to_four) 10 ≡ some (2, 5)
unfolding bytes_range requested available
two_to_four-bytes = refl

bytes_range-included_example :
    let chosen = bytes_range (some two_to_four) 10 in
    ((2 < 10) × (4 < 10) × (chosen ≡ some (2, 4 + 1)))
    ⊎ ((2 < 10) × (10 ≤ 4) × (chosen ≡ some (2, 10)))
    ⊎ ((◌≡◌ {A = ℕ} 2 10) × (◌≡◌ {A = ℕ} 4 10) × (chosen ≡ none))
    ⊎ ((◌≡◌ {A = ℕ} 2 10) × (10 < 4) × (chosen ≡ some (10, 10)))
    ⊎ ((10 < 2) × (chosen ≡ none))
bytes_range-included_example = bytes_range-included 2 4 10 [] (omega arith) (omega arith)

abbrev conditionals : ConditionalHeaders seconds
conditionals = record {
  if_modified_since = none;
  if_unmodified_since = some 100;
  if_range = some 100;
  range = some two_to_four;
}

abbrev middle : FileResponse seconds
middle = record {
  status = 206;
  body = 2 ∷ 3 ∷ 4 ∷ [];
  content_range = some (2, 5);
  content_length = some 3;
  content_type = some "text/plain";
  accept_ranges = true;
  last_modified = some 90;
}

served : response_body seconds "text/plain" (some 90) 10 ten true conditionals ≡ sent middle
unfolding response_body check fails_unmodified is_unmodified range_for answer_body answer_range
    bytes_range requested available
served = refl

not_modified :
    response_body seconds "text/plain"
      (some 90)
      10
      ten
      true
      (record conditionals { if_modified_since = some 95 })
    ≡ sent (bare seconds 304)
unfolding response_body check fails_unmodified is_unmodified
not_modified = refl
