-- ===== src/Ranges/Bytes.antt =====
-- Which bytes `bytes_range` chooses.
use weave_gate.Common.{ℕ, ◌+◌, ◌≤◌, ◌<◌, ◌≡◌, ◌⊎◌, Option, none, some, [], ◌∷◌, arith, and_then}
use weave_gate.Ranges.{included, Range, u64_mod, requested, available, bytes_range}

available-bounds :
    (max_len : ℕ) (p q : ℕ × ℕ) → available max_len p ≡ some q → (q.0 ≤ q.1) × (q.1 ≤ max_len)
unfolding available
available-bounds max_len (start, end) (s, e) h = ground arith

-- Whatever the ranges of a request, the chosen bytes are in order and inside the file.
pub bytes_range-bounds :
    (range : Option Range) (max_len : ℕ) (start end : ℕ)
    → bytes_range range max_len ≡ some (start, end)
    → (start ≤ end) × (end ≤ max_len)
unfolding bytes_range
bytes_range-bounds none max_len start end h = ground arith
bytes_range-bounds (some []) max_len start end h = cc
bytes_range-bounds (some (r ∷ rs)) max_len start end h = go (requested max_len r) h
  where
    go :
        (o : Option (ℕ × ℕ))
        → and_then o (available max_len) ≡ some (start, end)
        → (start ≤ end) × (end ≤ max_len)
    go none e = cc
    go (some p) e = available-bounds max_len p (start, end) e

-- A range from `first` to `last`, both below the word's end, gives exactly those of its bytes that
-- the file has, if it begins inside the file; behind the file's end there is none. One that begins
-- at the end is refused only if it ends there too.
pub bytes_range-included :
    (first last max_len : ℕ) (others : Range)
    → first ≤ last
    → last + 1 < u64_mod
    → let chosen = bytes_range (some ((included first, included last) ∷ others)) max_len in
      ((first < max_len) × (last < max_len) × (chosen ≡ some (first, last + 1)))
      ⊎ ((first < max_len) × (max_len ≤ last) × (chosen ≡ some (first, max_len)))
      ⊎ ((first ≡ max_len) × (last ≡ max_len) × (chosen ≡ none))
      ⊎ ((first ≡ max_len) × (max_len < last) × (chosen ≡ some (max_len, max_len)))
      ⊎ ((max_len < first) × (chosen ≡ none))
unfolding bytes_range requested available
bytes_range-included first last max_len others h k = ground arith
