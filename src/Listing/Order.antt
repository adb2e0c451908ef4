-- ===== src/Listing/Order.antt =====
-- The order of a directory's listing.
use Prim.Native.Char.{Char, code}
use mathlib.Core.List.{reverse, Perm}
use weave_gate.Common.{
  [], ◌∷◌, All, Bool-cases, inl, inr, ltb, ◌≤◌, ℕ, String, ◌≡◌, refl, ap, true, false, Option, none,
  some, List, arith,
}
use weave_gate.Common.Sort.{sort_by, sort_by-perm, sort_by-IsSorted, IsSorted, NoneBefore}
use weave_gate.Common.Text.{parse_uint}
use weave_gate.Common.{◌<◌}
use weave_gate.Listing.{
  FileEntry, SortingAttr, column_of, text_after, option_after, Column, by_name, by_mtime, by_size,
  entry_after, sorted_entries, sort_file_entries,
}

text_after_total : (s t : String) → text_after s t ≡ true → text_after t s ≡ false
unfolding text_after
text_after_total String.[] t h = cc
text_after_total (String.◌∷◌ c s) String.[] h = refl
text_after_total (String.◌∷◌ c s) (String.◌∷◌ d t) h = ground (arith, text_after_total s t)

text_after_trans :
    (s t u : String) → text_after s t ≡ false → text_after t u ≡ false → text_after s u ≡ false
unfolding text_after
text_after_trans String.[] t u h k = refl
text_after_trans (String.◌∷◌ c s) String.[] u h k = cc
text_after_trans (String.◌∷◌ c s) (String.◌∷◌ d t) String.[] h k = cc
text_after_trans (String.◌∷◌ c s) (String.◌∷◌ d t) (String.◌∷◌ e u) h k =
    ground (arith, text_after_trans s t u)

option_after_total : (a b : Option ℕ) → option_after a b ≡ true → option_after b a ≡ false
option_after_total none b h = cc
option_after_total (some m) none h = refl
option_after_total (some m) (some n) h = ground arith

option_after_trans :
    (a b c : Option ℕ)
    → option_after a b ≡ false
    → option_after b c ≡ false
    → option_after a c ≡ false
option_after_trans none b c h k = refl
option_after_trans (some m) none c h k = cc
option_after_trans (some m) (some n) none h k = cc
option_after_trans (some m) (some n) (some o) h k = ground arith

-- the order of texts: by the first code points that differ, or else the shorter one first
pub data TextLe : String → String → Type 0 where
  shorter : {t : String} → TextLe String.[] t
  less : {c d : Char} {s t : String} → code c < code d → TextLe (String.◌∷◌ c s) (String.◌∷◌ d t)
  same :
      {c d : Char} {s t : String}
      → code c ≡ code d
      → TextLe s t
      → TextLe (String.◌∷◌ c s) (String.◌∷◌ d t)

-- a missing value is below every other
abbrev pub IsBelow : Option ℕ → Option ℕ → Type 0
IsBelow none b = Unit
IsBelow (some m) none = ⊥
IsBelow (some m) (some n) = m ≤ n

text_after-TextLe : (s t : String) → text_after s t ≡ false → TextLe s t
unfolding text_after
text_after-TextLe String.[] t h = shorter
text_after-TextLe (String.◌∷◌ c s) String.[] h = cc
text_after-TextLe (String.◌∷◌ c s) (String.◌∷◌ d t) h = elim (Bool-cases (ltb (code d) (code c))) [
  | inl e ↦ cc (rw e at h)
  | inr e ↦ elim (Bool-cases (ltb (code c) (code d))) [
    | inl l ↦ less (ground arith)
    | inr l ↦ same (ground arith) (text_after-TextLe s t (rw (e, l) at h))
  ]
]

option_after-IsBelow : (a b : Option ℕ) → option_after a b ≡ false → IsBelow a b
option_after-IsBelow none b h = tt
option_after-IsBelow (some m) none h = cc
option_after-IsBelow (some m) (some n) h = ground arith

-- each entry stands before those that it is related to
abbrev pub InOrder : (FileEntry → FileEntry → Type 0) → List FileEntry → Type 0
InOrder R [] = Unit
InOrder R (a ∷ l) = All (R a) l × InOrder R l

module _ (lowercase : String → String) where
  -- The order of a column: by the lowercase name, the time of the change, or the size.
  abbrev pub Precedes : Column → FileEntry → FileEntry → Type 0
  Precedes by_name a b = TextLe (lowercase a.name) (lowercase b.name)
  Precedes by_mtime a b = IsBelow a.mtime b.mtime
  Precedes by_size a b = IsBelow a.size b.size

  entry_after-Precedes :
      (column : Column) (a b : FileEntry)
      → entry_after lowercase column a b ≡ false
      → Precedes column a b
  entry_after-Precedes by_name a b h = text_after-TextLe (lowercase a.name) (lowercase b.name) h
  entry_after-Precedes by_mtime a b h = option_after-IsBelow a.mtime b.mtime h
  entry_after-Precedes by_size a b h = option_after-IsBelow a.size b.size h

  NoneBefore-All :
      (column : Column) (a : FileEntry) (l : List FileEntry)
      → NoneBefore (entry_after lowercase column) a l
      → All (Precedes column a) l
  NoneBefore-All column a [] h = tt
  NoneBefore-All column a (b ∷ l) (p, h) =
      (entry_after-Precedes column a b p, NoneBefore-All column a l h)

  IsSorted-InOrder :
      (column : Column) (l : List FileEntry)
      → IsSorted (entry_after lowercase column) l
      → InOrder (Precedes column) l
  IsSorted-InOrder column [] h = tt
  IsSorted-InOrder column (a ∷ l) (p, h) =
      (NoneBefore-All column a l p, IsSorted-InOrder column l h)

  entry_after_total :
      (column : Column) (a b : FileEntry)
      → entry_after lowercase column a b ≡ true
      → entry_after lowercase column b a ≡ false
  entry_after_total by_name a b h = text_after_total (lowercase a.name) (lowercase b.name) h
  entry_after_total by_mtime a b h = option_after_total a.mtime b.mtime h
  entry_after_total by_size a b h = option_after_total a.size b.size h

  entry_after_trans :
      (column : Column) (a b c : FileEntry)
      → entry_after lowercase column a b ≡ false
      → entry_after lowercase column b c ≡ false
      → entry_after lowercase column a c ≡ false
  entry_after_trans by_name a b c h k =
      text_after_trans (lowercase a.name) (lowercase b.name) (lowercase c.name) h k
  entry_after_trans by_mtime a b c h k = option_after_trans a.mtime b.mtime c.mtime h k
  entry_after_trans by_size a b c h k = option_after_trans a.size b.size c.size h k

  ascending_perm :
      (column : Column) (files : List FileEntry)
      → Perm (sort_by (entry_after lowercase column) files) files
  ascending_perm column files = sort_by-perm (entry_after lowercase column) files

  ascending-InOrder :
      (column : Column) (files : List FileEntry)
      → InOrder (Precedes column) (sort_by (entry_after lowercase column) files)
  ascending-InOrder column files = IsSorted-InOrder column _ (
      sort_by-IsSorted (entry_after lowercase column) (entry_after_total column)
        (entry_after_trans column) files)

  column_of-none : (code : ℕ) → 5 < code → column_of code ≡ none
  column_of-none code h = ground arith

  unsorted :
      (files : List FileEntry) (code : ℕ)
      → 5 < code
      → (sort_file_entries lowercase files code).0 ≡ files
  unfolding sort_file_entries
  unsorted files code h =
      ap (λ column. sorted_entries lowercase column files) (column_of-none code h)

  -- The order codes of a column, and its link.
  abbrev pub ascending : Column → ℕ
  ascending by_name = 0
  ascending by_mtime = 2
  ascending by_size = 4

  abbrev pub descending : Column → ℕ
  descending by_name = 1
  descending by_mtime = 3
  descending by_size = 5

  abbrev pub link : Column → SortingAttr → String
  link by_name links = links.name
  link by_mtime links = links.last_modified
  link by_size links = links.size

  -- The entries that a code gives, and the links beside them.
  abbrev pub sorted : List FileEntry → ℕ → List FileEntry
  sorted files code = (sort_file_entries lowercase files code).0

  abbrev pub links : List FileEntry → ℕ → SortingAttr
  links files code = (sort_file_entries lowercase files code).1

  -- The code of a column lists the same entries, in the ascending order of that column: by the code
  -- points of the lowercase name, by the time or by the size, where a missing one is the least. The
  -- column's other
  -- code lists exactly these the other way round. The column's link asks for the other code of the
  -- two, as a number in the query; and a code above 5 leaves the entries as they were read.
  pub sort_file_entries_lem :
      (files : List FileEntry) (column : Column)
      → Perm (sorted files (ascending column)) files
        × InOrder (Precedes column) (sorted files (ascending column))
        × (sorted files (descending column) ≡ reverse (sorted files (ascending column)))
        × (parse_uint 256 (link column (links files (ascending column))) ≡ some (descending column))
        × (parse_uint 256 (link column (links files (descending column))) ≡ some (ascending column))
        × ((code : ℕ) → 5 < code → sorted files code ≡ files)
  unfolding sort_file_entries parse_uint
  sort_file_entries_lem files by_name = (
    ascending_perm by_name files,
    ascending-InOrder by_name files,
    refl,
    refl,
    refl,
    unsorted files,
  )
  sort_file_entries_lem files by_mtime = (
    ascending_perm by_mtime files,
    ascending-InOrder by_mtime files,
    refl,
    refl,
    refl,
    unsorted files,
  )
  sort_file_entries_lem files by_size = (
    ascending_perm by_size files,
    ascending-InOrder by_size files,
    refl,
    refl,
    refl,
    unsorted files,
  )
