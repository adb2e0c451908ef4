-- ===== src/Common/Text.antt =====
-- `str`: the operations of Rust's strings that the program walks a text with.
pub mod Laws
use Prim.Native.Nat.{ℕ, zero, suc, ◌+◌, ◌*◌, ◌-◌, ◌/◌, ◌%◌}
use Prim.Native.Char.{Char, code}
use Prim.Native.String.{String, [], ◌∷◌, ◌++◌}
use mathlib.Core.Bool.{Bool, true, false, ◌&&◌, ◌||◌}
use mathlib.Core.Option
use mathlib.Core.Option.{Option, none, some}
use mathlib.Core.List
use mathlib.Core.List.{List}
use weave_gate.Common.Tests.{if◌then◌else◌, eqb, leb, ltb}

-- `s.strip_prefix(c)` for a single character, the step of `strip_prefix`
abbrev pub is_char : ℕ → Char → Bool
is_char n c = eqb (code c) n

-- `s.strip_prefix(p)`
unfoldable pub strip_prefix : String → String → Option String
strip_prefix s [] = some s
strip_prefix [] (c ∷ p) = none
strip_prefix (d ∷ s) (c ∷ p) = if eqb (code d) (code c) then strip_prefix s p else none

-- `s.is_empty()`
abbrev pub is_empty : String → Bool
is_empty [] = true
is_empty (c ∷ s) = false

-- `s.starts_with(c)` for one character
abbrev pub starts_with_char : ℕ → String → Bool
starts_with_char n [] = false
starts_with_char n (c ∷ s) = is_char n c

-- `s.ends_with(c)` for one character
abbrev pub ends_with_char : ℕ → String → Bool
ends_with_char n [] = false
ends_with_char n (c ∷ []) = is_char n c
ends_with_char n (c ∷ (d ∷ s)) = ends_with_char n (d ∷ s)

-- `s.contains(p)`
unfoldable pub contains : String → String → Bool
contains [] p = is_empty p
contains (c ∷ s) p = elim (strip_prefix (c ∷ s) p) [ some rest ↦ true | none ↦ contains s p ]

-- `s.matches(c).count()`
unfoldable pub count_char : ℕ → String → ℕ
count_char n [] = 0
count_char n (c ∷ s) = (if is_char n c then 1 else 0) + count_char n s

-- `s.split(c)`: at least one part
unfoldable pub split : ℕ → String → List String
split n [] = List.◌∷◌ [] List.[]
split n (c ∷ s) =
    let rest = split n s in
    if is_char n c
    then List.◌∷◌ [] rest
    else elim rest [ List.[] ↦ List.◌∷◌ (c ∷ []) List.[] | List.◌∷◌ p ps ↦ List.◌∷◌ (c ∷ p) ps ]

-- `s.rsplit_once(c)`
unfoldable pub rsplit_once : ℕ → String → Option (String × String)
rsplit_once n [] = none
rsplit_once n (c ∷ s) = elim (rsplit_once n s) [
  | some (a, b) ↦ some (c ∷ a, b)
  | none ↦ if is_char n c then some ([], s) else none
]

-- `s.split_once(c)`
unfoldable pub split_once : ℕ → String → Option (String × String)
split_once n [] = none
split_once n (c ∷ s) =
    if is_char n c
    then some ([], s)
    else elim (split_once n s) [ some (a, b) ↦ some (c ∷ a, b) | none ↦ none ]

-- ASCII white space, which `trim` removes (a header's text holds no other)
is_space : Char → Bool
is_space c = eqb (code c) b' ' || (leb 9 (code c) && leb (code c) 13)

-- `s.trim_start()`
unfoldable pub trim_start : String → String
unfolding is_space
trim_start [] = []
trim_start (c ∷ s) = let rest = trim_start s in if is_space c then rest else c ∷ s

-- a character before what a trim from the end has left, which goes if that is nothing
abbrev pub put_back : Bool → Char → String → String
put_back drop c [] = if drop then [] else c ∷ []
put_back drop c (d ∷ t) = c ∷ (d ∷ t)

-- `s.trim_end()`
unfoldable pub trim_end : String → String
unfolding is_space
trim_end [] = []
trim_end (c ∷ s) = put_back (is_space c) c (trim_end s)

-- `s.trim()`
unfoldable pub trim : String → String
unfolding trim_start trim_end
trim s = trim_end (trim_start s)

-- `s.trim_start_matches(c)`
unfoldable pub trim_start_matches : ℕ → String → String
trim_start_matches n [] = []
trim_start_matches n (c ∷ s) =
    let rest = trim_start_matches n s in if is_char n c then rest else c ∷ s

-- `s.trim_end_matches(c)`
unfoldable pub trim_end_matches : ℕ → String → String
trim_end_matches n [] = []
trim_end_matches n (c ∷ s) = put_back (is_char n c) c (trim_end_matches n s)

-- `s.join(sep)`
unfoldable pub join : String → List String → String
join sep List.[] = []
join sep (List.◌∷◌ p List.[]) = p
join sep (List.◌∷◌ p (List.◌∷◌ q ps)) = p ++ (sep ++ join sep (List.◌∷◌ q ps))

-- `s.parse::<u16>()` and `s.parse::<u64>()`: an optional plus sign and digits, below the bound
digits : ℕ → String → Option ℕ
digits n [] = some n
digits n (c ∷ s) =
    let rest = digits (n * 10 + (code c - 48)) s in
    if leb 48 (code c) && leb (code c) 57 then rest else none

digits_of : String → Option ℕ
unfolding digits
digits_of [] = none
digits_of (c ∷ s) = digits 0 (c ∷ s)

below : ℕ → Option ℕ → Option ℕ
below bound none = none
below bound (some n) = if ltb n bound then some n else none

unfoldable pub parse_uint : ℕ → String → Option ℕ
unfolding digits_of below strip_prefix
parse_uint bound s = elim (strip_prefix s "+") [
  | some rest ↦ below bound (digits_of rest)
  | none ↦ below bound (digits_of s)
]

-- `s.eq_ignore_ascii_case(t)`
lower : ℕ → ℕ
lower c = if leb 65 c && leb c 90 then c + 32 else c

unfoldable pub eq_ignore_ascii_case : String → String → Bool
unfolding lower
eq_ignore_ascii_case [] [] = true
eq_ignore_ascii_case (c ∷ s) (d ∷ t) =
    eqb (lower (code c)) (lower (code d)) && eq_ignore_ascii_case s t
eq_ignore_ascii_case _ _ = false

-- `s.to_ascii_lowercase()`, as its code points
lower_codes : String → List ℕ
unfolding lower
lower_codes [] = List.[]
lower_codes (c ∷ s) = List.◌∷◌ (lower (code c)) (lower_codes s)

codes_start : List ℕ → String → Bool
codes_start l [] = true
codes_start List.[] (d ∷ p) = false
codes_start (List.◌∷◌ c l) (d ∷ p) = eqb c (code d) && codes_start l p

codes_contain : List ℕ → String → Bool
codes_contain List.[] p = is_empty p
codes_contain (List.◌∷◌ c l) p = codes_start (List.◌∷◌ c l) p || codes_contain l p

-- `s.to_ascii_lowercase().contains(p)`
unfoldable pub lower_contains : String → String → Bool
unfolding lower_codes codes_start codes_contain
lower_contains s p = codes_contain (lower_codes s) p

abbrev pub digit : ℕ → String
digit n =
    if eqb n 0
    then "0"
    else if eqb n 1
    then "1"
    else if eqb n 2
    then "2"
    else if eqb n 3
    then "3"
    else if eqb n 4
    then "4"
    else if eqb n 5
    then "5"
    else if eqb n 6
    then "6"
    else if eqb n 7
    then "7"
    else if eqb n 8
    then "8"
    else "9"

-- the last `fuel` decimal digits of a number
unfoldable pub decimal_digits : ℕ → ℕ → String
decimal_digits zero n = ""
decimal_digits (suc fuel) n =
    let rest = decimal_digits fuel (n / 10) in if ltb n 10 then digit n else rest ++ digit (n % 10)

-- `to_string` of a `u64`, which has at most 20 digits
unfoldable pub decimal : ℕ → String
unfolding decimal_digits
decimal n = decimal_digits 20 n
