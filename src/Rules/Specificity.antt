-- ===== src/Rules/Specificity.antt =====
-- The order in which the rules are tried.
use Prim.Native.String.{len}
use mathlib.Core.List.{Perm}
use weave_gate.Common.{
  ℕ, ◌≡◌, ◌⊎◌, ◌≤◌, ◌<◌, Bool, true, false, ◌&&◌, List, [], ◌∷◌, All, arith, eqb,
}
use weave_gate.Common.Text.{count_char}
use weave_gate.Common.Sort.{
  sort_by, sort_by-perm, sort_by-IsSorted, sort_by_stable, keep, IsSorted, NoneBefore,
}
use weave_gate.Routes.{Proxy}
use weave_gate.Rules.{comes_after, sort_proxy_defs_by_specificity}

abbrev pub stars : Proxy → ℕ
stars p = count_char b'*' p.source

-- The source of `a` is longer than that of `b`, or as long and with as many stars.
abbrev pub Precedes : Proxy → Proxy → Type 0
Precedes a b = (len b.source < len a.source) ⊎ ((len a.source ≡ len b.source) × (stars b ≤ stars a))

abbrev pub Descending : List Proxy → Type 0
Descending [] = Unit
Descending (a ∷ l) = All (Precedes a) l × Descending l

abbrev pub has_key : ℕ × ℕ → Proxy → Bool
has_key (l, w) p = eqb (len p.source) l && eqb (stars p) w

after-Precedes : (a b : Proxy) → comes_after a b ≡ false → Precedes a b
after-Precedes a b h = ground arith

after_total : (a b : Proxy) → comes_after a b ≡ true → comes_after b a ≡ false
after_total a b h = ground arith

after_trans :
    (a b c : Proxy) → comes_after a b ≡ false → comes_after b c ≡ false → comes_after a c ≡ false
after_trans a b c h k = ground arith

after_same :
    (k : ℕ × ℕ) (a b : Proxy) → has_key k a ≡ true → has_key k b ≡ true → comes_after a b ≡ false
after_same (l, w) a b h k = ground arith

Precedes-All : (a : Proxy) (l : List Proxy) → NoneBefore comes_after a l → All (Precedes a) l
Precedes-All a [] h = tt
Precedes-All a (b ∷ l) (p, h) = (after-Precedes a b p, Precedes-All a l h)

IsSorted-Descending : (l : List Proxy) → IsSorted comes_after l → Descending l
IsSorted-Descending [] h = tt
IsSorted-Descending (a ∷ l) (p, h) = (Precedes-All a l p, IsSorted-Descending l h)

-- The sort only reorders the definitions; afterwards each one precedes all that follow it, by a
-- longer source or by an equally long one with at least as many stars; and definitions whose
-- sources agree in length and in stars keep their order.
pub sort_proxy_defs_lem :
    (defs : List Proxy)
    → Perm (sort_proxy_defs_by_specificity defs) defs
      × Descending (sort_proxy_defs_by_specificity defs)
      × ((k : ℕ × ℕ)
          → keep (has_key k) (sort_proxy_defs_by_specificity defs) ≡ keep (has_key k) defs)
unfolding sort_proxy_defs_by_specificity
sort_proxy_defs_lem defs = (
  sort_by-perm comes_after defs,
  IsSorted-Descending _ (sort_by-IsSorted comes_after after_total after_trans defs),
  λ k. sort_by_stable comes_after (has_key k) (after_same k) defs,
)

-- Of two definitions whose sources are equally long, the one with more stars is put first,
-- whichever was listed first.
pub more_stars_first :
    (a b : Proxy)
    → len a.source ≡ len b.source
    → stars a < stars b
    → (sort_proxy_defs_by_specificity (a ∷ b ∷ []) ≡ b ∷ a ∷ [])
      × (sort_proxy_defs_by_specificity (b ∷ a ∷ []) ≡ b ∷ a ∷ [])
unfolding sort_proxy_defs_by_specificity sort_by
more_stars_first a b h k = (ground arith, ground arith)
