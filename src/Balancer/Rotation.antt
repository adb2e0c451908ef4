-- ===== src/Balancer/Rotation.antt =====
-- Which instances a row of calls of `next_index` chooses.
use native.Mathlib.Nat.{
  div-add-mod', mod-lt, mod-eq_of_lt, mul-add-div_right, div-eq_of_lt, div-eq_of_lt-le,
}
use weave_gate.Common.{
  ℕ, zero, suc, ◌+◌, ◌-◌, ◌*◌, ◌/◌, ◌%◌, ◌≤◌, ◌<◌, ◌≡◌, refl, List, [], ◌∷◌, arith, eqb,
  if◌then◌else◌, get_elem?_total, ap, ◌∙◌, true, is_some,
}
use weave_gate.Balancer.{Balancer, next_index, next_target, picks, usize_mod, len}

-- how often `t` stands in a list
abbrev pub count : ℕ → List ℕ → ℕ
count t [] = 0
count t (x ∷ xs) = (if eqb x t then 1 else 0) + count t xs

-- the choices that a counter makes which starts at `x` and does not wrap around
turns : ℕ → ℕ → ℕ → List ℕ
turns zero x n = []
turns (suc k) x n = (x % n) ∷ turns k (suc x) n

div_once : (y n : ℕ) → n ≤ y → y < n + n → y / n ≡ 1
div_once y n h k = div-eq_of_lt-le n (omega arith) (omega arith)

step_small :
    (r t n : ℕ)
    → t < n
    → r < n
    → (if eqb r t then 1 else 0) + (r + (n - 1 - t)) / n ≡ (r + (n - t)) / n
step_small r t n h k = ground (
  arith,
  div_once (r + (n - t)) n,
  div_once (r + (n - 1 - t)) n,
  div-eq_of_lt {n = r + (n - t)} {m = n},
  div-eq_of_lt {n = r + (n - 1 - t)} {m = n},
)

div_split : (x z n : ℕ) → 0 < n → (x + z) / n ≡ x / n + (x % n + z) / n
div_split x z n h =
    let e : x + z ≡ x / n * n + (x % n + z) = omega (arith, div-add-mod' x n) in
    ap (λ (y : ℕ). y / n) e ∙ mul-add-div_right h (x / n) (x % n + z)

-- One call adds one to the number of those that chose the index `t`.
step_count :
    (x t n : ℕ)
    → t < n
    → (if eqb (x % n) t then 1 else 0) + (x + (n - 1 - t)) / n ≡ (x + (n - t)) / n
step_count x t n h = omega (
  arith,
  div_split x (n - 1 - t) n (omega arith),
  div_split x (n - t) n (omega arith),
  step_small (x % n) t n h (mod-lt x (omega arith)),
)

count-turns :
    (k x t n : ℕ)
    → t < n
    → count t (turns k x n) + (x + (n - 1 - t)) / n ≡ (x + k + (n - 1 - t)) / n
unfolding turns
count-turns zero x t n h =
    let e : (x + (n - 1 - t)) / n ≡ (x + 0 + (n - 1 - t)) / n =
      ap (λ (y : ℕ). y / n) (omega arith) in
    omega (arith, e)
count-turns (suc k) x t n h =
    let e : (suc x + k + (n - 1 - t)) / n ≡ (x + suc k + (n - 1 - t)) / n =
      ap (λ (y : ℕ). y / n) (omega arith) in
    let f : (suc x + (n - 1 - t)) / n ≡ (x + (n - t)) / n = ap (λ (y : ℕ). y / n) (omega arith) in
    omega (arith, count-turns k (suc x) t n h, step_count x t n h, e, f)

-- Any row of `k` choices has each index `k / n` times or once more.
turns-bounds :
    (k x t n : ℕ) → t < n → (k / n ≤ count t (turns k x n)) × (count t (turns k x n) ≤ k / n + 1)
turns-bounds k x t n h =
    let y = x + (n - 1 - t) in
    let c = count-turns k x t n h in
    let e : (x + k + (n - 1 - t)) / n ≡ (k + y) / n = ap (λ (z : ℕ). z / n) (omega arith) in
    let r = mod-lt k {m = n} (omega arith) in
    let s = mod-lt y {m = n} (omega arith) in
    let d = div_split k y n (omega arith) in
    let g = div_split y (k % n) n (omega arith) in
    let e' : (k % n + y) / n ≡ (y + k % n) / n = ap (λ (z : ℕ). z / n) (omega arith) in
    let small = div_once (y % n + k % n) n in
    let none = div-eq_of_lt {n = y % n + k % n} {m = n} in
    ground (arith, c, e, d, g, e', r, s, small, none)

module _ {ℓ} {Uri : Type ℓ} where
  picks-eq-turns :
      (k : ℕ) (b : Balancer Uri) → b.next + k ≤ usize_mod → picks k b ≡ turns k b.next (len b)
  unfolding picks next_index turns
  picks-eq-turns zero b h = refl
  picks-eq-turns (suc zero) b h = refl
  picks-eq-turns (suc (suc k)) b h =
      let e : (b.next + 1) % usize_mod ≡ suc b.next =
        mod-eq_of_lt {n = b.next + 1} {m = usize_mod} (omega arith) ∙ omega arith in
      let b' : Balancer Uri = record b { next = suc b.next } in
      rw e (ap (◌∷◌ (b.next % len b)) (picks-eq-turns (suc k) b' (omega arith)))

  -- Before the counter wraps around, any row of `k` calls of `next_index` chooses each of the `n`
  -- instances at least `k / n` times and at most once more.
  pub picks_fair :
      (k : ℕ) (b : Balancer Uri) (t : ℕ)
      → t < len b
      → b.next + k ≤ usize_mod
      → (k / len b ≤ count t (picks k b)) × (count t (picks k b) ≤ k / len b + 1)
  picks_fair k b t h w = rw (picks-eq-turns k b w) (turns-bounds k b.next t (len b) h)

  -- A balancer with instances always finds one, whatever its counter.
  pub next_target_total : (b : Balancer Uri) → 0 < len b → is_some (next_target b).0 ≡ true
  unfolding next_target next_index
  next_target_total b h =
      let (u, e) = get_elem?_total b.targets (b.next % len b) (mod-lt b.next h) in rw e refl
