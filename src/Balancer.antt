-- ===== src/Balancer.antt =====
-- settings/mod.rs: `ProxyBalancer`, the round-robin choice among the instances of a service.
-- Its `AtomicUsize` is a field: `fetch_add` is one atomic step, so that the calls of all threads
-- stand in one sequence, and it wraps around at the word's end.
pub mod Rotation
mod Tests
use weave_gate.Common.{
  ℕ, zero, suc, ◌+◌, ◌%◌, ◌^◌, String, Option, List, [], ◌∷◌, length, get_elem?, is_nil,
  if◌then◌else◌, Result, ok, err,
}

-- 2 ^ 64, for a `usize` of 64 bits
abbrev pub usize_mod : ℕ
usize_mod = 2 ^ 64

pub record Balancer {ℓ} (Uri : Type ℓ) : Type ℓ where
  pub name : Option String
  pub targets : List Uri
  pub next : ℕ

module _ {ℓ} {Uri : Type ℓ} where
  -- `ProxyBalancer::new`
  unfoldable pub new : Option String → List Uri → Result (Balancer Uri)
  new name targets =
      if is_nil targets
      then err "proxy service must have at least one upstream target"
      else ok (record { name = name; targets = targets; next = 0 })

  -- `len`
  abbrev pub len : Balancer Uri → ℕ
  len b = length b.targets

  -- `next_index`: the chosen index, and the balancer with its counter moved on
  unfoldable pub next_index : Balancer Uri → ℕ × Balancer Uri
  next_index b = (b.next % length b.targets, record b { next = (b.next + 1) % usize_mod })

  -- `next`
  unfoldable pub next_target : Balancer Uri → Option Uri × Balancer Uri
  unfolding next_index
  next_target b = let (index, b') = next_index b in (get_elem? b.targets index, b')

  -- the indices that `k` calls of `next_index` choose in a row
  unfoldable pub picks : ℕ → Balancer Uri → List ℕ
  picks zero b = []
  picks (suc k) b = (next_index b).0 ∷ picks k (next_index b).1
