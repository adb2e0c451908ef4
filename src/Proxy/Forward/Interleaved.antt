-- ===== src/Proxy/Forward/Interleaved.antt =====
-- The semaphore under overlapping requests: `forward_upgrade` takes a permit at once, holds it
-- while it waits for the upstream, and then hands it to a tunnel or gives it back; a tunnel gives it
-- back at its end. Between the steps of one request come steps of others.
use weave_gate.Common.{
  ℕ, zero, suc, ◌+◌, ◌≤◌, String, ◌≡◌, refl, Option, none, some, arith, Bool-cases, inl, inr,
}
use weave_gate.Http.{Http, Request, Response}
use weave_gate.Rules.{ProxyRule}
use weave_gate.Proxy.Forward.{forward_upgrade, forward_upgrade_inner, with_permit, spawned}

-- the free permits, the requests that wait for the upstream, and the open tunnels
pub record Slots : Type 0 where
  pub free : ℕ
  pub waiting : ℕ
  pub tunnels : ℕ

pub data Step : Slots → Slots → Type 0 where
  -- `try_acquire_owned` succeeds
  acquire :
      {s t : Slots} {n : ℕ}
      → s.free ≡ suc n
      → t ≡ record s { free = n; waiting = s.waiting + 1 }
      → Step s t
  -- the upstream switches protocols, and the permit moves into the tunnel's task
  spawn :
      {s t : Slots} {n : ℕ}
      → s.waiting ≡ suc n
      → t ≡ record s { waiting = n; tunnels = s.tunnels + 1 }
      → Step s t
  -- the upstream fails or does not switch, and the permit is dropped
  give_back :
      {s t : Slots} {n : ℕ}
      → s.waiting ≡ suc n
      → t ≡ record s { waiting = n; free = s.free + 1 }
      → Step s t
  -- the tunnel's task ends
  close :
      {s t : Slots} {n : ℕ}
      → s.tunnels ≡ suc n
      → t ≡ record s { tunnels = n; free = s.free + 1 }
      → Step s t

pub data Reach (s : Slots) : Slots → Type 0 where
  here : Reach s s
  next : {t u : Slots} → Reach s t → Step t u → Reach s u

abbrev pub total : Slots → ℕ
total s = s.free + s.waiting + s.tunnels

total-Step : {s t : Slots} → Step s t → total t ≡ total s
total-Step (acquire h e) = ground arith
total-Step (spawn h e) = ground arith
total-Step (give_back h e) = ground arith
total-Step (close h e) = ground arith

total-Reach : {s t : Slots} → Reach s t → total t ≡ total s
total-Reach here = refl
total-Reach (next r st) = omega (arith, total-Reach r, total-Step st)

-- However the requests and the ends of tunnels interleave, from a semaphore with `limit` permits
-- there are never more waiting upgrades and open tunnels together than `limit`.
pub tunnels_bounded :
    (limit : ℕ) {s : Slots}
    → Reach (record { free = limit; waiting = 0; tunnels = 0 }) s
    → s.waiting + s.tunnels ≤ limit
tunnels_bounded limit r = omega (arith, total-Reach r)

-- the permits of the semaphore of a call that ran to its end
abbrev pub slots : Option ℕ → ℕ → ℕ → Slots
slots permits waiting tunnels = record {
  free = elim permits [ none ↦ 0 | some n ↦ n ];
  waiting = waiting;
  tunnels = tunnels;
}

module _ (L : Http) (client : Request L → Option (Response L)) where
  -- A call of `forward_upgrade` under a limit, beside `waiting` other ones, is a row of such steps.
  pub forward_upgrade-Reach :
      (n waiting tunnels : ℕ) (rule : ProxyRule L) (req : Request L) (remote_ip : Option String)
      → Reach (slots (some n) waiting tunnels) (
          slots
            (forward_upgrade L client (some n) tunnels rule req remote_ip).2
            waiting
            (forward_upgrade L client (some n) tunnels rule req remote_ip).3)
  unfolding forward_upgrade with_permit
  forward_upgrade-Reach zero waiting tunnels rule req remote_ip = here
  forward_upgrade-Reach (suc n) waiting tunnels rule req remote_ip =
      let taken : Slots = record { free = n; waiting = waiting + 1; tunnels = tunnels } in
      let r : Reach (slots (some (suc n)) waiting tunnels) taken = next here (acquire refl refl) in
      elim (Bool-cases (spawned L client (forward_upgrade_inner L client rule req remote_ip).0)) [
        | inl e ↦ rw (e, with_permit) (next r (spawn {n = waiting} (ground arith) (ground arith)))
        | inr e ↦
            rw (e, with_permit) (next r (give_back {n = waiting} (ground arith) (ground arith)))
      ]
