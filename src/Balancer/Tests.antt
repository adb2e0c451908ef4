-- ===== src/Balancer/Tests.antt =====
-- Runs of the balancer.
use weave_gate.Common.{◌/◌, ◌+◌, ◌≤◌, String, ◌≡◌, refl, none, some, [], ◌∷◌, arith, err}
use weave_gate.Balancer.{Balancer, new, next_index, picks, len}
use weave_gate.Balancer.Rotation.{count, picks_fair}

abbrev three : Balancer String
three = record { name = some "api"; targets = "a" ∷ "b" ∷ "c" ∷ []; next = 4 }

picks-three : picks 5 three ≡ 1 ∷ 2 ∷ 0 ∷ 1 ∷ 2 ∷ []
unfolding picks next_index
picks-three = refl

new_empty : new {Uri = String} none [] ≡ err "proxy service must have at least one upstream target"
unfolding new
new_empty = refl

-- at the word's end the counter starts again, and an instance can be chosen twice in a row
abbrev worn : Balancer String
worn = record three { next = 18446744073709551615 }

picks-worn : picks 3 worn ≡ 0 ∷ 0 ∷ 1 ∷ []
unfolding picks next_index
picks-worn = refl

picks_fair_example :
    (5 / len three ≤ count 2 (picks 5 three)) × (count 2 (picks 5 three) ≤ 5 / len three + 1)
picks_fair_example = picks_fair 5 three 2 (omega arith) (omega arith)
