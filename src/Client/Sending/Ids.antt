-- ===== src/Client/Sending/Ids.antt =====
-- Message ids over a sequence of calls of `generate_msg_id` (internals.rs).
use mip_clients.Common.{
  ℕ, suc, ◌+◌, ◌%◌, ◌^◌, ◌≡◌, ◌≤◌, ◌<◌, List, [], ◌∷◌, none, some, length, arith,
}
use mip_clients.Client.Sending.{Reading, generate_msg_id}

-- The ids of calls at the given clock readings.
unfoldable pub generate_all : ℕ → List Reading → List ℕ
generate_all counter [] = []
generate_all counter (now ∷ later) =
    (generate_msg_id counter now).0 ∷ generate_all (generate_msg_id counter now).1 later

-- A clock that is readable, never goes back, and stays below `hi`.
abbrev pub IsSteady : ℕ → ℕ → List Reading → Type 0
IsSteady lo hi [] = Unit
IsSteady lo hi (none ∷ later) = ⊥
IsSteady lo hi (some t ∷ later) = (lo ≤ t) × (t < hi) × IsSteady t hi later

-- Each element is above those before it, and the first is `lo` at least.
abbrev pub IsIncreasing : ℕ → List ℕ → Type 0
IsIncreasing lo [] = Unit
IsIncreasing lo (x ∷ xs) = (lo ≤ x) × IsIncreasing (suc x) xs

-- While the clock does not go back and no sum reaches 2 ^ 64, the ids increase strictly from call to
-- call, so no two are equal.
pub generate_all-IsIncreasing :
    (readings : List Reading) (counter lo hi : ℕ)
    → IsSteady lo hi readings
    → hi + counter + length readings < 2 ^ 64
    → IsIncreasing (lo + counter) (generate_all counter readings)
unfolding generate_all generate_msg_id
generate_all-IsIncreasing [] counter lo hi s h = tt
generate_all-IsIncreasing (none ∷ later) counter lo hi s h = absurd s
generate_all-IsIncreasing (some t ∷ later) counter lo hi s h =
    let next : (counter + 1) % 2 ^ 64 ≡ counter + 1 = omega arith in
    let id : (t % 2 ^ 64 + counter) % 2 ^ 64 ≡ t + counter = omega arith in
    let sum : t + (counter + 1) ≡ suc (t + counter) = omega arith in
    let rest = generate_all-IsIncreasing later (counter + 1) t hi s.2 (omega arith) in
    rw (next, id) (omega arith, rw sum at rest)

-- A clock that is set back by one microsecond between two calls makes them return the same id.
pub generate_msg_id_repeats :
    (counter t : ℕ)
    → counter + 1 < 2 ^ 64
    → t + 1 < 2 ^ 64
    → (generate_msg_id (generate_msg_id counter (some (t + 1))).1 (some t)).0
      ≡ (generate_msg_id counter (some (t + 1))).0
unfolding generate_msg_id
generate_msg_id_repeats counter t hc ht = omega arith
