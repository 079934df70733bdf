-- ===== src/Leases/Current.antt =====
-- An array whose generation is that of its World now.
use libdense.Common.{ℕ, ◌+◌, ◌%◌, ◌^◌, ◌≤◌, ◌<◌, ◌≡◌, ◌≢◌, arith}
use libdense.World.State.{next_generation}

-- A generation that has not wrapped around determines the number of invalidations.
pub generation-injective :
    (base a b n : ℕ)
    → a ≤ b
    → b ≤ n
    → n < 2 ^ 64
    → (base + a) % 2 ^ 64 ≡ (base + b) % 2 ^ 64
    → a ≡ b
generation-injective base a b n h i j e = omega arith

pub next_generation-ne : (g : ℕ) → next_generation g ≢ g
next_generation-ne g e = omega arith
