-- ===== src/Leases/Invariant.antt =====
-- The invariant behind the generations: an array whose generation is its World's is not stale. A World
-- starts with the generation `base`.
use libdense.Common.{ℕ, ◌+◌, ◌%◌, ◌^◌, ◌≤◌, ◌≡◌, ◌≢◌, some}
use libdense.DenseSim.{Library}
use libdense.DenseSim.Lifetimes.{Lifetimes}
use libdense.World.State.{DenseWorld}
use libdense.View.State.{Runtime}
use libdense.Leases.{Lease}

module _ {Memory : Type 0} (lib : Library Memory) (laws : Lifetimes lib) (base : ℕ) where
  open laws use {IsLive, IsBorrowed}

  -- An array was borrowed when its World had been invalidated `taken` times; if that is still so, then
  -- the World is open and the array is borrowed from it.
  pub record IsTracked (count : ℕ → ℕ) (s : Runtime Memory) (v : Lease) : Type 0 where
    pub address : ℕ
    pub refers : v.world ≡ some address
    pub world : DenseWorld
    pub exists : s.worlds address ≡ some world
    pub taken : ℕ
    pub taken_le : taken ≤ count address
    pub generation : v.generation ≡ (base + taken) % 2 ^ 64
    pub current :
        taken ≡ count address → (p : ℕ) × (world.world ≡ some p) × IsBorrowed p v.span s.native

  -- The arrays in use are those of `holds`, after at most `n` invalidations of each World. `count` is how often each one was.
  pub record IsConsistent (holds : Lease → Type 0) (n : ℕ) (s : Runtime Memory) : Type 0 where
    pub count : ℕ → ℕ
    pub bounded : (a : ℕ) → count a ≤ n
    pub counted :
        (a : ℕ) (w : DenseWorld)
        → s.worlds a ≡ some w
        → w.view_generation ≡ (base + count a) % 2 ^ 64
    pub live :
        (a : ℕ) (w : DenseWorld) (p : ℕ)
        → s.worlds a ≡ some w
        → w.world ≡ some p
        → IsLive p s.native
    pub distinct :
        (a b : ℕ) (w x : DenseWorld) (p : ℕ)
        → a ≢ b
        → s.worlds a ≡ some w
        → s.worlds b ≡ some x
        → w.world ≡ some p
        → x.world ≢ some p
    pub tracked : (v : Lease) → holds v → IsTracked count s v
