-- ===== src/Cpp/Program/Invariant.antt =====
-- The invariant of C++ programs: a World and its shared state agree, and every state is held.
use libdense.Common.{ℕ, ◌≡◌, ◌≢◌, ◌⊎◌, Option, none, some}
use libdense.DenseSim.{Pointer, Library}
use libdense.DenseSim.Lifetimes.{Lifetimes}
use libdense.Leases.{Lease}
use libdense.Leases.Invariant
use libdense.Cpp.State.{WorldState, World}
use libdense.Cpp.Variables.{Handle, Program, lease, Refers}

-- The arrays of the handles that share a state.
abbrev pub Holds : {Memory : Type 0} → Program Memory → Lease → Type 0
Holds p l =
    (y : ℕ) × (h : Handle) × (a : ℕ) × (p.handles y ≡ some h) × (lease h ≡ l) × (l.world ≡ some a)

-- Between the World objects and the states.
pub record IsLinked (objects : ℕ → Option World) (worlds : ℕ → Option WorldState) : Type 0 where
  pub existing :
      (x a : ℕ) (w : World)
      → objects x ≡ some w
      → w.state_ ≡ some a
      → (st : WorldState) × (worlds a ≡ some st)
  pub agree :
      (x a : ℕ) (w : World) (st : WorldState)
      → objects x ≡ some w
      → w.state_ ≡ some a
      → worlds a ≡ some st
      → st.world ≡ w.world_
  pub moved : (x : ℕ) (w : World) → objects x ≡ some w → w.state_ ≡ none → w.world_ ≡ none
  -- No two World objects share a state.
  pub sole :
      (x y a : ℕ) (v w : World)
      → x ≢ y
      → objects x ≡ some v
      → objects y ≡ some w
      → v.state_ ≡ some a
      → w.state_ ≢ some a

module _ {Memory : Type 0} (lib : Library Memory) (laws : Lifetimes lib) where
  -- After at most `n` invalidations of each state, which starts with the generation 0.
  pub record IsSound (n : ℕ) (p : Program Memory) : Type 0 where
    pub consistent : Invariant.IsConsistent lib laws 0 (Holds p) n p.heap
    pub linked : IsLinked p.objects p.heap.worlds
    -- Nothing leaks: each state is held by something.
    pub owned : (a : ℕ) (st : WorldState) → p.heap.worlds a ≡ some st → Refers p a

  -- The same, but for a state that a shared pointer has let go of.
  pub record IsReady (n : ℕ) (given_up : Pointer) (p : Program Memory) : Type 0 where
    pub consistent : Invariant.IsConsistent lib laws 0 (Holds p) n p.heap
    pub linked : IsLinked p.objects p.heap.worlds
    pub owned :
        (a : ℕ) (st : WorldState) → p.heap.worlds a ≡ some st → (given_up ≡ some a) ⊎ Refers p a
