-- ===== src/Leases/Holdings.antt =====
-- What becomes of the invariant where the arrays in use change, and nothing else.
use libdense.Common.{ℕ, ◌+◌, arith}
use libdense.DenseSim.{Library}
use libdense.DenseSim.Lifetimes.{Lifetimes, Span}
use libdense.View.State.{Runtime}
use libdense.Leases.{Lease}
use libdense.Leases.Invariant.{IsTracked, IsConsistent}

module _ {Memory : Type 0} (lib : Library Memory) (laws : Lifetimes lib) (base : ℕ) where
  open laws use {IsBorrowed}

  pub reheld-IsConsistent :
      (holds holds' : Lease → Type 0) (n : ℕ) (s : Runtime Memory)
      → (h : IsConsistent lib laws base holds n s)
      → ((l : Lease) → holds' l → IsTracked lib laws base h.count s l)
      → IsConsistent lib laws base holds' n s
  reheld-IsConsistent holds holds' n s h tracked = record {
    count = h.count;
    bounded = h.bounded;
    counted = h.counted;
    live = h.live;
    distinct = h.distinct;
    tracked = tracked;
  }

  pub later-IsConsistent :
      (holds : Lease → Type 0) (n : ℕ) (s : Runtime Memory)
      → IsConsistent lib laws base holds n s
      → IsConsistent lib laws base holds (n + 1) s
  later-IsConsistent holds n s h = record {
    count = h.count;
    bounded = λ a. omega (arith, h.bounded a);
    counted = h.counted;
    live = h.live;
    distinct = h.distinct;
    tracked = h.tracked;
  }

  -- An array that is found through another one is tracked as that one is.
  pub found-IsTracked :
      (count : ℕ → ℕ) (s : Runtime Memory) (l : Lease) (v : Span)
      → ((p : ℕ) → IsBorrowed p l.span s.native → IsBorrowed p v s.native)
      → IsTracked lib laws base count s l
      → IsTracked lib laws base count s (record l { span = v })
  found-IsTracked count s l v found t = record {
    address = t.address;
    refers = t.refers;
    world = t.world;
    exists = t.exists;
    taken = t.taken;
    taken_le = t.taken_le;
    generation = t.generation;
    current = λ e. let (p, open_at, borrowed) = t.current e in (p, open_at, found p borrowed);
  }
