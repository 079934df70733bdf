-- ===== src/Cpp/Program/Reachable.antt =====
-- Every state that a C++ program reaches keeps the invariant.
use native.Mathlib.Numerals.{add-one}
use libdense.Common.{ℕ, ◌+◌, arith}
use libdense.DenseSim.{Library}
use libdense.DenseSim.Lifetimes.{Lifetimes, WritersKeep, RefusedCreate}
use libdense.Cpp.Variables.{Program, no_variables}
use libdense.Cpp.Program.{
  Step, construct_world, move_construct_world, move_assign_world, destroy_world, call, derive,
  default, drop, Reach, start, next,
}
use libdense.Cpp.Program.Invariant.{IsSound}
use libdense.Cpp.Program.Joining.{later-IsSound, derive-IsSound, default-IsSound}
use libdense.Cpp.Program.Passing.{
  drop-IsSound, destroy-IsSound, move_construct-IsSound, move_assign-IsSound,
}
use libdense.Cpp.Program.Making.{construct-IsSound}
use libdense.Cpp.Program.Calling.{ended, call-IsSound}

module _ {Memory : Type 0} (lib : Library Memory) (laws : Lifetimes lib)
    (keep : WritersKeep lib laws) (refused : RefusedCreate lib) where
  Step-IsSound :
      (n : ℕ) (p q : Program Memory)
      → IsSound lib laws n p
      → Step lib p q
      → IsSound lib laws (n + 1) q
  unfolding ended
  Step-IsSound n p _ h (construct_world x a config unused free) =
      construct-IsSound lib laws refused n x a p config h unused free
  Step-IsSound n p _ h (move_construct_world x y w unused at) =
      move_construct-IsSound lib laws n p h x y w unused at
  Step-IsSound n p _ h (move_assign_world x y v w q ne before at settles) =
      move_assign-IsSound lib laws n p h x y v w q ne before at settles
  Step-IsSound n p _ h (destroy_world x w q at settles) =
      destroy-IsSound lib laws n p h x w q at settles
  Step-IsSound n p _ h (call x y w c at free) = call-IsSound lib laws keep n p h x w at c y free
  Step-IsSound n p _ h (derive y z k k' at free d) =
      later-IsSound lib laws n _ (derive-IsSound lib laws n p h y z k k' at free d)
  Step-IsSound n p _ h (default y k free empty) =
      later-IsSound lib laws n _ (default-IsSound lib laws n p h y k free empty)
  Step-IsSound n p _ h (drop y k q at settles) = drop-IsSound lib laws n p h y k q at settles

  no_variables-IsSound : (m : Memory) → IsSound lib laws 0 (no_variables m)
  no_variables-IsSound m = record {
    consistent = record {
      count = λ a. 0;
      bounded = λ a. omega arith;
      counted = λ a w e. cc;
      live = λ a w p e f. cc;
      distinct = λ a b w x p ne e f g. cc;
      tracked = λ l (y, h, a, e, same, world). cc;
    };
    linked = record {
      existing = λ x a w e s. cc;
      agree = λ x a w st e s at. cc;
      moved = λ x w e s. cc;
      sole = λ x y a v w ne e f s t. cc;
    };
    owned = λ a st at. cc;
  }

  -- Every state that a C++ program reaches from no variables in `k` steps, over a library that keeps
  -- the lifetimes that its header documents and leaves the out-parameter null where it creates no
  -- world, is sound: World objects agree with the states that they share, no two of them share one,
  -- each state is held by an object or a handle, states own distinct worlds that live, and the array
  -- of a handle taken since the last invalidation of its state is borrowed from the world of that
  -- state.
  pub Reach-IsSound :
      {m : Memory} {k : ℕ} {p : Program Memory}
      → Reach lib (no_variables m) k p
      → IsSound lib laws k p
  Reach-IsSound start = no_variables-IsSound _
  Reach-IsSound (next {k} {q} {r} reach step) =
      rw (← add-one k) (Step-IsSound k q r (Reach-IsSound reach) step)
