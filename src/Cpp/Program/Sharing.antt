-- ===== src/Cpp/Program/Sharing.antt =====
-- What becomes of the test of a handle when its World ticks or closes.
use libdense.Common.{ℕ, ◌≡◌, some, arith}
use libdense.DenseSim.{Library}
use libdense.Leases.Current.{next_generation-ne}
use libdense.Cpp.State.{returned, thrown, Env, ensure_view, stale_error, closed_error}
use libdense.Cpp.Lifecycle.{begin_tick, close}

module _ {Memory : Type 0} (lib : Library Memory) (s : Env Memory) (g : ℕ) (u : Unit {0})
    (valid : ensure_view s.self.state_ g s.heap ≡ returned u) where
  -- A begin_tick that returns makes a current generation of its World's state stale: the test of
  -- every view, range and iterator that has it throws.
  pub begin_tick-ensure_view :
      (t : ℕ) (v : Unit {0})
      → (begin_tick lib t s).0 ≡ returned v
      → ensure_view s.self.state_ g (begin_tick lib t s).1.heap ≡ thrown stale_error
  unfolding ensure_view begin_tick
  begin_tick-ensure_view t v e = ground (arith, valid, e, next_generation-ne g)

  -- `close` on an open World makes the test of each of its current generations throw
  -- "dense::World is closed".
  pub close-ensure_view :
      (w : ℕ)
      → s.self.world_ ≡ some w
      → ensure_view s.self.state_ g (close lib s).1.heap ≡ thrown closed_error
  unfolding ensure_view close
  close-ensure_view w open_at = ground (arith, valid, open_at)
