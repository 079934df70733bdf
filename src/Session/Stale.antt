-- ===== src/Session/Stale.antt =====
-- A view that was current is refused after the World was invalidated.
use libdense.Common.{◌⊎◌, ℕ, ◌≡◌, ◌≢◌, Option, some, arith, inl, inr}
use libdense.Common.Int.{ℤ}
use libdense.DenseSim.{Library, Tick}
use libdense.Python.{ok, err, Parsed}
use libdense.Buffer.Bytes.{Platform}
use libdense.World.State.{DenseWorld, Env, next_generation}
use libdense.World.Lifecycle.{DenseFanoutView, init}
use libdense.World.Init.{untouched, refused, first, again, init-InitOutcome}
use libdense.World.Calls.{Call, Reply, dispatch}
use libdense.World.Frame.{after, dispatch-after}
use libdense.View.State.{fanout_require_valid, invalidated_error}
use libdense.Leases.Current.{next_generation-ne}
use libdense.Session.State.{Session, entered, left}

module _ {Memory : Type 0} (s : Session Memory) (a : ℕ) (v : DenseFanoutView)
    (refers : v.world ≡ some a) where
  advanced-refused :
      (e : Env Memory)
      → e.self.view_generation ≡ next_generation v.generation
      → fanout_require_valid v (left s a e).runtime ≡ err invalidated_error
  unfolding fanout_require_valid
  advanced-refused e h = ground (arith, refers, h, next_generation-ne v.generation)

  same-valid :
      (w : DenseWorld) (e : Env Memory)
      → s.runtime.worlds a ≡ some w
      → e.self ≡ w
      → fanout_require_valid v (left s a e).runtime ≡ fanout_require_valid v s.runtime
  unfolding fanout_require_valid
  same-valid w e at h = ground (arith, refers, at, h)

  module _ (lib : Library Memory) (p : Platform) (w : DenseWorld)
      (current : v.generation ≡ w.view_generation) where
    -- When `begin_tick` on a World returns without an exception, then every view of that World
    -- with the World's generation from before the call is refused as invalidated.
    pub begin_tick-fanout_require_valid :
        (tick : Parsed Tick) (r : Reply)
        → (dispatch lib p (Call.begin_tick tick) (entered s w)).0 ≡ ok r
        → fanout_require_valid v
            (left s a (dispatch lib p (Call.begin_tick tick) (entered s w)).1).runtime
          ≡ err invalidated_error
    unfolding after
    begin_tick-fanout_require_valid tick r h =
        let out = dispatch lib p (Call.begin_tick tick) (entered s w) in
        let (changed, held) = dispatch-after lib p (Call.begin_tick tick) (entered s w) in
        advanced-refused out.1 (ground (arith, rw h at changed, current))

    -- After `close` on an open World every view of it with the World's generation from before the
    -- call is refused as invalidated.
    pub close-fanout_require_valid :
        {q : ℕ}
        → w.world ≡ some q
        → fanout_require_valid v (left s a (dispatch lib p Call.close (entered s w)).1).runtime
          ≡ err invalidated_error
    unfolding after
    close-fanout_require_valid h =
        let out = dispatch lib p Call.close (entered s w) in
        let (changed, held) = dispatch-after lib p Call.close (entered s w) in
        advanced-refused out.1 (ground (arith, changed, h, current))

    -- World.__init__ on an open World refuses every view with the generation from before it where
    -- it returns, and where it raises an exception the view's test gives what it gave before.
    pub init-fanout_require_valid :
        {q : ℕ} (args : Parsed (Option ℤ × Option ℤ × Option ℤ × Option ℤ))
        → s.runtime.worlds a ≡ some w
        → w.world ≡ some q
        → let (r, e) = init lib args (entered s w) in
          ((r ≡ ok tt) × (fanout_require_valid v (left s a e).runtime ≡ err invalidated_error))
          ⊎ ((r ≢ ok tt)
              × (fanout_require_valid v (left s a e).runtime ≡ fanout_require_valid v s.runtime))
    init-fanout_require_valid args at open_at =
        let out = init lib args (entered s w) in
        elim (init-InitOutcome lib args (entered s w)) [
          | untouched e raised ↦ inr (raised, same-valid w out.1 at (ground (arith, e)))
          | refused config bad e ↦
              inr (ground (arith, e), same-valid w out.1 at (ground (arith, e)))
          | first config good shut e ↦ absurd (cc (shut, open_at))
          | again config q' good open' e ↦
              inl (ground (arith, e), advanced-refused out.1 (ground (arith, e, current)))
        ]
