-- ===== src/Session/Safety.antt =====
-- What the generations are for: a view that passes its test is borrowed from an open world.
use libdense.Common.{ℕ, ◌^◌, ◌<◌, ◌≡◌, ◌≢◌, some, arith}
use libdense.DenseSim.{Library}
use libdense.DenseSim.Lifetimes.{Lifetimes, WritersKeep, chunk_span, borrowed-IsReadableView}
use libdense.Python.{ok, fault}
use libdense.Buffer.Bytes.{Platform}
use libdense.World.State.{DenseWorld}
use libdense.World.Lifecycle.{DenseFanoutView}
use libdense.View.State.{fanout_require_valid}
use libdense.View.Reads.{Read, read}
use libdense.View.Safety.{read-ne-fault}
use libdense.Session.State.{Session, In, Reach, no_objects}
use libdense.Leases.Current.{generation-injective}
use libdense.Session.Invariant.{IsConsistent, lease, held}
use libdense.Session.Reachable.{Reach-IsConsistent}

module _ {Memory : Type 0} (lib : Library Memory) (laws : Lifetimes lib) where
  open laws use {IsLive, IsBorrowed}

  module _ (k : ℕ) (s : Session Memory) (h : IsConsistent lib laws k s) (v : DenseFanoutView)
      (i : In v s.views) where
    tracked-ne-fault : fanout_require_valid v s.runtime ≢ fault
    unfolding fanout_require_valid
    tracked-ne-fault q =
        let t = h.tracked (lease v) (held s v i) in ground (arith, t.refers, t.exists)

    tracked-IsBorrowed :
        k < 2 ^ 64
        → fanout_require_valid v s.runtime ≡ ok tt
        → (a p : ℕ) × (w : DenseWorld) × (v.world ≡ some a)
          × (s.runtime.worlds a ≡ some w)
          × (w.world ≡ some p)
          × IsLive p s.runtime.native
          × IsBorrowed p (chunk_span v.view) s.runtime.native
    unfolding fanout_require_valid
    tracked-IsBorrowed small valid =
        let t = h.tracked (lease v) (held s v i) in
        let same : t.world.view_generation ≡ v.generation = ground (arith, t.refers, t.exists) in
        let now : t.taken ≡ h.count t.address =
          generation-injective 1 t.taken (h.count t.address) k t.taken_le (h.bounded t.address)
            small (cc (t.generation, h.counted t.address t.world t.exists, same)) in
        let (p, open_at, borrowed) = t.current now in
        (
          t.address,
          p,
          t.world,
          t.refers,
          t.exists,
          open_at,
          h.live t.address t.world p t.exists open_at,
          borrowed,
        )

module _ {Memory : Type 0} (lib : Library Memory) (laws : Lifetimes lib)
    (keep : WritersKeep lib laws) (pf : Platform) {m : Memory} {k : ℕ} {s : Session Memory}
    (reach : Reach lib pf (no_objects m) k s) (v : DenseFanoutView) (alive : In v s.views) where
  open laws use {IsLive, IsBorrowed}

  -- In a state that a program of fewer than 2 ^ 64 steps reaches, where the library keeps the
  -- lifetimes that its header documents: when dense_fanout_require_valid accepts a view that is
  -- alive, then the World that it refers to is open, and the view is borrowed from that world.
  pub fanout_require_valid-IsBorrowed :
      k < 2 ^ 64
      → fanout_require_valid v s.runtime ≡ ok tt
      → (a p : ℕ) × (w : DenseWorld) × (v.world ≡ some a)
        × (s.runtime.worlds a ≡ some w)
        × (w.world ≡ some p)
        × IsLive p s.runtime.native
        × IsBorrowed p (chunk_span v.view) s.runtime.native
  fanout_require_valid-IsBorrowed =
      tracked-IsBorrowed lib laws k s (Reach-IsConsistent lib laws keep pf reach) v alive

  -- In such a state no function of a view, of a chunk's view or of their sequences, on a view that
  -- is alive and with any index, reads memory that the library has given up or that lies outside
  -- of an array: it returns a result or raises an exception.
  pub Reach-read-ne-fault : k < 2 ^ 64 → (r : Read) → read lib v r s.runtime ≢ fault
  Reach-read-ne-fault small =
      read-ne-fault lib v s.runtime
        (tracked-ne-fault lib laws k s (Reach-IsConsistent lib laws keep pf reach) v alive)
        λ valid.
          let (a, p, w, refers, exists, open_at, live, borrowed) =
            fanout_require_valid-IsBorrowed small valid in
          borrowed-IsReadableView lib laws p v.view s.runtime.native borrowed
