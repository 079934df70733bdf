-- ===== src/DenseSim/Lifetimes.antt =====
-- What include/dense/dense_sim.h documents of lifetimes, as laws that a client takes as a
-- parameter: a created world is a new object, and the spans of a fanout view stay readable until
-- the next successful ds_world_begin_tick on their world, or until it is destroyed.
use libdense.Common.{ℕ, ◌≤◌, ◌<◌, ◌≡◌, ◌≢◌, none, some}
use libdense.Common.Int.{ℤ}
use libdense.DenseSim.Types.{
  ds_ok, WorldConfig, ObserverConfig, MotionPlan, DeltaEntry, ChunkDelta, FanoutSpan, Pointer,
}
use libdense.DenseSim.Functions.{Library}

-- An array that the library lends: its address, and how many elements it has.
pub data Span : Type 0 where
  chunks : Pointer → ℕ → Span
  entries : Pointer → ℕ → Span
  subscribers : Pointer → ℕ → Span

abbrev pub size : Span → ℕ
size (chunks a n) = n
size (entries a n) = n
size (subscribers a n) = n

-- The first `k` elements.
abbrev pub part : ℕ → Span → Span
part k (chunks a n) = chunks a k
part k (entries a n) = entries a k
part k (subscribers a n) = subscribers a k

-- The array of a ds_fanout_view.
abbrev pub chunk_span : FanoutSpan → Span
chunk_span v = chunks v.chunks v.chunk_count

module _ {Memory : Type 0} (lib : Library Memory) where
  -- Every element of the array can be read.
  abbrev pub IsReadable : Span → Memory → Type 0
  IsReadable (chunks a n) m = (i : ℕ) → i < n → (c : ChunkDelta) × (lib.read_chunk a i m ≡ some c)
  IsReadable (entries a n) m = (i : ℕ) → i < n → (d : DeltaEntry) × (lib.read_entry a i m ≡ some d)
  IsReadable (subscribers a n) m = (i : ℕ) → i < n → (o : ℕ) × (lib.read_subscriber a i m ≡ some o)

  -- Every chunk of the view, and every element of the chunk's arrays, can be read.
  pub record IsReadableView (v : FanoutSpan) (m : Memory) : Type 0 where
    pub chunk : IsReadable (chunk_span v) m
    pub entry :
        (i : ℕ) (c : ChunkDelta)
        → i < v.chunk_count
        → lib.read_chunk v.chunks i m ≡ some c
        → IsReadable (entries c.entries c.entry_count) m
    pub subscriber :
        (i : ℕ) (c : ChunkDelta)
        → i < v.chunk_count
        → lib.read_chunk v.chunks i m ≡ some c
        → IsReadable (subscribers c.subscribers c.subscriber_count) m

  -- `IsLive p m`: a world lies at `p`. `IsBorrowed p v m`: the array `v`, of a view of that world or
  -- nested in one, has not been invalidated. The functions of the library keep both, but for the
  -- two that the header names.
  pub record Lifetimes : Type 1 where
    pub IsLive : ℕ → Memory → Type 0
    pub IsBorrowed : ℕ → Span → Memory → Type 0
    pub borrowed_readable : (p : ℕ) (v : Span) (m : Memory) → IsBorrowed p v m → IsReadable v m
    -- The arrays nested in a chunk, and the first elements of an array.
    pub nested_borrowed :
        (p : ℕ) (a : Pointer) (n i : ℕ) (c : ChunkDelta) (m : Memory)
        → IsBorrowed p (chunks a n) m
        → i < n
        → lib.read_chunk a i m ≡ some c
        → IsBorrowed p (entries c.entries c.entry_count) m
          × IsBorrowed p (subscribers c.subscribers c.subscriber_count) m
    pub part_borrowed :
        (p : ℕ) (v : Span) (k : ℕ) (m : Memory)
        → k ≤ size v
        → IsBorrowed p v m
        → IsBorrowed p (part k v) m
    pub view_borrowed :
        (p : ℕ) (v : FanoutSpan) (m : Memory)
        → IsLive p m
        → lib.world_get_fanout_view (some p) m ≡ (ds_ok, v)
        → IsBorrowed p (chunk_span v) m
    pub create_result :
        (config : WorldConfig) (m : Memory)
        → (lib.world_create config m).0 ≡ ds_ok
        → (p : ℕ) × ((lib.world_create config m).1 ≡ some p)
          × IsLive p (lib.world_create config m).2
          × ¬ (IsLive p m)
    pub create_live :
        (config : WorldConfig) (m : Memory) (p : ℕ)
        → IsLive p m
        → IsLive p (lib.world_create config m).2
    pub create_borrowed :
        (config : WorldConfig) (m : Memory) (p : ℕ) (v : Span)
        → IsBorrowed p v m
        → IsBorrowed p v (lib.world_create config m).2
    -- The binding destroys the world of a World that has none, too.
    pub destroy_null : (m : Memory) → lib.world_destroy none m ≡ m
    pub destroy_live :
        (p q : ℕ) (m : Memory)
        → p ≢ q
        → IsLive p m
        → IsLive q m
        → IsLive q (lib.world_destroy (some p) m)
    pub destroy_borrowed :
        (p q : ℕ) (v : Span) (m : Memory)
        → p ≢ q
        → IsLive p m
        → IsBorrowed q v m
        → IsBorrowed q v (lib.world_destroy (some p) m)
    pub begin_tick_live :
        (p t q : ℕ) (m : Memory)
        → IsLive p m
        → IsLive q m
        → IsLive q (lib.world_begin_tick (some p) t m).1
    pub begin_tick_borrowed :
        (p t q : ℕ) (v : Span) (m : Memory)
        → p ≢ q
        → IsLive p m
        → IsBorrowed q v m
        → IsBorrowed q v (lib.world_begin_tick (some p) t m).1
    pub begin_tick_refused :
        (p t q : ℕ) (v : Span) (m : Memory)
        → IsLive p m
        → (lib.world_begin_tick (some p) t m).0 ≢ ds_ok
        → IsBorrowed q v m
        → IsBorrowed q v (lib.world_begin_tick (some p) t m).1

  -- A world that could not be created leaves the out-parameter null, as the client has set it.
  pub record RefusedCreate : Type 0 where
    pub null :
        (config : WorldConfig) (m : Memory)
        → (lib.world_create config m).0 ≢ ds_ok
        → (lib.world_create config m).1 ≡ none

  module _ (laws : Lifetimes) where
    open laws use {IsLive, IsBorrowed}

    -- A change of the memory that invalidates nothing.
    pub record Keeps (m m' : Memory) : Type 0 where
      pub live : (p : ℕ) → IsLive p m → IsLive p m'
      pub borrowed : (p : ℕ) (v : Span) → IsBorrowed p v m → IsBorrowed p v m'

    -- The other functions that write, on a world that lives.
    pub record WritersKeep : Type 0 where
      pub end_tick : (p : ℕ) (m : Memory) → IsLive p m → Keeps m (lib.world_end_tick (some p) m).1
      pub spawn :
          (p id : ℕ) (x y : ℤ) (mask : ℕ) (m : Memory)
          → IsLive p m
          → Keeps m (lib.entity_spawn (some p) id x y mask m).1
      pub move :
          (p id : ℕ) (x y : ℤ) (m : Memory)
          → IsLive p m
          → Keeps m (lib.entity_move (some p) id x y m).1
      pub remove :
          (p id : ℕ) (m : Memory) → IsLive p m → Keeps m (lib.entity_remove (some p) id m).1
      pub mark_dirty :
          (p id mask : ℕ) (m : Memory)
          → IsLive p m
          → Keeps m (lib.entity_mark_dirty (some p) id mask m).1
      pub set_motion_plan :
          (p id : ℕ) (plan : MotionPlan) (m : Memory)
          → IsLive p m
          → Keeps m (lib.entity_set_motion_plan (some p) id plan m).1
      pub clear_motion_plan :
          (p id : ℕ) (m : Memory)
          → IsLive p m
          → Keeps m (lib.entity_clear_motion_plan (some p) id m).1
      pub create_observer :
          (p : ℕ) (config : ObserverConfig) (m : Memory)
          → IsLive p m
          → Keeps m (lib.observer_create (some p) config m).2
      pub destroy_observer :
          (p id : ℕ) (m : Memory) → IsLive p m → Keeps m (lib.observer_destroy (some p) id m).1
      pub anchor_entity :
          (p id e : ℕ) (m : Memory)
          → IsLive p m
          → Keeps m (lib.observer_anchor_entity (some p) id e m).1
      pub set_position :
          (p id : ℕ) (x y : ℤ) (m : Memory)
          → IsLive p m
          → Keeps m (lib.observer_set_position (some p) id x y m).1
      pub set_radius :
          (p id : ℕ) (r : ℤ) (m : Memory)
          → IsLive p m
          → Keeps m (lib.observer_set_radius (some p) id r m).1

    pub borrowed-IsReadableView :
        (p : ℕ) (v : FanoutSpan) (m : Memory) → IsBorrowed p (chunk_span v) m → IsReadableView v m
    borrowed-IsReadableView p v m b = record {
      chunk = laws.borrowed_readable p _ m b;
      entry = λ i c lt e.
          laws.borrowed_readable p _ m
            (laws.nested_borrowed p v.chunks v.chunk_count i c m b lt e).0;
      subscriber = λ i c lt e.
          laws.borrowed_readable p _ m
            (laws.nested_borrowed p v.chunks v.chunk_count i c m b lt e).1;
    }
