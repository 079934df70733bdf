-- ===== src/Cpp/Program.antt =====
-- The steps by which a C++ program changes what it holds of the binding. A shared pointer
-- destroys its state with the last object that holds it.
pub mod Invariant
pub mod Handles
pub mod Objects
pub mod Settling
pub mod Passing
pub mod Joining
pub mod Making
pub mod Effects
pub mod Calling
pub mod Reachable
pub mod Safety
pub mod Reading
pub mod Faults
pub mod Sharing
pub mod Worlds
pub mod Leaks
use libdense.Common.{ℕ, suc, ◌+◌, ◌≡◌, ◌≢◌, ◌<◌, ◌⊎◌, Option, none, some}
use libdense.DenseSim.{Pointer, Library}
use libdense.DenseSim.Lifetimes.{chunks, entries, subscribers, chunk_span}
use libdense.View.State.{Runtime}
use libdense.Leases.{Lease}
use libdense.Leases.Change.{put}
use libdense.Cpp.State.{Outcome, returned, WorldState, World, moved_from, Env}
use libdense.Cpp.Types.{WorldConfig}
use libdense.Cpp.DeltaEntryRange
use libdense.Cpp.DeltaEntryRange.{DeltaEntryRange}
use libdense.Cpp.SubscriberRange
use libdense.Cpp.SubscriberRange.{SubscriberRange}
use libdense.Cpp.ChunkDeltaView
use libdense.Cpp.ChunkDeltaView.{ChunkDeltaView}
use libdense.Cpp.FanoutView
use libdense.Cpp.FanoutView.{FanoutView}
use libdense.Cpp.Lifecycle.{construct, destroy_state, move_construct, move_assign}
use libdense.Cpp.Calls.{Call, Reply, dispatch}
use libdense.Cpp.Variables.{
  Handle, view, group, entry_range, subscriber_range, view_iterator, entry_iterator,
  subscriber_iterator, lease, state_of, Program, Refers, constructed, replied, entered, left,
}

module _ {Memory : Type 0} (lib : Library Memory) where
  -- A shared pointer has let go of `state`: as std::shared_ptr documents, the last one destroys it.
  pub data Settles (p : Program Memory) : Pointer → Program Memory → Type 0 where
    empty : Settles p none p
    shared : (a : ℕ) → Refers p a → Settles p (some a) p
    last :
        (a : ℕ) (st : WorldState)
        → p.heap.worlds a ≡ some st
        → ¬ (Refers p a)
        → Settles p (some a) (record p { heap = destroy_state lib a st p.heap })

  -- The ways to get a handle from another one: `Derived h h'`. A past-the-end iterator is not
  -- dereferenced.
  pub data Derived (s : Runtime Memory) : Handle → Handle → Type 0 where
    copy : (h : Handle) → Derived s h h
    view_at :
        (v : FanoutView) (i : ℕ) (g : ChunkDeltaView)
        → FanoutView.at v i s ≡ returned g
        → Derived s (view v) (group g)
    view_begin :
        (v : FanoutView) (i : FanoutView.Iterator)
        → FanoutView.begin v s ≡ returned i
        → Derived s (view v) (view_iterator i)
    view_end :
        (v : FanoutView) (i : FanoutView.Iterator)
        → FanoutView.end v s ≡ returned i
        → Derived s (view v) (view_iterator i)
    view_increment :
        (i j : FanoutView.Iterator)
        → FanoutView.increment i s ≡ returned j
        → Derived s (view_iterator i) (view_iterator j)
    view_dereference :
        (i : FanoutView.Iterator) (g : ChunkDeltaView)
        → i.index_ < i.view_.chunk_count
        → FanoutView.dereference i s ≡ returned g
        → Derived s (view_iterator i) (group g)
    group_entries :
        (g : ChunkDeltaView) (r : DeltaEntryRange)
        → ChunkDeltaView.entries lib g s ≡ returned r
        → Derived s (group g) (entry_range r)
    group_subscribers :
        (g : ChunkDeltaView) (r : SubscriberRange)
        → ChunkDeltaView.subscribers lib g s ≡ returned r
        → Derived s (group g) (subscriber_range r)
    entry_begin :
        (r : DeltaEntryRange) (i : DeltaEntryRange.Iterator)
        → DeltaEntryRange.begin r s ≡ returned i
        → Derived s (entry_range r) (entry_iterator i)
    entry_end :
        (r : DeltaEntryRange) (i : DeltaEntryRange.Iterator)
        → DeltaEntryRange.end r s ≡ returned i
        → Derived s (entry_range r) (entry_iterator i)
    entry_increment :
        (i j : DeltaEntryRange.Iterator)
        → DeltaEntryRange.increment i s ≡ returned j
        → Derived s (entry_iterator i) (entry_iterator j)
    subscriber_begin :
        (r : SubscriberRange) (i : SubscriberRange.Iterator)
        → SubscriberRange.begin r s ≡ returned i
        → Derived s (subscriber_range r) (subscriber_iterator i)
    subscriber_end :
        (r : SubscriberRange) (i : SubscriberRange.Iterator)
        → SubscriberRange.end r s ≡ returned i
        → Derived s (subscriber_range r) (subscriber_iterator i)
    subscriber_increment :
        (i j : SubscriberRange.Iterator)
        → SubscriberRange.increment i s ≡ returned j
        → Derived s (subscriber_iterator i) (subscriber_iterator j)

  pub data Step (p : Program Memory) : Program Memory → Type 0 where
    -- `World x(config)`, with the state at an address where none lies.
    construct_world :
        (x a : ℕ) (config : WorldConfig)
        → p.objects x ≡ none
        → p.heap.worlds a ≡ none
        → Step p
            (let (r, h) = construct lib a config p.heap in constructed x r (record p { heap = h }))
    -- `World x(std::move(y))`
    move_construct_world :
        (x y : ℕ) (w : World)
        → p.objects x ≡ none
        → p.objects y ≡ some w
        → Step p (record p {
          objects = put (put p.objects y (some (move_construct w).1)) x (some (move_construct w).0);
        })
    -- `x = std::move(y)`, for two objects.
    move_assign_world :
        (x y : ℕ) (v w : World) (q : Program Memory)
        → x ≢ y
        → p.objects x ≡ some v
        → p.objects y ≡ some w
        → Settles
            (record p {
              objects =
                  put (put p.objects y (some (move_assign v w).1)) x (some (move_assign v w).0);
            })
            v.state_
            q
        → Step p q
    -- The World's lifetime ends.
    destroy_world :
        (x : ℕ) (w : World) (q : Program Memory)
        → p.objects x ≡ some w
        → Settles (record p { objects = put p.objects x none }) w.state_ q
        → Step p q
    -- A member function of a World; a fanout view goes to the variable `y`.
    call :
        (x y : ℕ) (w : World) (c : Call)
        → p.objects x ≡ some w
        → p.handles y ≡ none
        → Step p (let (r, e) = dispatch lib c (entered p w) in replied y r (left p x e))
    derive :
        (y z : ℕ) (h h' : Handle)
        → p.handles z ≡ some h
        → p.handles y ≡ none
        → Derived p.heap h h'
        → Step p (record p { handles = put p.handles y (some h') })
    -- A default-constructed iterator, or what is left of a view that was moved.
    default :
        (y : ℕ) (h : Handle)
        → p.handles y ≡ none
        → state_of h ≡ none
        → Step p (record p { handles = put p.handles y (some h) })
    -- The lifetime of a view, a range or an iterator ends.
    drop :
        (y : ℕ) (h : Handle) (q : Program Memory)
        → p.handles y ≡ some h
        → Settles (record p { handles = put p.handles y none }) (state_of h) q
        → Step p q

  -- A run of so many steps.
  pub data Reach (p : Program Memory) : ℕ → Program Memory → Type 0 where
    start : Reach p 0 p
    next : {k : ℕ} {q r : Program Memory} → Reach p k q → Step q r → Reach p (suc k) r
