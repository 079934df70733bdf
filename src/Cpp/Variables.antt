-- ===== src/Cpp/Variables.antt =====
-- What a C++ program holds of the binding: World objects, and handles that share their states.
use libdense.Common.{ℕ, ◌+◌, ◌≡◌, ◌⊎◌, Option, none, some}
use libdense.DenseSim.{Pointer}
use libdense.DenseSim.Lifetimes.{chunks, entries, subscribers, chunk_span}
use libdense.View.State.{Runtime}
use libdense.Leases.{Lease}
use libdense.Leases.Change.{put}
use libdense.Cpp.State.{Outcome, returned, World, Env}
use libdense.Cpp.DeltaEntryRange
use libdense.Cpp.DeltaEntryRange.{DeltaEntryRange}
use libdense.Cpp.SubscriberRange
use libdense.Cpp.SubscriberRange.{SubscriberRange}
use libdense.Cpp.ChunkDeltaView.{ChunkDeltaView}
use libdense.Cpp.FanoutView
use libdense.Cpp.FanoutView.{FanoutView}
use libdense.Cpp.Calls.{Reply}

-- An object that shares the state of a World.
pub data Handle : Type 0 where
  view : FanoutView → Handle
  group : ChunkDeltaView → Handle
  entry_range : DeltaEntryRange → Handle
  subscriber_range : SubscriberRange → Handle
  view_iterator : FanoutView.Iterator → Handle
  entry_iterator : DeltaEntryRange.Iterator → Handle
  subscriber_iterator : SubscriberRange.Iterator → Handle

-- Its shared pointer, its generation, and the array that it may read. An iterator over a range alone
-- does not know where the range ends.
abbrev pub lease : Handle → Lease
lease (view v) = record { world = v.state_; generation = v.generation_; span = chunk_span v.view_ }
lease (group g) = record {
  world = g.state_;
  generation = g.generation_;
  span = chunks g.group_.base (g.group_.index + 1);
}
lease (entry_range r) = record {
  world = r.state_;
  generation = r.generation_;
  span = entries r.entries_ r.count_;
}
lease (subscriber_range r) = record {
  world = r.state_;
  generation = r.generation_;
  span = subscribers r.subscribers_ r.count_;
}
lease (view_iterator i) = record {
  world = i.state_;
  generation = i.generation_;
  span = chunk_span i.view_;
}
lease (entry_iterator i) = record {
  world = i.state_;
  generation = i.generation_;
  span = entries i.entries_ 0;
}
lease (subscriber_iterator i) = record {
  world = i.state_;
  generation = i.generation_;
  span = subscribers i.subscribers_ 0;
}

abbrev pub state_of : Handle → Pointer
state_of h = (lease h).world

-- The variables of the program, by name: its World objects, and all that shares their states.
pub record Program (Memory : Type 0) : Type 0 where
  pub heap : Runtime Memory
  pub objects : ℕ → Option World
  pub handles : ℕ → Option Handle

module _ {Memory : Type 0} where
  -- Something holds the state at `a`.
  abbrev pub Refers : Program Memory → ℕ → Type 0
  Refers p a =
      ((x : ℕ) × (w : World) × (p.objects x ≡ some w) × (w.state_ ≡ some a))
      ⊎ ((y : ℕ) × (h : Handle) × (p.handles y ≡ some h) × (state_of h ≡ some a))

  abbrev pub constructed : ℕ → Outcome World → Program Memory → Program Memory
  constructed x (returned w) p = record p { objects = put p.objects x (some w) }
  constructed x _ p = p

  -- A fanout view that a call returned is a variable from now on.
  abbrev pub replied : ℕ → Outcome Reply → Program Memory → Program Memory
  replied y (returned (Reply.view v)) p = record p { handles = put p.handles y (some (view v)) }
  replied y _ p = p

  abbrev pub entered : Program Memory → World → Env Memory
  entered p w = record { self = w; heap = p.heap }

  abbrev pub left : Program Memory → ℕ → Env Memory → Program Memory
  left p x e = record {
    heap = e.heap;
    objects = put p.objects x (some e.self);
    handles = p.handles;
  }

abbrev pub no_variables : {Memory : Type 0} → Memory → Program Memory
no_variables m = record {
  heap = record { native = m; worlds = λ a. none };
  objects = λ x. none;
  handles = λ y. none;
}
