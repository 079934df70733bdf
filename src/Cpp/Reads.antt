-- ===== src/Cpp/Reads.antt =====
-- The operations of the views, the ranges and the iterators, as one type for each kind of handle.
use libdense.Common.{ℕ, ◌<◌, ◌≡◌, some}
use libdense.DenseSim.{Library}
use libdense.Cpp.State.{Reader, give, ◌>>=◌}
use libdense.Cpp.DeltaEntryRange
use libdense.Cpp.SubscriberRange
use libdense.Cpp.ChunkDeltaView
use libdense.Cpp.FanoutView
use libdense.Cpp.Variables.{
  Program, Handle, view, group, entry_range, subscriber_range, view_iterator, entry_iterator,
  subscriber_iterator,
}

pub data Read : Handle → Type 0 where
  tick : (v : FanoutView.FanoutView) → Read (view v)
  size : (v : FanoutView.FanoutView) → Read (view v)
  empty : (v : FanoutView.FanoutView) → Read (view v)
  delta_count : (v : FanoutView.FanoutView) → Read (view v)
  subscriber_count : (v : FanoutView.FanoutView) → Read (view v)
  at : (v : FanoutView.FanoutView) (i : ℕ) → Read (view v)
  begin : (v : FanoutView.FanoutView) → Read (view v)
  end : (v : FanoutView.FanoutView) → Read (view v)
  view_dereference : (i : FanoutView.Iterator) → Read (view_iterator i)
  view_increment : (i : FanoutView.Iterator) → Read (view_iterator i)
  view_post_increment : (i : FanoutView.Iterator) → Read (view_iterator i)
  chunk_x : (g : ChunkDeltaView.ChunkDeltaView) → Read (group g)
  chunk_y : (g : ChunkDeltaView.ChunkDeltaView) → Read (group g)
  group_entry_count : (g : ChunkDeltaView.ChunkDeltaView) → Read (group g)
  group_subscriber_count : (g : ChunkDeltaView.ChunkDeltaView) → Read (group g)
  entries : (g : ChunkDeltaView.ChunkDeltaView) → Read (group g)
  subscribers : (g : ChunkDeltaView.ChunkDeltaView) → Read (group g)
  entry_size : (r : DeltaEntryRange.DeltaEntryRange) → Read (entry_range r)
  entry_empty : (r : DeltaEntryRange.DeltaEntryRange) → Read (entry_range r)
  entry_at : (r : DeltaEntryRange.DeltaEntryRange) (i : ℕ) → Read (entry_range r)
  entry_begin : (r : DeltaEntryRange.DeltaEntryRange) → Read (entry_range r)
  entry_end : (r : DeltaEntryRange.DeltaEntryRange) → Read (entry_range r)
  entry_dereference : (i : DeltaEntryRange.Iterator) → Read (entry_iterator i)
  entry_increment : (i : DeltaEntryRange.Iterator) → Read (entry_iterator i)
  entry_post_increment : (i : DeltaEntryRange.Iterator) → Read (entry_iterator i)
  subscriber_size : (r : SubscriberRange.SubscriberRange) → Read (subscriber_range r)
  subscriber_empty : (r : SubscriberRange.SubscriberRange) → Read (subscriber_range r)
  subscriber_at : (r : SubscriberRange.SubscriberRange) (i : ℕ) → Read (subscriber_range r)
  subscriber_begin : (r : SubscriberRange.SubscriberRange) → Read (subscriber_range r)
  subscriber_end : (r : SubscriberRange.SubscriberRange) → Read (subscriber_range r)
  subscriber_dereference : (i : SubscriberRange.Iterator) → Read (subscriber_iterator i)
  subscriber_increment : (i : SubscriberRange.Iterator) → Read (subscriber_iterator i)
  subscriber_post_increment : (i : SubscriberRange.Iterator) → Read (subscriber_iterator i)

module _ {Memory : Type 0} where
  -- operator* of an iterator over a range has no bound check: its caller keeps to the elements of a
  -- range of the program. All other operations are free.
  abbrev pub IsInRange : Program Memory → {h : Handle} → Read h → Type 0
  IsInRange p (entry_dereference i) =
      (z : ℕ) × (r : DeltaEntryRange.DeltaEntryRange) × (j : ℕ) × (p.handles z
        ≡ some (entry_range r))
      × (i ≡ DeltaEntryRange.iterator_at r j)
      × (j < r.count_)
  IsInRange p (subscriber_dereference i) =
      (z : ℕ) × (r : SubscriberRange.SubscriberRange) × (j : ℕ) × (p.handles z
        ≡ some (subscriber_range r))
      × (i ≡ SubscriberRange.iterator_at r j)
      × (j < r.count_)
  IsInRange p _ = Unit

  -- A read whose value is not used.
  unfoldable pub ignoring : {A : Type 0} → Reader Memory A → Reader Memory (Unit {0})
  ignoring m = do a ← m; give tt

module _ {Memory : Type 0} (lib : Library Memory) where
  unfoldable pub run : {h : Handle} → Read h → Reader Memory (Unit {0})
  unfolding ignoring
  run (tick v) = ignoring (FanoutView.tick v)
  run (size v) = ignoring (FanoutView.size v)
  run (empty v) = ignoring (FanoutView.empty v)
  run (delta_count v) = ignoring (FanoutView.delta_count v)
  run (subscriber_count v) = ignoring (FanoutView.subscriber_count v)
  run (at v i) = ignoring (FanoutView.at v i)
  run (begin v) = ignoring (FanoutView.begin v)
  run (end v) = ignoring (FanoutView.end v)
  run (view_dereference i) = ignoring (FanoutView.dereference i)
  run (view_increment i) = ignoring (FanoutView.increment i)
  run (view_post_increment i) = ignoring (FanoutView.post_increment i)
  run (chunk_x g) = ignoring (ChunkDeltaView.chunk_x lib g)
  run (chunk_y g) = ignoring (ChunkDeltaView.chunk_y lib g)
  run (group_entry_count g) = ignoring (ChunkDeltaView.entry_count lib g)
  run (group_subscriber_count g) = ignoring (ChunkDeltaView.subscriber_count lib g)
  run (entries g) = ignoring (ChunkDeltaView.entries lib g)
  run (subscribers g) = ignoring (ChunkDeltaView.subscribers lib g)
  run (entry_size r) = ignoring (DeltaEntryRange.size r)
  run (entry_empty r) = ignoring (DeltaEntryRange.empty r)
  run (entry_at r i) = ignoring (DeltaEntryRange.at lib r i)
  run (entry_begin r) = ignoring (DeltaEntryRange.begin r)
  run (entry_end r) = ignoring (DeltaEntryRange.end r)
  run (entry_dereference i) = ignoring (DeltaEntryRange.dereference lib i)
  run (entry_increment i) = ignoring (DeltaEntryRange.increment i)
  run (entry_post_increment i) = ignoring (DeltaEntryRange.post_increment i)
  run (subscriber_size r) = ignoring (SubscriberRange.size r)
  run (subscriber_empty r) = ignoring (SubscriberRange.empty r)
  run (subscriber_at r i) = ignoring (SubscriberRange.at lib r i)
  run (subscriber_begin r) = ignoring (SubscriberRange.begin r)
  run (subscriber_end r) = ignoring (SubscriberRange.end r)
  run (subscriber_dereference i) = ignoring (SubscriberRange.dereference lib i)
  run (subscriber_increment i) = ignoring (SubscriberRange.increment i)
  run (subscriber_post_increment i) = ignoring (SubscriberRange.post_increment i)
