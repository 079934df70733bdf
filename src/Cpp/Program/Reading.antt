-- ===== src/Cpp/Program/Reading.antt =====
-- The operations of the views, the ranges and the iterators read no memory that is not there.
use libdense.Common.{
  ℕ, ◌<◌, ◌≡◌, ◌≢◌, inl, inr, Bool-cases, Option, some, arith, not, ltb, if◌then◌else◌,
}
use libdense.DenseSim.{ObserverId, DeltaEntry, Library}
use libdense.DenseSim.Lifetimes.{IsReadable}
use libdense.View.State.{Runtime}
use libdense.Cpp.State.{
  Outcome, returned, fault, Reader, ensure_view, and_read, and_read-ne-fault, load, give, throw,
  Exception, ◌>>=◌,
}
use libdense.Cpp.DeltaEntryRange
use libdense.Cpp.SubscriberRange
use libdense.Cpp.ChunkDeltaView
use libdense.Cpp.FanoutView
use libdense.Cpp.Variables.{Handle, lease, state_of}
use libdense.Cpp.Reads
use libdense.Cpp.Reads.{Read, ignoring, run}

module _ {Memory : Type 0} (s : Runtime Memory) where
  ignoring-ne-fault : {A : Type 0} (m : Reader Memory A) → m s ≢ fault → ignoring m s ≢ fault
  unfolding ignoring
  ignoring-ne-fault m h = and_read-ne-fault (m s) _ s h (λ a e q. cc)

  -- A test, and then a read through a pointer.
  module _ (o : Outcome (Unit {0})) {A : Type 0} (f : Memory → Option A) (tested : o ≢ fault)
      (readable : (u : Unit {0}) → o ≡ returned u → (a : A) × (f s.native ≡ some a)) where
    loaded-ne-fault :
        {B : Type 0} (k : A → B) → and_read o (λ u. load f >>= λ a. give (k a)) s ≢ fault
    loaded-ne-fault k =
        and_read-ne-fault o _ s tested λ u e. let (a, got) = readable u e in ground (arith, got)

  -- A test, a bound, and then a read.
  bounded-ne-fault :
      (o : Outcome (Unit {0})) {A B : Type 0} (f : Memory → Option A) (k : A → B) (i n : ℕ)
      (e : Exception)
      → o ≢ fault
      → ((u : Unit {0}) → o ≡ returned u → i < n → (a : A) × (f s.native ≡ some a))
      → and_read o (λ u. if not (ltb i n) then throw e else (load f >>= λ a. give (k a))) s ≢ fault
  bounded-ne-fault o f k i n e tested readable = and_read-ne-fault o _ s tested λ u q.
      elim (Bool-cases (ltb i n)) [
        | inl inside ↦
            let (x, got) = readable u q (ground (arith, inside)) in ground (arith, inside, got)
        | inr outside ↦ ground (arith, outside)
      ]

module _ {Memory : Type 0} (lib : Library Memory) (s : Runtime Memory) where
  -- What operator* of an iterator over a range reads is there.
  abbrev pub IsThere : {h : Handle} → Read h → Type 0
  IsThere (Reads.entry_dereference i) =
      (x : DeltaEntry) × (lib.read_entry i.entries_ i.index_ s.native ≡ some x)
  IsThere (Reads.subscriber_dereference i) =
      (x : ObserverId) × (lib.read_subscriber i.subscribers_ i.index_ s.native ≡ some x)
  IsThere _ = Unit

  -- Where the test of a handle does not fault, and what the handle and the operation may read can be
  -- read once the test has returned, then the operation does not fault.
  pub run-ne-fault :
      (h : Handle) (r : Read h)
      → ensure_view (state_of h) (lease h).generation s ≢ fault
      → ((u : Unit {0})
          → ensure_view (state_of h) (lease h).generation s ≡ returned u
          → IsReadable lib (lease h).span s.native)
      → ((u : Unit {0}) → ensure_view (state_of h) (lease h).generation s ≡ returned u → IsThere r)
      → run lib r s ≢ fault
  unfolding run FanoutView.tick FanoutView.size FanoutView.empty FanoutView.delta_count
      FanoutView.subscriber_count FanoutView.at FanoutView.begin FanoutView.end
      FanoutView.dereference FanoutView.increment FanoutView.post_increment DeltaEntryRange.size
      DeltaEntryRange.empty DeltaEntryRange.begin DeltaEntryRange.end DeltaEntryRange.increment
      DeltaEntryRange.post_increment SubscriberRange.size SubscriberRange.empty
      SubscriberRange.begin SubscriberRange.end SubscriberRange.increment
      SubscriberRange.post_increment ChunkDeltaView.chunk_x ChunkDeltaView.chunk_y
      ChunkDeltaView.entry_count ChunkDeltaView.subscriber_count ChunkDeltaView.entries
      ChunkDeltaView.subscribers DeltaEntryRange.at DeltaEntryRange.dereference SubscriberRange.at
      SubscriberRange.dereference
  run-ne-fault _ (Reads.chunk_x g) tested readable there =
      ignoring-ne-fault s (ChunkDeltaView.chunk_x lib g) (
        loaded-ne-fault s (ensure_view g.state_ g.generation_ s)
          (lib.read_chunk g.group_.base g.group_.index) tested
          (λ u e. readable u e g.group_.index (omega arith)) _)
  run-ne-fault _ (Reads.chunk_y g) tested readable there =
      ignoring-ne-fault s (ChunkDeltaView.chunk_y lib g) (
        loaded-ne-fault s (ensure_view g.state_ g.generation_ s)
          (lib.read_chunk g.group_.base g.group_.index) tested
          (λ u e. readable u e g.group_.index (omega arith)) _)
  run-ne-fault _ (Reads.group_entry_count g) tested readable there =
      ignoring-ne-fault s (ChunkDeltaView.entry_count lib g) (
        loaded-ne-fault s (ensure_view g.state_ g.generation_ s)
          (lib.read_chunk g.group_.base g.group_.index) tested
          (λ u e. readable u e g.group_.index (omega arith)) _)
  run-ne-fault _ (Reads.group_subscriber_count g) tested readable there =
      ignoring-ne-fault s (ChunkDeltaView.subscriber_count lib g) (
        loaded-ne-fault s (ensure_view g.state_ g.generation_ s)
          (lib.read_chunk g.group_.base g.group_.index) tested
          (λ u e. readable u e g.group_.index (omega arith)) _)
  run-ne-fault _ (Reads.entries g) tested readable there =
      ignoring-ne-fault s (ChunkDeltaView.entries lib g) (
        loaded-ne-fault s (ensure_view g.state_ g.generation_ s)
          (lib.read_chunk g.group_.base g.group_.index) tested
          (λ u e. readable u e g.group_.index (omega arith)) _)
  run-ne-fault _ (Reads.subscribers g) tested readable there =
      ignoring-ne-fault s (ChunkDeltaView.subscribers lib g) (
        loaded-ne-fault s (ensure_view g.state_ g.generation_ s)
          (lib.read_chunk g.group_.base g.group_.index) tested
          (λ u e. readable u e g.group_.index (omega arith)) _)
  run-ne-fault _ (Reads.entry_at r i) tested readable there =
      ignoring-ne-fault s (DeltaEntryRange.at lib r i) (
        bounded-ne-fault s (ensure_view r.state_ r.generation_ s) (lib.read_entry r.entries_ i) _ i
          r.count_ DeltaEntryRange.range_error tested (λ u e. readable u e i))
  run-ne-fault _ (Reads.entry_dereference i) tested readable there =
      ignoring-ne-fault s (DeltaEntryRange.dereference lib i) (
        loaded-ne-fault s (ensure_view i.state_ i.generation_ s)
          (lib.read_entry i.entries_ i.index_) tested there _)
  run-ne-fault _ (Reads.subscriber_at r i) tested readable there =
      ignoring-ne-fault s (SubscriberRange.at lib r i) (
        bounded-ne-fault s (ensure_view r.state_ r.generation_ s)
          (lib.read_subscriber r.subscribers_ i) _ i r.count_ SubscriberRange.range_error tested
          (λ u e. readable u e i))
  run-ne-fault _ (Reads.subscriber_dereference i) tested readable there =
      ignoring-ne-fault s (SubscriberRange.dereference lib i) (
        loaded-ne-fault s (ensure_view i.state_ i.generation_ s)
          (lib.read_subscriber i.subscribers_ i.index_) tested there _)
  run-ne-fault _ _ tested readable there = ground (arith, tested)
