-- ===== src/Cpp/Program/Handles.antt =====
-- The steps that change handles only.
use libdense.Common.{
  ℕ, ◌+◌, ◌≤◌, ◌<◌, ◌≡◌, refl, inl, inr, Option-cases, Bool-cases, ltb, some, arith,
}
use libdense.DenseSim.{Library, ChunkDelta}
use libdense.DenseSim.Lifetimes.{Lifetimes, Span, size, part, chunks, entries, subscribers}
use libdense.View.State.{Runtime}
use libdense.Leases.{Lease}
use libdense.Cpp.State.{returned, ensure_view, and_read-returned}
use libdense.Cpp.DeltaEntryRange
use libdense.Cpp.SubscriberRange
use libdense.Cpp.ChunkDeltaView
use libdense.Cpp.ChunkDeltaView.{ChunkDeltaView}
use libdense.Cpp.FanoutView
use libdense.Cpp.Variables.{Handle, lease}
use libdense.Cpp.Program.{
  Derived, copy, view_at, view_begin, view_end, view_increment, view_dereference, group_entries,
  group_subscribers, entry_begin, entry_end, entry_increment, subscriber_begin, subscriber_end,
  subscriber_increment,
}

-- What an operation that returned has made, and what it has read.
module _ {Memory : Type 0} (lib : Library Memory) (s : Runtime Memory) where
  group_entries_lem :
      (g : ChunkDeltaView) (r : DeltaEntryRange.DeltaEntryRange)
      → ChunkDeltaView.entries lib g s ≡ returned r
      → (c : ChunkDelta) × (lib.read_chunk g.group_.base g.group_.index s.native ≡ some c)
        × (lease (Handle.entry_range r) ≡ record {
          world = g.state_;
          generation = g.generation_;
          span = entries c.entries c.entry_count;
        })
  unfolding ChunkDeltaView.entries
  group_entries_lem g r e =
      let (u, valid, rest) = and_read-returned (ensure_view g.state_ g.generation_ s) _ s e in
      elim (Option-cases (lib.read_chunk g.group_.base g.group_.index s.native)) [
        | inl lost ↦ ground (arith, rest, lost)
        | inr (c, got) ↦ (c, got, ground (arith, rest, got))
      ]

  group_subscribers_lem :
      (g : ChunkDeltaView) (r : SubscriberRange.SubscriberRange)
      → ChunkDeltaView.subscribers lib g s ≡ returned r
      → (c : ChunkDelta) × (lib.read_chunk g.group_.base g.group_.index s.native ≡ some c)
        × (lease (Handle.subscriber_range r) ≡ record {
          world = g.state_;
          generation = g.generation_;
          span = subscribers c.subscribers c.subscriber_count;
        })
  unfolding ChunkDeltaView.subscribers
  group_subscribers_lem g r e =
      let (u, valid, rest) = and_read-returned (ensure_view g.state_ g.generation_ s) _ s e in
      elim (Option-cases (lib.read_chunk g.group_.base g.group_.index s.native)) [
        | inl lost ↦ ground (arith, rest, lost)
        | inr (c, got) ↦ (c, got, ground (arith, rest, got))
      ]

  view_at_lem :
      (v : FanoutView.FanoutView) (i : ℕ) (g : ChunkDeltaView)
      → FanoutView.at v i s ≡ returned g
      → (i < v.view_.chunk_count)
        × (lease (Handle.group g) ≡ record {
          world = v.state_;
          generation = v.generation_;
          span = chunks v.view_.chunks (i + 1);
        })
  unfolding FanoutView.at
  view_at_lem v i g e =
      let (u, valid, rest) = and_read-returned (ensure_view v.state_ v.generation_ s) _ s e in
      elim (Bool-cases (ltb i v.view_.chunk_count)) [
        | inl inside ↦ (ground (arith, inside), ground (arith, rest, inside))
        | inr outside ↦ ground (arith, rest, outside)
      ]

module _ {Memory : Type 0} (lib : Library Memory) (laws : Lifetimes lib) (s : Runtime Memory) where
  open laws use {IsBorrowed}

  -- A handle that is found through another one shares its state and its generation, and what it may
  -- read is borrowed where what the other may read is.
  pub record IsFound (l l' : Lease) : Type 0 where
    pub world : l'.world ≡ l.world
    pub generation : l'.generation ≡ l.generation
    pub borrowed : (p : ℕ) → IsBorrowed p l.span s.native → IsBorrowed p l'.span s.native

  found :
      (l l' : Lease) (v : Span)
      → l' ≡ record l { span = v }
      → ((p : ℕ) → IsBorrowed p l.span s.native → IsBorrowed p v s.native)
      → IsFound l l'
  found l l' v e f = rw e (record { world = refl; generation = refl; borrowed = f })

  part_found :
      (l l' : Lease) (k : ℕ)
      → k ≤ size l.span
      → l' ≡ record l { span = part k l.span }
      → IsFound l l'
  part_found l l' k le e =
      found l l' (part k l.span) e (λ p b. laws.part_borrowed p l.span k s.native le b)

  pub Derived-IsFound : (h h' : Handle) → Derived lib s h h' → IsFound (lease h) (lease h')
  unfolding FanoutView.begin FanoutView.end FanoutView.increment FanoutView.dereference
      DeltaEntryRange.begin DeltaEntryRange.end DeltaEntryRange.increment SubscriberRange.begin
      SubscriberRange.end SubscriberRange.increment
  Derived-IsFound _ _ (copy h) = record { world = refl; generation = refl; borrowed = λ p b. b }
  Derived-IsFound _ _ (view_at v i g e) =
      let (lt, made) = view_at_lem lib s v i g e in
      part_found (lease (Handle.view v)) _ (i + 1) (omega (arith, lt)) made
  Derived-IsFound _ _ (view_begin v i e) =
      let (u, valid, rest) = and_read-returned (ensure_view v.state_ v.generation_ s) _ s e in
      part_found (lease (Handle.view v)) _ v.view_.chunk_count (omega arith) (ground (arith, rest))
  Derived-IsFound _ _ (view_end v i e) =
      let (u, valid, rest) = and_read-returned (ensure_view v.state_ v.generation_ s) _ s e in
      part_found (lease (Handle.view v)) _ v.view_.chunk_count (omega arith) (ground (arith, rest))
  Derived-IsFound _ _ (view_increment i j e) =
      let (u, valid, rest) = and_read-returned (ensure_view i.state_ i.generation_ s) _ s e in
      part_found (lease (Handle.view_iterator i)) _ i.view_.chunk_count (omega arith)
        (ground (arith, rest))
  Derived-IsFound _ _ (view_dereference i g lt e) =
      let (u, valid, rest) = and_read-returned (ensure_view i.state_ i.generation_ s) _ s e in
      part_found (lease (Handle.view_iterator i)) _ (i.index_ + 1) (omega (arith, lt))
        (ground (arith, rest))
  Derived-IsFound _ _ (group_entries g r e) =
      let (c, got, made) = group_entries_lem lib s g r e in
      found (lease (Handle.group g)) _ (entries c.entries c.entry_count) made
        λ p b. (laws.nested_borrowed p _ _ g.group_.index c s.native b (omega arith) got).0
  Derived-IsFound _ _ (group_subscribers g r e) =
      let (c, got, made) = group_subscribers_lem lib s g r e in
      found (lease (Handle.group g)) _ (subscribers c.subscribers c.subscriber_count) made
        λ p b. (laws.nested_borrowed p _ _ g.group_.index c s.native b (omega arith) got).1
  Derived-IsFound _ _ (entry_begin r i e) =
      let (u, valid, rest) = and_read-returned (ensure_view r.state_ r.generation_ s) _ s e in
      part_found (lease (Handle.entry_range r)) _ 0 (omega arith) (ground (arith, rest))
  Derived-IsFound _ _ (entry_end r i e) =
      let (u, valid, rest) = and_read-returned (ensure_view r.state_ r.generation_ s) _ s e in
      part_found (lease (Handle.entry_range r)) _ 0 (omega arith) (ground (arith, rest))
  Derived-IsFound _ _ (entry_increment i j e) =
      let (u, valid, rest) = and_read-returned (ensure_view i.state_ i.generation_ s) _ s e in
      part_found (lease (Handle.entry_iterator i)) _ 0 (omega arith) (ground (arith, rest))
  Derived-IsFound _ _ (subscriber_begin r i e) =
      let (u, valid, rest) = and_read-returned (ensure_view r.state_ r.generation_ s) _ s e in
      part_found (lease (Handle.subscriber_range r)) _ 0 (omega arith) (ground (arith, rest))
  Derived-IsFound _ _ (subscriber_end r i e) =
      let (u, valid, rest) = and_read-returned (ensure_view r.state_ r.generation_ s) _ s e in
      part_found (lease (Handle.subscriber_range r)) _ 0 (omega arith) (ground (arith, rest))
  Derived-IsFound _ _ (subscriber_increment i j e) =
      let (u, valid, rest) = and_read-returned (ensure_view i.state_ i.generation_ s) _ s e in
      part_found (lease (Handle.subscriber_iterator i)) _ 0 (omega arith) (ground (arith, rest))
