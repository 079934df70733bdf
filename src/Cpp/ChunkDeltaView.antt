-- ===== src/Cpp/ChunkDeltaView.antt =====
-- The class ChunkDeltaView: one fanout group.
use libdense.Common.{ℕ}
use libdense.Common.Int.{ℤ}
use libdense.DenseSim.{Pointer, ChunkDelta, Library}
use libdense.Cpp.State.{Reader, give, load, ensure_view, ◌>>=◌, ◌>>◌}
use libdense.Cpp.DeltaEntryRange.{DeltaEntryRange}
use libdense.Cpp.SubscriberRange.{SubscriberRange}

-- `&base[index]`
pub record GroupPointer : Type 0 where
  pub base : Pointer
  pub index : ℕ

pub record ChunkDeltaView : Type 0 where
  pub state_ : Pointer
  pub generation_ : ℕ
  pub group_ : GroupPointer

module _ {Memory : Type 0} where
  -- ChunkDeltaView::validate
  unfoldable pub validate : ChunkDeltaView → Reader Memory (Unit {0})
  validate self = ensure_view self.state_ self.generation_

module _ {Memory : Type 0} (lib : Library Memory) where
  -- `*group_`
  abbrev pub group : ChunkDeltaView → Reader Memory ChunkDelta
  group self = load (lib.read_chunk self.group_.base self.group_.index)

  unfoldable pub chunk_x : ChunkDeltaView → Reader Memory ℤ
  unfolding validate
  chunk_x self = do validate self; g ← group self; give g.chunk_x

  unfoldable pub chunk_y : ChunkDeltaView → Reader Memory ℤ
  unfolding validate
  chunk_y self = do validate self; g ← group self; give g.chunk_y

  unfoldable pub entry_count : ChunkDeltaView → Reader Memory ℕ
  unfolding validate
  entry_count self = do validate self; g ← group self; give g.entry_count

  unfoldable pub subscriber_count : ChunkDeltaView → Reader Memory ℕ
  unfolding validate
  subscriber_count self = do validate self; g ← group self; give g.subscriber_count

  unfoldable pub entries : ChunkDeltaView → Reader Memory DeltaEntryRange
  unfolding validate
  entries self = do
    validate self
    g ← group self
    give (record {
      state_ = self.state_;
      generation_ = self.generation_;
      entries_ = g.entries;
      count_ = g.entry_count;
    })

  unfoldable pub subscribers : ChunkDeltaView → Reader Memory SubscriberRange
  unfolding validate
  subscribers self = do
    validate self
    g ← group self
    give (record {
      state_ = self.state_;
      generation_ = self.generation_;
      subscribers_ = g.subscribers;
      count_ = g.subscriber_count;
    })
