-- ===== src/View/Reads.antt =====
-- Every function of the views, as one type of operations, and what they need of the memory.
use libdense.Common.{Bool}
use libdense.Common.Int.{ℤ}
use libdense.DenseSim.{Library}
use libdense.World.Lifecycle.{DenseFanoutView}
use libdense.View.State.{Reader, pure, ◌>>=◌}
use libdense.View.Fanout
use libdense.View.Chunk
use libdense.View.Sequences

-- The operations that Python code has on a view, on a group at an index, and on their sequences.
pub data Read : Type 0 where
  length tick chunk_count delta_count subscriber_count groups repr : Read
  item : Bool → ℤ → Read
  chunk_x chunk_y chunk_entry_count chunk_subscriber_count chunk_repr : ℤ → Read
  chunk_entries chunk_subscribers : ℤ → Bool → Read
  entries_length entries_repr : ℤ → Read
  entries_item : ℤ → Bool → ℤ → Read
  subscribers_length subscribers_repr : ℤ → Read
  subscribers_item : ℤ → ℤ → Read

module _ {Memory : Type 0} where
  unfoldable pub done : {A : Type 0} → Reader Memory A → Reader Memory (Unit {0})
  done m = do a ← m; pure tt

module _ {Memory : Type 0} (lib : Library Memory) (v : DenseFanoutView) where
  -- How an operation ends; its result is left out.
  unfoldable pub read : Read → Reader Memory (Unit {0})
  unfolding done
  read Read.length = done (Fanout.length v)
  read Read.tick = done (Fanout.get_tick v)
  read Read.chunk_count = done (Fanout.get_chunk_count v)
  read Read.delta_count = done (Fanout.get_delta_count v)
  read Read.subscriber_count = done (Fanout.get_subscriber_count v)
  read Read.groups = done (Fanout.get_groups v)
  read Read.repr = done (Fanout.repr v)
  read (Read.item found i) = done (Fanout.item v found i)
  read (Read.chunk_x i) = done (Chunk.get_chunk_x lib (record { fanout = v; index = i }))
  read (Read.chunk_y i) = done (Chunk.get_chunk_y lib (record { fanout = v; index = i }))
  read (Read.chunk_entry_count i) =
      done (Chunk.get_entry_count lib (record { fanout = v; index = i }))
  read (Read.chunk_subscriber_count i) =
      done (Chunk.get_subscriber_count lib (record { fanout = v; index = i }))
  read (Read.chunk_repr i) = done (Chunk.repr lib (record { fanout = v; index = i }))
  read (Read.chunk_entries i found) =
      done (Chunk.get_entries (record { fanout = v; index = i }) found)
  read (Read.chunk_subscribers i found) =
      done (Chunk.get_subscribers (record { fanout = v; index = i }) found)
  read (Read.entries_length i) =
      done (Sequences.entries_length lib (record { fanout = v; chunk_index = i }))
  read (Read.entries_repr i) =
      done (Sequences.entries_repr lib (record { fanout = v; chunk_index = i }))
  read (Read.entries_item i found j) =
      done (Sequences.entries_item lib (record { fanout = v; chunk_index = i }) found j)
  read (Read.subscribers_length i) =
      done (Sequences.subscribers_length lib (record { fanout = v; chunk_index = i }))
  read (Read.subscribers_repr i) =
      done (Sequences.subscribers_repr lib (record { fanout = v; chunk_index = i }))
  read (Read.subscribers_item i j) =
      done (Sequences.subscribers_item lib (record { fanout = v; chunk_index = i }) j)
