-- ===== src/View/Chunk.antt =====
-- ChunkDeltaView: the properties of one fanout group, and its repr.
use libdense.Common.{Bool, not, [], ◌∷◌, if◌then◌else◌}
use libdense.Common.Int.{ℤ}
use libdense.DenseSim.{ChunkDelta, Library}
use libdense.Python.{text, unsigned, signed, Value, scalar, integer, str}
use libdense.World.Lifecycle.{DenseFanoutView, memory_error}
use libdense.View.State.{Reader, pure, raise, ◌>>=◌, cleared, chunk_at, load_chunk}
use libdense.View.Fanout.{DenseChunkDeltaView, py_long}

-- The structs DenseEntrySequence and DenseSubscriberSequence.
pub record DenseEntrySequence : Type 0 where
  pub fanout : DenseFanoutView
  pub chunk_index : ℤ

pub record DenseSubscriberSequence : Type 0 where
  pub fanout : DenseFanoutView
  pub chunk_index : ℤ

abbrev chunk_text : ChunkDelta → Value
chunk_text chunk = str (
    text "<dense_sim.ChunkDeltaView chunk=("
    ∷ signed chunk.chunk_x
    ∷ text ", "
    ∷ signed chunk.chunk_y
    ∷ text ") entries="
    ∷ unsigned chunk.entry_count
    ∷ text " subscribers="
    ∷ unsigned chunk.subscriber_count
    ∷ text ">"
    ∷ [])

module _ {Memory : Type 0} (lib : Library Memory) where
  -- `chunk = dense_chunk_at(self->fanout, self->index)`, read through the pointer.
  abbrev pub chunk_of : DenseChunkDeltaView → Reader Memory ChunkDelta
  chunk_of self = do i ← chunk_at self.fanout self.index; load_chunk lib self.fanout i

  -- DenseChunkDeltaView_get_chunk_x
  unfoldable pub get_chunk_x : DenseChunkDeltaView → Reader Memory Value
  get_chunk_x self = do chunk ← chunk_of self; pure (scalar (integer chunk.chunk_x))

  -- DenseChunkDeltaView_get_chunk_y
  unfoldable pub get_chunk_y : DenseChunkDeltaView → Reader Memory Value
  get_chunk_y self = do chunk ← chunk_of self; pure (scalar (integer chunk.chunk_y))

  -- DenseChunkDeltaView_get_entry_count
  unfoldable pub get_entry_count : DenseChunkDeltaView → Reader Memory Value
  get_entry_count self = do chunk ← chunk_of self; py_long chunk.entry_count

  -- DenseChunkDeltaView_get_subscriber_count
  unfoldable pub get_subscriber_count : DenseChunkDeltaView → Reader Memory Value
  get_subscriber_count self = do chunk ← chunk_of self; py_long chunk.subscriber_count

  -- DenseChunkDeltaView_repr
  unfoldable pub repr : DenseChunkDeltaView → Reader Memory Value
  repr self =
      cleared (chunk_at self.fanout self.index)
        (pure (str (text "<dense_sim.ChunkDeltaView invalidated>" ∷ [])))
        λ i. do chunk ← load_chunk lib self.fanout i; pure (chunk_text chunk)

module _ {Memory : Type 0} where
  -- DenseChunkDeltaView_get_entries; `found` is whether PyObject_New has memory.
  unfoldable pub get_entries : DenseChunkDeltaView → Bool → Reader Memory DenseEntrySequence
  get_entries self found = do
    i ← chunk_at self.fanout self.index
    if not found
        then raise memory_error
        else pure (record { fanout = self.fanout; chunk_index = self.index })

  -- DenseChunkDeltaView_get_subscribers
  unfoldable pub get_subscribers :
      DenseChunkDeltaView → Bool → Reader Memory DenseSubscriberSequence
  get_subscribers self found = do
    i ← chunk_at self.fanout self.index
    if not found
        then raise memory_error
        else pure (record { fanout = self.fanout; chunk_index = self.index })
