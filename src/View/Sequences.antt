-- ===== src/View/Sequences.antt =====
-- DeltaEntryView and SubscriberView, the sequences of a fanout group, and DeltaEntry.
use libdense.Common.{ℕ, Bool, not, String, [], ◌∷◌, if◌then◌else◌}
use libdense.Common.Int.{ℤ, pos, pos_part}
use libdense.DenseSim.{DeltaOp, ChunkDelta, Library}
use libdense.Python.{ExcType, text, unsigned, signed, Exc, Value, scalar, integer, str}
use libdense.World.Lifecycle.{DenseFanoutView, memory_error}
use libdense.View.State.{
  Reader, pure, raise, ◌>>=◌, ◌>>◌, cleared, load, error, check_count, normalized, chunk_at,
  load_chunk,
}
use libdense.View.Fanout.{py_long}
use libdense.View.Chunk.{DenseEntrySequence, DenseSubscriberSequence}

abbrev pub entry_count_error : Exc
entry_count_error = error ExcType.overflow_error "delta entry count exceeds Python sequence limits"

abbrev pub subscriber_count_error : Exc
subscriber_count_error =
    error ExcType.overflow_error "subscriber count exceeds Python sequence limits"

-- The struct DenseDeltaEntry: a copy of one ds_delta_entry.
pub record DenseDeltaEntry : Type 0 where
  pub entity_id : ℕ
  pub channel_mask : ℕ
  pub operation : DeltaOp

-- dense_delta_operation_name
unfoldable pub delta_operation_name : DeltaOp → String
delta_operation_name DeltaOp.update = "UPDATE"
delta_operation_name DeltaOp.enter = "ENTER"
delta_operation_name DeltaOp.leave = "LEAVE"
delta_operation_name DeltaOp.spawn = "SPAWN"
delta_operation_name DeltaOp.remove = "REMOVE"
delta_operation_name (DeltaOp.unlisted n) = "UNKNOWN"

-- `(long)self->operation`
abbrev pub operation_number : DeltaOp → ℕ
operation_number DeltaOp.update = 0
operation_number DeltaOp.enter = 1
operation_number DeltaOp.leave = 2
operation_number DeltaOp.spawn = 3
operation_number DeltaOp.remove = 4
operation_number (DeltaOp.unlisted n) = n

module _ {Memory : Type 0} (lib : Library Memory) where
  abbrev pub chunk_of : DenseFanoutView → ℤ → Reader Memory ChunkDelta
  chunk_of fanout index = do i ← chunk_at fanout index; load_chunk lib fanout i

  -- DenseEntrySequence_length
  unfoldable pub entries_length : DenseEntrySequence → Reader Memory ℤ
  entries_length self = do
    chunk ← chunk_of self.fanout self.chunk_index
    check_count chunk.entry_count entry_count_error
    pure (pos chunk.entry_count)

  -- DenseEntrySequence_item; `found` is whether PyObject_New has memory.
  unfoldable pub entries_item : DenseEntrySequence → Bool → ℤ → Reader Memory DenseDeltaEntry
  entries_item self found index = do
    chunk ← chunk_of self.fanout self.chunk_index
    check_count chunk.entry_count entry_count_error
    i ← normalized index chunk.entry_count
    if not found then raise memory_error else do
      entry ← load (lib.read_entry chunk.entries (pos_part i))
      pure (record {
        entity_id = entry.entity_id;
        channel_mask = entry.channel_mask;
        operation = entry.operation;
      })

  -- DenseEntrySequence_repr
  unfoldable pub entries_repr : DenseEntrySequence → Reader Memory Value
  entries_repr self =
      cleared (entries_length self)
        (pure (str (text "<dense_sim.DeltaEntryView invalidated>" ∷ [])))
        λ length.
          pure (str (text "<dense_sim.DeltaEntryView length=" ∷ signed length ∷ text ">" ∷ []))

  -- DenseSubscriberSequence_length
  unfoldable pub subscribers_length : DenseSubscriberSequence → Reader Memory ℤ
  subscribers_length self = do
    chunk ← chunk_of self.fanout self.chunk_index
    check_count chunk.subscriber_count subscriber_count_error
    pure (pos chunk.subscriber_count)

  -- DenseSubscriberSequence_item
  unfoldable pub subscribers_item : DenseSubscriberSequence → ℤ → Reader Memory Value
  subscribers_item self index = do
    chunk ← chunk_of self.fanout self.chunk_index
    check_count chunk.subscriber_count subscriber_count_error
    i ← normalized index chunk.subscriber_count
    subscriber ← load (lib.read_subscriber chunk.subscribers (pos_part i))
    py_long subscriber

  -- DenseSubscriberSequence_repr
  unfoldable pub subscribers_repr : DenseSubscriberSequence → Reader Memory Value
  subscribers_repr self =
      cleared (subscribers_length self)
        (pure (str (text "<dense_sim.SubscriberView invalidated>" ∷ [])))
        λ length.
          pure (str (text "<dense_sim.SubscriberView length=" ∷ signed length ∷ text ">" ∷ []))

-- DenseDeltaEntry_get_entity_id, get_channel_mask, get_operation, get_operation_name
unfoldable pub get_entity_id : DenseDeltaEntry → Value
get_entity_id self = scalar (integer (pos self.entity_id))

unfoldable pub get_channel_mask : DenseDeltaEntry → Value
get_channel_mask self = scalar (integer (pos self.channel_mask))

unfoldable pub get_operation : DenseDeltaEntry → Value
get_operation self = scalar (integer (pos (operation_number self.operation)))

unfoldable pub get_operation_name : DenseDeltaEntry → Value
unfolding delta_operation_name
get_operation_name self = str (text (delta_operation_name self.operation) ∷ [])

-- DenseDeltaEntry_repr
unfoldable pub entry_repr : DenseDeltaEntry → Value
unfolding delta_operation_name
entry_repr self = str (
    text "<dense_sim.DeltaEntry entity_id="
    ∷ unsigned self.entity_id
    ∷ text " channel_mask="
    ∷ unsigned self.channel_mask
    ∷ text " operation="
    ∷ text (delta_operation_name self.operation)
    ∷ text ">"
    ∷ [])
