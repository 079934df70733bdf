-- ===== src/View/Fanout.antt =====
-- FanoutView: the sequence of fanout groups, its properties and its repr.
use libdense.Common.{ℕ, Bool, not, [], ◌∷◌, if◌then◌else◌}
use libdense.Common.Int.{ℤ, pos}
use libdense.Python.{text, unsigned, Value, scalar, integer, str}
use libdense.World.Lifecycle.{DenseFanoutView, memory_error}
use libdense.View.State.{
  Reader, pure, raise, ◌>>=◌, ◌>>◌, cleared, group_count_error, fanout_require_valid, check_count,
  normalized,
}

-- The struct DenseChunkDeltaView.
pub record DenseChunkDeltaView : Type 0 where
  pub fanout : DenseFanoutView
  pub index : ℤ

module _ {Memory : Type 0} where
  abbrev pub py_long : ℕ → Reader Memory Value
  py_long n = pure (scalar (integer (pos n)))

  -- DenseFanoutView_length
  unfoldable pub length : DenseFanoutView → Reader Memory ℤ
  length self = do
    fanout_require_valid self
    check_count self.view.chunk_count group_count_error
    pure (pos self.view.chunk_count)

  -- DenseFanoutView_item; `found` is whether PyObject_New has memory.
  unfoldable pub item : DenseFanoutView → Bool → ℤ → Reader Memory DenseChunkDeltaView
  item self found index = do
    fanout_require_valid self
    check_count self.view.chunk_count group_count_error
    i ← normalized index self.view.chunk_count
    if not found then raise memory_error else pure (record { fanout = self; index = i })

  -- DenseFanoutView_get_tick
  unfoldable pub get_tick : DenseFanoutView → Reader Memory Value
  get_tick self = fanout_require_valid self >> py_long self.view.tick

  -- DenseFanoutView_get_chunk_count
  unfoldable pub get_chunk_count : DenseFanoutView → Reader Memory Value
  get_chunk_count self = fanout_require_valid self >> py_long self.view.chunk_count

  -- DenseFanoutView_get_delta_count
  unfoldable pub get_delta_count : DenseFanoutView → Reader Memory Value
  get_delta_count self = fanout_require_valid self >> py_long self.view.delta_count

  -- DenseFanoutView_get_subscriber_count
  unfoldable pub get_subscriber_count : DenseFanoutView → Reader Memory Value
  get_subscriber_count self = fanout_require_valid self >> py_long self.view.subscriber_count

  -- DenseFanoutView_get_groups: the view itself.
  unfoldable pub get_groups : DenseFanoutView → Reader Memory DenseFanoutView
  get_groups self = fanout_require_valid self >> pure self

  -- DenseFanoutView_repr
  unfoldable pub repr : DenseFanoutView → Reader Memory Value
  repr self =
      cleared (fanout_require_valid self)
        (pure (str (text "<dense_sim.FanoutView invalidated>" ∷ [])))
        λ _. pure (
          str (
            text "<dense_sim.FanoutView tick="
            ∷ unsigned self.view.tick
            ∷ text " groups="
            ∷ unsigned self.view.chunk_count
            ∷ text " deltas="
            ∷ unsigned self.view.delta_count
            ∷ text " subscribers="
            ∷ unsigned self.view.subscriber_count
            ∷ text ">"
            ∷ []))
