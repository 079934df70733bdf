-- ===== src/Cpp/FanoutView.antt =====
-- The class FanoutView and its Iterator: the groups of a finalized tick.
use libdense.Common.{ℕ, ◌+◌, ◌%◌, ◌^◌, Bool, not, ◌&&◌, ltb, ◌==◌, if◌then◌else◌}
use libdense.DenseSim.{Pointer, Tick, FanoutSpan}
use libdense.Cpp.State.{
  Exception, out_of_range, Reader, give, throw, ensure_view, same_pointer, ◌>>=◌, ◌>>◌,
}
use libdense.Cpp.ChunkDeltaView.{ChunkDeltaView}

pub record FanoutView : Type 0 where
  pub state_ : Pointer
  pub generation_ : ℕ
  pub view_ : FanoutSpan

-- FanoutView::Iterator
pub record Iterator : Type 0 where
  pub state_ : Pointer
  pub generation_ : ℕ
  pub view_ : FanoutSpan
  pub index_ : ℕ

abbrev pub range_error : Exception
range_error = out_of_range "dense::FanoutView index out of range"

-- Iterator::operator== and operator!=
unfoldable pub equal : Iterator → Iterator → Bool
equal left right = same_pointer left.view_.chunks right.view_.chunks && left.index_ == right.index_

unfoldable pub not_equal : Iterator → Iterator → Bool
unfolding equal
not_equal left right = not (equal left right)

-- The constructor of Iterator.
abbrev pub iterator_at : FanoutView → ℕ → Iterator
iterator_at self index = record {
  state_ = self.state_;
  generation_ = self.generation_;
  view_ = self.view_;
  index_ = index;
}

module _ {Memory : Type 0} where
  -- FanoutView::validate
  unfoldable pub validate : FanoutView → Reader Memory (Unit {0})
  validate self = ensure_view self.state_ self.generation_

  -- Iterator::operator*: the pointer is formed, and nothing is read through it.
  unfoldable pub dereference : Iterator → Reader Memory ChunkDeltaView
  dereference it = do
    ensure_view it.state_ it.generation_
    give (record {
      state_ = it.state_;
      generation_ = it.generation_;
      group_ = record { base = it.view_.chunks; index = it.index_ };
    })

  -- Iterator::operator++(), with the iterator as it is afterwards.
  unfoldable pub increment : Iterator → Reader Memory Iterator
  increment it = do
    ensure_view it.state_ it.generation_
    give (record it { index_ = (it.index_ + 1) % 2 ^ 64 })

  -- Iterator::operator++(int): the copy that it returns, and the iterator as it is afterwards.
  unfoldable pub post_increment : Iterator → Reader Memory (Iterator × Iterator)
  unfolding increment
  post_increment it = do next ← increment it; give (it, next)

  unfoldable pub tick : FanoutView → Reader Memory Tick
  unfolding validate
  tick self = do validate self; give self.view_.tick

  unfoldable pub size : FanoutView → Reader Memory ℕ
  unfolding validate
  size self = do validate self; give self.view_.chunk_count

  unfoldable pub empty : FanoutView → Reader Memory Bool
  unfolding size
  empty self = do n ← size self; give (n == 0)

  unfoldable pub delta_count : FanoutView → Reader Memory ℕ
  unfolding validate
  delta_count self = do validate self; give self.view_.delta_count

  unfoldable pub subscriber_count : FanoutView → Reader Memory ℕ
  unfolding validate
  subscriber_count self = do validate self; give self.view_.subscriber_count

  unfoldable pub at : FanoutView → ℕ → Reader Memory ChunkDeltaView
  unfolding validate
  at self index = do
    validate self
    if not (ltb index self.view_.chunk_count)
        then throw range_error
        else give (record {
          state_ = self.state_;
          generation_ = self.generation_;
          group_ = record { base = self.view_.chunks; index = index };
        })

  unfoldable pub begin : FanoutView → Reader Memory Iterator
  unfolding validate
  begin self = do validate self; give (iterator_at self 0)

  unfoldable pub end : FanoutView → Reader Memory Iterator
  unfolding validate
  end self = do validate self; give (iterator_at self self.view_.chunk_count)
