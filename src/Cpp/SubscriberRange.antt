-- ===== src/Cpp/SubscriberRange.antt =====
-- The class SubscriberRange and its Iterator: the subscribers of a fanout group.
use libdense.Common.{ℕ, ◌+◌, ◌%◌, ◌^◌, Bool, not, ◌&&◌, none, ltb, ◌==◌, if◌then◌else◌}
use libdense.DenseSim.{Pointer, ObserverId, Library}
use libdense.Cpp.State.{
  out_of_range, Reader, give, throw, load, ensure_view, same_pointer, ◌>>=◌, ◌>>◌,
}
use libdense.Cpp.State.{Exception}

pub record SubscriberRange : Type 0 where
  pub state_ : Pointer
  pub generation_ : ℕ
  pub subscribers_ : Pointer
  pub count_ : ℕ

-- SubscriberRange::Iterator
pub record Iterator : Type 0 where
  pub state_ : Pointer
  pub generation_ : ℕ
  pub subscribers_ : Pointer
  pub index_ : ℕ

-- `Iterator()`
abbrev pub default_iterator : Iterator
default_iterator = record { state_ = none; generation_ = 0; subscribers_ = none; index_ = 0 }

abbrev pub range_error : Exception
range_error = out_of_range "dense::SubscriberRange index out of range"

-- Iterator::operator== and operator!=
unfoldable pub equal : Iterator → Iterator → Bool
equal left right = same_pointer left.subscribers_ right.subscribers_ && left.index_ == right.index_

unfoldable pub not_equal : Iterator → Iterator → Bool
unfolding equal
not_equal left right = not (equal left right)

-- The constructor of Iterator.
abbrev pub iterator_at : SubscriberRange → ℕ → Iterator
iterator_at self index = record {
  state_ = self.state_;
  generation_ = self.generation_;
  subscribers_ = self.subscribers_;
  index_ = index;
}

module _ {Memory : Type 0} where
  -- Iterator::operator++(), with the iterator as it is afterwards.
  unfoldable pub increment : Iterator → Reader Memory Iterator
  increment it = do
    ensure_view it.state_ it.generation_
    give (record it { index_ = (it.index_ + 1) % 2 ^ 64 })

  -- Iterator::operator++(int): the copy that it returns, and the iterator as it is afterwards.
  unfoldable pub post_increment : Iterator → Reader Memory (Iterator × Iterator)
  unfolding increment
  post_increment it = do next ← increment it; give (it, next)

  unfoldable pub size : SubscriberRange → Reader Memory ℕ
  size self = do ensure_view self.state_ self.generation_; give self.count_

  unfoldable pub empty : SubscriberRange → Reader Memory Bool
  unfolding size
  empty self = do n ← size self; give (n == 0)

  unfoldable pub begin : SubscriberRange → Reader Memory Iterator
  begin self = do ensure_view self.state_ self.generation_; give (iterator_at self 0)

  unfoldable pub end : SubscriberRange → Reader Memory Iterator
  end self = do ensure_view self.state_ self.generation_; give (iterator_at self self.count_)

module _ {Memory : Type 0} (lib : Library Memory) where
  -- Iterator::operator*
  unfoldable pub dereference : Iterator → Reader Memory ObserverId
  dereference it = do
    ensure_view it.state_ it.generation_
    x ← load (lib.read_subscriber it.subscribers_ it.index_)
    give x

  unfoldable pub at : SubscriberRange → ℕ → Reader Memory ObserverId
  at self index = do
    ensure_view self.state_ self.generation_
    if not (ltb index self.count_)
        then throw range_error
        else do x ← load (lib.read_subscriber self.subscribers_ index); give x
