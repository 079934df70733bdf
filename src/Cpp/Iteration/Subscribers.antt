-- ===== src/Cpp/Iteration/Subscribers.antt =====
-- The range-based `for` statement over the subscribers of a group.
use libdense.Common.{ℕ, suc, ◌+◌, ◌<◌, ◌^◌, ◌≡◌, not, Option, some, List, arith, ◌==◌}
use libdense.DenseSim.{Library}
use libdense.DenseSim.Lifetimes.{Lifetimes, WritersKeep, RefusedCreate, IsReadable, Span}
use libdense.View.State.{Runtime}
use libdense.Cpp.State.{returned, Reader, ensure_view, ◌>>=◌}
use libdense.Cpp.SubscriberRange
use libdense.Cpp.Variables.{Program, Handle, no_variables}
use libdense.Cpp.Program.{Reach}
use libdense.Cpp.Program.Safety.{ensure_view-IsReadable}
use libdense.Cpp.Program.Reachable.{Reach-IsSound}
use libdense.Cpp.Iteration.{traverse, traverse-IsTraversed}
use libdense.Cpp.Iteration.Ranges.{IsVisited, traversed-IsVisited, same_pointer_refl}

module _ {Memory : Type 0} (lib : Library Memory) where
  unfoldable pub for_subscribers :
      ℕ → SubscriberRange.SubscriberRange → Reader Memory (Option (List ℕ))
  for_subscribers fuel r = do
    it ← SubscriberRange.begin r
    last ← SubscriberRange.end r
    traverse SubscriberRange.not_equal SubscriberRange.increment (SubscriberRange.dereference lib)
        fuel it last

module _ {Memory : Type 0} (lib : Library Memory) (r : SubscriberRange.SubscriberRange)
    (s : Runtime Memory) (u : Unit {0})
    (valid : ensure_view r.state_ r.generation_ s ≡ returned u) where
  subscribers-differ :
      (i j : ℕ)
      → SubscriberRange.not_equal
          (SubscriberRange.iterator_at r i)
          (SubscriberRange.iterator_at r j)
        ≡ not (i == j)
  unfolding SubscriberRange.not_equal
  subscribers-differ i j = ground (arith, same_pointer_refl r.subscribers_)

  subscribers-advances :
      r.count_ < 2 ^ 64
      → (i : ℕ) → i < r.count_
      → SubscriberRange.increment (SubscriberRange.iterator_at r i) s
        ≡ returned (SubscriberRange.iterator_at r (i + 1))
  unfolding SubscriberRange.increment
  subscribers-advances small i lt = ground (arith, valid, small, lt)

  subscribers-there :
      IsReadable lib (Span.subscribers r.subscribers_ r.count_) s.native
      → (i : ℕ) → i < r.count_
      → (x : ℕ) × (SubscriberRange.dereference lib (SubscriberRange.iterator_at r i) s ≡ returned x)
  unfolding SubscriberRange.dereference
  subscribers-there readable i lt = let (x, got) = readable i lt in (x, ground (arith, valid, got))

  subscribers-at :
      (i : ℕ)
      → i < r.count_
      → SubscriberRange.dereference lib (SubscriberRange.iterator_at r i) s
        ≡ SubscriberRange.at lib r i s
  unfolding SubscriberRange.dereference SubscriberRange.at
  subscribers-at i lt = ground (arith, valid, lt)

  for_subscribers_lem :
      for_subscribers lib (suc r.count_) r s
      ≡ traverse SubscriberRange.not_equal SubscriberRange.increment
          (SubscriberRange.dereference lib)
          (suc r.count_)
          (SubscriberRange.iterator_at r 0)
          (SubscriberRange.iterator_at r r.count_)
          s
  unfolding for_subscribers SubscriberRange.begin SubscriberRange.end
  for_subscribers_lem = ground (arith, valid)

  for_subscribers-IsVisited :
      r.count_ < 2 ^ 64
      → IsReadable lib (Span.subscribers r.subscribers_ r.count_) s.native
      → IsVisited r.count_ (SubscriberRange.at lib r) s (for_subscribers lib (suc r.count_) r s)
  for_subscribers-IsVisited small readable = rw for_subscribers_lem (
      traversed-IsVisited (SubscriberRange.at lib r) subscribers-at (
        traverse-IsTraversed SubscriberRange.not_equal SubscriberRange.increment
          (SubscriberRange.dereference lib) (SubscriberRange.iterator_at r) r.count_ s
          subscribers-differ (subscribers-advances small) (subscribers-there readable) r.count_ 0
          (omega arith)))

-- In every state that a C++ program reaches in fewer than 2 ^ 64 steps, over a library that keeps the
-- lifetimes that its header documents and leaves the out-parameter null where it creates no world, a
-- range-based `for` statement over a SubscriberRange that is valid and has fewer than 2 ^ 64 elements ends after
-- as many rounds, and visits in order the elements that `at` gives for the indices from 0 on.
pub Reach-for_subscribers-IsVisited :
    {Memory : Type 0} (lib : Library Memory) (laws : Lifetimes lib)
    → WritersKeep lib laws
    → RefusedCreate lib
    → {m : Memory} {k : ℕ} {p : Program Memory} → Reach lib (no_variables m) k p
    → (y : ℕ) (r : SubscriberRange.SubscriberRange) (u : Unit {0}) → k < 2 ^ 64
    → r.count_ < 2 ^ 64
    → p.handles y ≡ some (Handle.subscriber_range r)
    → ensure_view r.state_ r.generation_ p.heap ≡ returned u
    → IsVisited r.count_
        (SubscriberRange.at lib r)
        p.heap
        (for_subscribers lib (suc r.count_) r p.heap)
Reach-for_subscribers-IsVisited lib laws keep refused {k = k} {p = p} reach y r u small few at
      valid =
    for_subscribers-IsVisited lib r p.heap u valid few (
      ensure_view-IsReadable lib laws k p (Reach-IsSound lib laws keep refused reach) small y
        (Handle.subscriber_range r) at u valid)
