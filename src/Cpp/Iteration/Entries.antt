-- ===== src/Cpp/Iteration/Entries.antt =====
-- The range-based `for` statement over the entries of a group.
use libdense.Common.{ℕ, suc, ◌+◌, ◌<◌, ◌^◌, ◌≡◌, not, Option, some, List, arith, ◌==◌}
use libdense.DenseSim.{Library}
use libdense.DenseSim.Lifetimes.{Lifetimes, WritersKeep, RefusedCreate, IsReadable, Span}
use libdense.View.State.{Runtime}
use libdense.Cpp.State.{returned, Reader, ensure_view, ◌>>=◌}
use libdense.Cpp.Types.{DeltaEntry, delta_entry_from_c}
use libdense.Cpp.DeltaEntryRange
use libdense.Cpp.Variables.{Program, Handle, no_variables}
use libdense.Cpp.Program.{Reach}
use libdense.Cpp.Program.Safety.{ensure_view-IsReadable}
use libdense.Cpp.Program.Reachable.{Reach-IsSound}
use libdense.Cpp.Iteration.{traverse, traverse-IsTraversed}
use libdense.Cpp.Iteration.Ranges.{IsVisited, traversed-IsVisited, same_pointer_refl}

module _ {Memory : Type 0} (lib : Library Memory) where
  unfoldable pub for_entries :
      ℕ → DeltaEntryRange.DeltaEntryRange → Reader Memory (Option (List DeltaEntry))
  for_entries fuel r = do
    it ← DeltaEntryRange.begin r
    last ← DeltaEntryRange.end r
    traverse DeltaEntryRange.not_equal DeltaEntryRange.increment (DeltaEntryRange.dereference lib)
        fuel it last

module _ {Memory : Type 0} (lib : Library Memory) (r : DeltaEntryRange.DeltaEntryRange)
    (s : Runtime Memory) (u : Unit {0})
    (valid : ensure_view r.state_ r.generation_ s ≡ returned u) where
  entries-differ :
      (i j : ℕ)
      → DeltaEntryRange.not_equal
          (DeltaEntryRange.iterator_at r i)
          (DeltaEntryRange.iterator_at r j)
        ≡ not (i == j)
  unfolding DeltaEntryRange.not_equal
  entries-differ i j = ground (arith, same_pointer_refl r.entries_)

  entries-advances :
      r.count_ < 2 ^ 64
      → (i : ℕ) → i < r.count_
      → DeltaEntryRange.increment (DeltaEntryRange.iterator_at r i) s
        ≡ returned (DeltaEntryRange.iterator_at r (i + 1))
  unfolding DeltaEntryRange.increment
  entries-advances small i lt = ground (arith, valid, small, lt)

  entries-there :
      IsReadable lib (Span.entries r.entries_ r.count_) s.native
      → (i : ℕ) → i < r.count_
      → (x : DeltaEntry) × (DeltaEntryRange.dereference lib (DeltaEntryRange.iterator_at r i) s
          ≡ returned x)
  unfolding DeltaEntryRange.dereference
  entries-there readable i lt =
      let (x, got) = readable i lt in (delta_entry_from_c x, ground (arith, valid, got))

  entries-at :
      (i : ℕ)
      → i < r.count_
      → DeltaEntryRange.dereference lib (DeltaEntryRange.iterator_at r i) s
        ≡ DeltaEntryRange.at lib r i s
  unfolding DeltaEntryRange.dereference DeltaEntryRange.at
  entries-at i lt = ground (arith, valid, lt)

  for_entries_lem :
      for_entries lib (suc r.count_) r s
      ≡ traverse DeltaEntryRange.not_equal DeltaEntryRange.increment
          (DeltaEntryRange.dereference lib)
          (suc r.count_)
          (DeltaEntryRange.iterator_at r 0)
          (DeltaEntryRange.iterator_at r r.count_)
          s
  unfolding for_entries DeltaEntryRange.begin DeltaEntryRange.end
  for_entries_lem = ground (arith, valid)

  for_entries-IsVisited :
      r.count_ < 2 ^ 64
      → IsReadable lib (Span.entries r.entries_ r.count_) s.native
      → IsVisited r.count_ (DeltaEntryRange.at lib r) s (for_entries lib (suc r.count_) r s)
  for_entries-IsVisited small readable = rw for_entries_lem (
      traversed-IsVisited (DeltaEntryRange.at lib r) entries-at (
        traverse-IsTraversed DeltaEntryRange.not_equal DeltaEntryRange.increment
          (DeltaEntryRange.dereference lib) (DeltaEntryRange.iterator_at r) r.count_ s
          entries-differ (entries-advances small) (entries-there readable) r.count_ 0
          (omega arith)))

-- In every state that a C++ program reaches in fewer than 2 ^ 64 steps, over a library that keeps the
-- lifetimes that its header documents and leaves the out-parameter null where it creates no world, a
-- range-based `for` statement over a DeltaEntryRange that is valid and has fewer than 2 ^ 64 elements ends after
-- as many rounds, and visits in order the elements that `at` gives for the indices from 0 on.
pub Reach-for_entries-IsVisited :
    {Memory : Type 0} (lib : Library Memory) (laws : Lifetimes lib)
    → WritersKeep lib laws
    → RefusedCreate lib
    → {m : Memory} {k : ℕ} {p : Program Memory} → Reach lib (no_variables m) k p
    → (y : ℕ) (r : DeltaEntryRange.DeltaEntryRange) (u : Unit {0}) → k < 2 ^ 64
    → r.count_ < 2 ^ 64
    → p.handles y ≡ some (Handle.entry_range r)
    → ensure_view r.state_ r.generation_ p.heap ≡ returned u
    → IsVisited r.count_ (DeltaEntryRange.at lib r) p.heap (for_entries lib (suc r.count_) r p.heap)
Reach-for_entries-IsVisited lib laws keep refused {k = k} {p = p} reach y r u small few at valid =
    for_entries-IsVisited lib r p.heap u valid few (
      ensure_view-IsReadable lib laws k p (Reach-IsSound lib laws keep refused reach) small y
        (Handle.entry_range r) at u valid)
