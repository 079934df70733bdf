-- ===== src/Sample/CppTests.antt =====
-- The theorems on C++ programs, applied to one over the sample library.
use libdense.Common.{ℕ, ◌≡◌, ◌≢◌, refl, suc, none, some, arith}
use libdense.DenseSim.Lifetimes.{chunks}
use libdense.Cpp.State.{
  thrown, fault, WorldState, moved_from, ensure_view, stale_error, closed_error,
}
use libdense.Cpp.DeltaEntryRange
use libdense.Cpp.SubscriberRange
use libdense.Cpp.Lifecycle.{begin_tick, close}
use libdense.Cpp.Calls.{Call, dispatch}
use libdense.Cpp.Closed.{dispatch-refusal}
use libdense.Cpp.Reads
use libdense.Cpp.Reads.{run}
use libdense.Cpp.Variables.{Handle, entered}
use libdense.Cpp.Program.Invariant.{IsSound}
use libdense.Cpp.Program.Reachable.{Reach-IsSound}
use libdense.Cpp.Program.Leaks.{Reach-none_left}
use libdense.Cpp.Program.Faults.{
  Reach-dispatch-ne-fault, Reach-run-ne-fault, Reach-ensure_view-IsBorrowed,
}
use libdense.Cpp.Program.Sharing.{begin_tick-ensure_view, close-ensure_view}
use libdense.Cpp.Iteration.Ranges.{IsVisited}
use libdense.Cpp.FanoutView
use libdense.Cpp.Iteration.Groups.{for_groups, for_groups-IsVisited}
use libdense.Cpp.Iteration.Entries.{for_entries, Reach-for_entries-IsVisited}
use libdense.Cpp.Iteration.Subscribers.{for_subscribers, Reach-for_subscribers-IsVisited}
use libdense.Sample.{sample}
use libdense.Sample.Laws.{lifetimes, writers, existence, no_worlds}
use libdense.Sample.CppProgram.{
  refused, world, view, entries, subscribers, viewed, counted, ended, counted_reached,
  ended_reached,
}

dispatch-refusal_example :
    dispatch sample Call.fanout (entered viewed moved_from)
    ≡ (thrown closed_error, entered viewed moved_from)
dispatch-refusal_example = dispatch-refusal sample Call.fanout (entered viewed moved_from) refl

Reach-IsSound_example : IsSound sample lifetimes 5 counted
Reach-IsSound_example = Reach-IsSound sample lifetimes writers refused counted_reached

Reach-none_left_example :
    ((q : ℕ) → ¬ (lifetimes.IsLive q ended.heap.native)) × ((a : ℕ) → ended.heap.worlds a ≡ none)
Reach-none_left_example =
    Reach-none_left sample lifetimes writers refused existence no_worlds ended_reached
      (λ x. ground arith) (λ y. refl)

Reach-dispatch-ne-fault_example : (dispatch sample Call.fanout (entered counted world)).0 ≢ fault
Reach-dispatch-ne-fault_example =
    Reach-dispatch-ne-fault sample lifetimes writers refused counted_reached 0 world Call.fanout
      refl

Reach-run-ne-fault_example : run sample (Reads.entry_at entries 0) counted.heap ≢ fault
Reach-run-ne-fault_example =
    Reach-run-ne-fault sample lifetimes writers refused counted_reached 2
      (Handle.entry_range entries) (Reads.entry_at entries 0) (omega arith) refl tt

Reach-ensure_view-IsBorrowed_example :
    (a : ℕ) × (st : WorldState) × (w : ℕ) × (some 0 ≡ some a)
    × (counted.heap.worlds a ≡ some st)
    × (st.world ≡ some w)
    × lifetimes.IsBorrowed w (chunks (some 0) 1) counted.heap.native
unfolding ensure_view
Reach-ensure_view-IsBorrowed_example =
    Reach-ensure_view-IsBorrowed sample lifetimes writers refused counted_reached 0
      (Handle.view view) tt (omega arith) refl refl

begin_tick-ensure_view_example :
    ensure_view (some 0) 0 (begin_tick sample 5 (entered viewed world)).1.heap ≡ thrown stale_error
unfolding ensure_view begin_tick
begin_tick-ensure_view_example =
    begin_tick-ensure_view sample (entered viewed world) 0 tt refl 5 tt refl

close-ensure_view_example :
    ensure_view (some 0) 0 (close sample (entered viewed world)).1.heap ≡ thrown closed_error
unfolding ensure_view
close-ensure_view_example = close-ensure_view sample (entered viewed world) 0 tt refl 0 refl

Reach-for_entries-IsVisited_example :
    IsVisited 1
      (DeltaEntryRange.at sample entries)
      counted.heap
      (for_entries sample (suc 1) entries counted.heap)
unfolding ensure_view
Reach-for_entries-IsVisited_example =
    Reach-for_entries-IsVisited sample lifetimes writers refused counted_reached 2 entries tt
      (omega arith) (omega arith) refl refl

Reach-for_subscribers-IsVisited_example :
    IsVisited 1
      (SubscriberRange.at sample subscribers)
      counted.heap
      (for_subscribers sample (suc 1) subscribers counted.heap)
unfolding ensure_view
Reach-for_subscribers-IsVisited_example =
    Reach-for_subscribers-IsVisited sample lifetimes writers refused counted_reached 3 subscribers
      tt (omega arith) (omega arith) refl refl

for_groups-IsVisited_example :
    IsVisited 1 (FanoutView.at view) counted.heap (for_groups (suc 1) view counted.heap)
unfolding ensure_view
for_groups-IsVisited_example = for_groups-IsVisited view counted.heap tt refl (omega arith)
