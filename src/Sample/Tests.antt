-- ===== src/Sample/Tests.antt =====
-- The theorems applied to a program over the sample library: a World is made and initialised, and
-- a fanout view is taken from it.
use libdense.Common.{ℕ, ◌≡◌, ◌≢◌, refl, none, some, arith, true}
use libdense.Common.Int.{pos}
use libdense.DenseSim.Lifetimes.{chunk_span}
use libdense.Python.{parsed, ok, fault}
use libdense.World.State.{DenseWorld}
use libdense.World.Lifecycle.{DenseFanoutView, new_world, init, fanout_view}
use libdense.World.Calls.{Call, dispatch}
use libdense.View.State.{fanout_require_valid}
use libdense.View.Reads.{Read, read}
use libdense.Session.State.{
  Session, entered, left, with_reply, In, here, make, initialise, call, Reach, start, next,
  no_objects,
}
use libdense.Leases.Change.{put}
use libdense.Session.Invariant.{IsConsistent}
use libdense.Session.Reachable.{Reach-IsConsistent}
use libdense.Session.Safety.{fanout_require_valid-IsBorrowed, Reach-read-ne-fault}
use libdense.Sample.{platform, Heap, empty_heap, sample, span}
use libdense.Sample.Laws.{lifetimes, writers}

abbrev made : Session Heap
made = record (no_objects empty_heap) {
  runtime = record (no_objects empty_heap).runtime { worlds = put (λ a. none) 10 (some new_world) };
}

abbrev opened : Session Heap
opened = left made 10 (init sample (parsed (none, none, none, none)) (entered made new_world)).1

abbrev open_world : DenseWorld
open_world = record { world = some 0; view_generation = 1 }

abbrev viewed : Session Heap
viewed =
    let (r, e) =
      dispatch sample platform (Call.fanout_view (some 10) true) (entered opened open_world) in
    with_reply r (left opened 10 e)

abbrev first_view : DenseFanoutView
first_view = record { world = some 10; view = span 0; generation = 1 }

viewed-Reach : Reach sample platform (no_objects empty_heap) 3 viewed
unfolding new_world init
viewed-Reach =
    next
      (next (next start (make 10 refl))
        (initialise 10 new_world (parsed (none, none, none, none)) refl))
      (call 10 open_world (Call.fanout_view (some 10) true) refl refl)

first_view-alive : In first_view viewed.views
unfolding new_world init dispatch fanout_view
first_view-alive = here

first_view-valid : fanout_require_valid first_view viewed.runtime ≡ ok tt
unfolding new_world init dispatch fanout_view fanout_require_valid
first_view-valid = refl

Reach-IsConsistent_example : IsConsistent sample lifetimes 3 viewed
Reach-IsConsistent_example = Reach-IsConsistent sample lifetimes writers platform viewed-Reach

fanout_require_valid-IsBorrowed_example :
    (a p : ℕ) × (w : DenseWorld) × (first_view.world ≡ some a)
    × (viewed.runtime.worlds a ≡ some w)
    × (w.world ≡ some p)
    × lifetimes.IsLive p viewed.runtime.native
    × lifetimes.IsBorrowed p (chunk_span first_view.view) viewed.runtime.native
fanout_require_valid-IsBorrowed_example =
    fanout_require_valid-IsBorrowed sample lifetimes writers platform viewed-Reach first_view
      first_view-alive (omega arith) first_view-valid

Reach-read-ne-fault_example :
    read sample first_view (Read.entries_item (pos 0) true (pos 0)) viewed.runtime ≢ fault
Reach-read-ne-fault_example =
    Reach-read-ne-fault sample lifetimes writers platform viewed-Reach first_view first_view-alive
      (omega arith) (Read.entries_item (pos 0) true (pos 0))
