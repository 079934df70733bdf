-- ===== src/Sample/CppProgram.antt =====
-- A C++ program over the sample library: a World, its fanout view, a group of it, and its ranges.
use libdense.Common.{ℕ, refl, Option, none, some, arith, inl, inr}
use libdense.DenseSim.Lifetimes.{RefusedCreate}
use libdense.Leases.Change.{put}
use libdense.Cpp.State.{WorldState, World, ensure_view}
use libdense.Cpp.Types.{default_world_config}
use libdense.Cpp.DeltaEntryRange.{DeltaEntryRange}
use libdense.Cpp.SubscriberRange.{SubscriberRange}
use libdense.Cpp.ChunkDeltaView
use libdense.Cpp.ChunkDeltaView.{ChunkDeltaView}
use libdense.Cpp.FanoutView
use libdense.Cpp.FanoutView.{FanoutView}
use libdense.Cpp.Lifecycle.{construct, destroy_state, fanout}
use libdense.Cpp.Calls.{Call, dispatch}
use libdense.Cpp.Variables.{Program, Handle, no_variables, Refers}
use libdense.Cpp.Program.{
  construct_world, destroy_world, call, derive, Reach, start, next, last, view_at, group_entries,
  group_subscribers,
}
use libdense.Sample.{Heap, empty_heap, sample, span, renew, free}

pub refused : RefusedCreate sample
refused = record { null = λ config m bad. absurd (bad refl) }

abbrev pub state : WorldState
state = record { world = some 0; view_generation = 0 }

abbrev pub world : World
world = record { state_ = some 0; world_ = some 0 }

abbrev pub view : FanoutView
view = record { state_ = some 0; generation_ = 0; view_ = span 0 }

abbrev pub group : ChunkDeltaView
group = record { state_ = some 0; generation_ = 0; group_ = record { base = some 0; index = 0 } }

abbrev pub entries : DeltaEntryRange
entries = record { state_ = some 0; generation_ = 0; entries_ = some 0; count_ = 1 }

abbrev pub subscribers : SubscriberRange
subscribers = record { state_ = some 0; generation_ = 0; subscribers_ = some 0; count_ = 1 }

abbrev no_handles : ℕ → Option Handle
no_handles y = none

abbrev pub made : Program Heap
made = record {
  heap = record { native = renew 0 empty_heap; worlds = put (λ a. none) 0 (some state) };
  objects = put (λ x. none) 0 (some world);
  handles = no_handles;
}

abbrev pub viewed : Program Heap
viewed = record {
  heap = made.heap;
  objects = put made.objects 0 (some world);
  handles = put no_handles 0 (some (Handle.view view));
}

abbrev pub grouped : Program Heap
grouped = record viewed { handles = put viewed.handles 1 (some (Handle.group group)) }

abbrev pub ranged : Program Heap
ranged = record grouped { handles = put grouped.handles 2 (some (Handle.entry_range entries)) }

abbrev pub counted : Program Heap
counted = record ranged {
  handles = put ranged.handles 3 (some (Handle.subscriber_range subscribers));
}

-- After the World's end, where it was alone.
abbrev pub ended : Program Heap
ended = record {
  heap = record {
    native = free (some 0) (renew 0 empty_heap);
    worlds = put made.heap.worlds 0 none;
  };
  objects = put made.objects 0 none;
  handles = no_handles;
}

made_reached : Reach sample (no_variables empty_heap) 1 made
unfolding construct
made_reached = next start (construct_world 0 0 default_world_config refl refl)

viewed_reached : Reach sample (no_variables empty_heap) 2 viewed
unfolding dispatch fanout
viewed_reached = next made_reached (call 0 0 world Call.fanout refl refl)

grouped_reached : Reach sample (no_variables empty_heap) 3 grouped
unfolding FanoutView.at ensure_view
grouped_reached =
    next viewed_reached
      (derive 1 0 (Handle.view view) (Handle.group group) refl refl (view_at view 0 group refl))

ranged_reached : Reach sample (no_variables empty_heap) 4 ranged
unfolding ChunkDeltaView.entries ensure_view
ranged_reached = next grouped_reached (
    derive 2 1 (Handle.group group) (Handle.entry_range entries) refl refl
      (group_entries group entries refl))

pub counted_reached : Reach sample (no_variables empty_heap) 5 counted
unfolding ChunkDeltaView.subscribers ensure_view
counted_reached = next ranged_reached (
    derive 3 1 (Handle.group group) (Handle.subscriber_range subscribers) refl refl
      (group_subscribers group subscribers refl))

-- Nothing holds the state once the World has ended.
alone : ¬ (Refers (record made { objects = put made.objects 0 none }) 0)
alone (inl (x, w, e, s)) = ground (arith, e)
alone (inr (y, h, e, s)) = cc

pub ended_reached : Reach sample (no_variables empty_heap) 2 ended
unfolding destroy_state
ended_reached = next made_reached (destroy_world 0 world ended refl (last 0 state refl alone))
