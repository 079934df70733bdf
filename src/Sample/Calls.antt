-- ===== src/Sample/Calls.antt =====
-- The theorems on single calls, and on the indices of views, applied to the sample library.
use libdense.Common.{ℕ, ◌≡◌, ◌≢◌, ◌<◌, ◌⊎◌, refl, none, some, arith, [], ◌∷◌}
use libdense.Common.Int.{ℤ, pos, negsuc, pos_part, ◌+ℤ◌}
use libdense.Python.{parsed, Result, ok, err, py_none}
use libdense.World.State.{DenseWorld, Env}
use libdense.World.Lifecycle.{DenseFanoutView, init, begin_tick}
use libdense.World.Init.{InitOutcome, init-InitOutcome}
use libdense.World.Calls.{Call, Reply, dispatch}
use libdense.World.Frame.{after, dispatch-after}
use libdense.World.Closed.{closed_reply, dispatch-closed}
use libdense.View.State.{fanout_require_valid, invalidated_error, normalize_index, chunk_at}
use libdense.View.Index.{normalize_index-lt, chunk_at-lt, get_item-normalize_index}
use libdense.Session.State.{Session, entered, left}
use libdense.Session.Stale.{
  begin_tick-fanout_require_valid, close-fanout_require_valid, init-fanout_require_valid,
}
use libdense.Sample.{platform, Heap, empty_heap, sample, renew, span}

abbrev open_world : DenseWorld
open_world = record { world = some 0; view_generation = 1 }

abbrev open_env : Env Heap
open_env = record { self = open_world; native = renew 0 empty_heap; held = 0 }

abbrev closed_env : Env Heap
closed_env = record open_env { self = record { world = none; view_generation = 2 } }

abbrev view : DenseFanoutView
view = record { world = some 10; view = span 0; generation = 1 }

abbrev session : Session Heap
session = record {
  runtime = record { native = renew 0 empty_heap; worlds = λ a. some open_world };
  views = view ∷ [];
}

dispatch-after_example :
    let c = Call.begin_tick (parsed 4) in
    ((dispatch sample platform c open_env).1.self
      ≡ after c (dispatch sample platform c open_env).0 open_world)
    × ((dispatch sample platform c open_env).1.held ≡ 0)
dispatch-after_example = dispatch-after sample platform (Call.begin_tick (parsed 4)) open_env

dispatch-closed_example :
    dispatch sample platform (Call.remove (parsed 3)) closed_env
    ≡ (closed_reply (Call.remove (parsed 3)), closed_env)
dispatch-closed_example = dispatch-closed sample platform (Call.remove (parsed 3)) closed_env refl

init-InitOutcome_example :
    InitOutcome sample open_env (init sample (parsed (none, none, some (pos 4), none)) open_env)
init-InitOutcome_example =
    init-InitOutcome sample (parsed (none, none, some (pos 4), none)) open_env

begin_tick-ok :
    (dispatch sample platform (Call.begin_tick (parsed 4)) (entered session open_world)).0
    ≡ ok (Reply.value py_none)
unfolding dispatch begin_tick
begin_tick-ok = refl

begin_tick-fanout_require_valid_example :
    fanout_require_valid view
      (left session 10
        (dispatch sample platform
          (Call.begin_tick (parsed 4))
          (entered session open_world)).1).runtime
    ≡ err invalidated_error
begin_tick-fanout_require_valid_example =
    begin_tick-fanout_require_valid session 10 view refl sample platform open_world refl (parsed 4)
      (Reply.value py_none) begin_tick-ok

close-fanout_require_valid_example :
    fanout_require_valid view
      (left session 10 (dispatch sample platform Call.close (entered session open_world)).1).runtime
    ≡ err invalidated_error
close-fanout_require_valid_example =
    close-fanout_require_valid session 10 view refl sample platform open_world refl refl

init-fanout_require_valid_example :
    let (r, e) = init sample (parsed (none, none, none, none)) (entered session open_world) in
    ((r ≡ ok tt) × (fanout_require_valid view (left session 10 e).runtime ≡ err invalidated_error))
    ⊎ ((r ≢ ok tt)
        × (fanout_require_valid view (left session 10 e).runtime
            ≡ fanout_require_valid view session.runtime))
init-fanout_require_valid_example =
    init-fanout_require_valid session 10 view refl sample platform open_world refl
      (parsed (none, none, none, none)) refl refl

back_index : normalize_index (negsuc 0) (pos 4) ≡ ok (pos 3)
unfolding normalize_index ◌+ℤ◌
back_index = refl

normalize_index-lt_example : (pos 3 ≡ pos (pos_part (pos 3))) × (pos_part (pos 3) < 4)
normalize_index-lt_example = normalize_index-lt (negsuc 0) (pos 3) 4 back_index

view-chunk : chunk_at view (negsuc 0) session.runtime ≡ ok 0
unfolding chunk_at fanout_require_valid normalize_index ◌+ℤ◌
view-chunk = refl

chunk_at-lt_example :
    (fanout_require_valid view session.runtime ≡ ok tt) × (0 < view.view.chunk_count)
chunk_at-lt_example = chunk_at-lt view (negsuc 0) session.runtime view-chunk

-- CPython's rule, for every index.
abbrev get_item : (ℤ → Result ℤ) → ℕ → ℤ → Result ℤ
get_item item n (pos i) = item (pos i)
get_item item n (negsuc k) = item (negsuc k +ℤ pos n)

get_item-normalize_index_example :
    get_item (λ i. normalize_index i (pos 3)) 3 (negsuc 4) ≡ ok (pos 1)
get_item-normalize_index_example =
    get_item-normalize_index get_item (λ item n k. refl) 3 4 1 (omega arith) refl
