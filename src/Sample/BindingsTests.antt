-- ===== src/Sample/BindingsTests.antt =====
-- The theorem on both bindings, applied to a tick of the sample library's world: a Python World
-- behind its __init__, and a C++ World behind its constructor.
use libdense.Common.{◌-◌, ◌^◌, ◌≡◌, refl, none}
use libdense.Python.{parsed}
use libdense.World
use libdense.World.State
use libdense.World.Lifecycle.{new_world, init}
use libdense.Cpp
use libdense.Cpp.Variables.{entered}
use libdense.Bindings.Corresponds.{raises, throws, on_ticks, OnTicks}
use libdense.Bindings.Agreement.{IsAlike, dispatch-IsAlike}
use libdense.Sample.{platform, Heap, empty_heap, sample}
use libdense.Sample.CppProgram.{world, viewed}

abbrev python_env : World.State.Env Heap
python_env =
    (init sample (parsed (none, none, none, none))
      (record { self = new_world; native = empty_heap; held = 0 })).1

abbrev python_call : World.Calls.Call
python_call = World.Calls.Call.begin_tick (parsed 5)

abbrev cpp_call : Cpp.Calls.Call
cpp_call = Cpp.Calls.Call.begin_tick 5

dispatch-IsAlike_example :
    IsAlike
      (2 ^ 64 - 1)
      0
      (World.Calls.dispatch sample platform python_call python_env).1
      (Cpp.Calls.dispatch sample cpp_call (entered viewed world)).1
    × (throws (Cpp.Calls.dispatch sample cpp_call (entered viewed world)).0
        ≡ raises (World.Calls.dispatch sample platform python_call python_env).0)
unfolding init new_world
dispatch-IsAlike_example =
    dispatch-IsAlike sample platform python_call cpp_call (2 ^ 64 - 1) 0 python_env
      (entered viewed world) (on_ticks (OnTicks.begin_tick 5))
      (record { native = refl; shared = refl; world = refl; state = refl })
