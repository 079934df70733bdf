-- ===== src/Module.antt =====
-- PyInit__dense_sim and dense_add_int_constant of bindings/python/src/dense_sim/_dense_sim.c, with
-- the references that the code owns.
pub mod Balance
use libdense.Common.{
  ℕ, ◌+◌, ◌-◌, Bool, true, false, ◌&&◌, String, List, [], ◌∷◌, ◌++◌, ◌==◌, if◌then◌else◌,
}
use libdense.DenseSim.{
  channel_position, channel_vitals, channel_animation, channel_appearance, channel_custom_0,
}

pub data Name : Type 0 where
  dense_sim_error world_type fanout_view_type chunk_delta_view_type entry_sequence_type : Name
  subscriber_sequence_type delta_entry_type : Name
  integer : ℕ → Name

abbrev pub code : Name → ℕ
code Name.dense_sim_error = 0
code Name.world_type = 1
code Name.fanout_view_type = 2
code Name.chunk_delta_view_type = 3
code Name.entry_sequence_type = 4
code Name.subscriber_sequence_type = 5
code Name.delta_entry_type = 6
code (Name.integer v) = 7 + v

-- Which calls of CPython succeed; each call site has a name of its own.
pub record Outcomes : Type 0 where
  pub ready : Name → Bool
  pub create : Bool
  pub new_exception : Bool
  pub from_unsigned : String → Bool
  pub add : String → Bool

-- The references that the code of the module owns, that of the static variable DenseSimError
-- included, and the module's attributes.
pub record Refs : Type 0 where
  pub module_refs : ℕ
  pub held : Name → ℕ
  pub attributes : List (String × Name)

-- Whether the code went on.
abbrev pub Attempt : Type 0
Attempt = Refs → Bool × Refs

infixl 5 ◌&>◌
abbrev pub ◌&>◌ : Attempt → Attempt → Attempt
◌&>◌ m k s = let (r, s') = m s in let rest = k s' in if r then rest else (false, s')

-- Py_INCREF and Py_DECREF
abbrev pub incref : Name → Refs → Refs
incref n s = record s { held = λ m. if code m == code n then s.held m + 1 else s.held m }

abbrev pub decref : Name → Refs → Refs
decref n s = record s { held = λ m. if code m == code n then s.held m - 1 else s.held m }

abbrev pub decref_module : Refs → Refs
decref_module s = record s { module_refs = s.module_refs - 1 }

module _ (o : Outcomes) where
  -- PyModule_AddObject takes over the reference where it succeeds, and only there.
  abbrev pub add_object : String → Name → Attempt
  add_object name n s =
      if o.add name
      then (true, record (decref n s) { attributes = s.attributes ++ ((name, n) ∷ []) })
      else (false, s)

  -- `if (PyModule_AddObject(module, ...) < 0) { Py_DECREF(...); Py_DECREF(module); return NULL; }`
  -- behind the Py_INCREF.
  unfoldable pub add_counted : String → Name → Attempt
  add_counted name n s =
      let (r, s') = add_object name n (incref n s) in
      if r then (true, s') else (false, decref_module (decref n s'))

  -- dense_add_int_constant
  unfoldable pub add_int_constant : String → ℕ → Attempt
  add_int_constant name value s =
      if o.from_unsigned name
      then (let n = Name.integer value in
          let (r, s') = add_object name n (incref n s) in
          if r then (true, s') else (false, decref n s'))
      else (false, s)

  abbrev pub types_ready : Bool
  types_ready =
      o.ready Name.world_type
      && o.ready Name.fanout_view_type
      && o.ready Name.chunk_delta_view_type
      && o.ready Name.entry_sequence_type
      && o.ready Name.subscriber_sequence_type
      && o.ready Name.delta_entry_type

  abbrev pub add_classes : Attempt
  add_classes =
      add_counted "DenseSimError" Name.dense_sim_error
      &> add_counted "World" Name.world_type
      &> add_counted "FanoutView" Name.fanout_view_type
      &> add_counted "ChunkDeltaView" Name.chunk_delta_view_type
      &> add_counted "DeltaEntry" Name.delta_entry_type

  abbrev pub add_constants : Attempt
  add_constants =
      add_int_constant "CHANNEL_POSITION" channel_position
      &> add_int_constant "CHANNEL_VITALS" channel_vitals
      &> add_int_constant "CHANNEL_ANIMATION" channel_animation
      &> add_int_constant "CHANNEL_APPEARANCE" channel_appearance
      &> add_int_constant "CHANNEL_CUSTOM_0" channel_custom_0
      &> add_int_constant "DELTA_UPDATE" 0
      &> add_int_constant "DELTA_ENTER" 1
      &> add_int_constant "DELTA_LEAVE" 2
      &> add_int_constant "DELTA_SPAWN" 3
      &> add_int_constant "DELTA_REMOVE" 4
      &> add_int_constant "MOTION_SAMPLED" 0
      &> add_int_constant "MOTION_KINETIC" 1

  -- `if (... < 0) { Py_DECREF(module); return NULL; }`
  abbrev pub or_release : Attempt → Attempt
  or_release m s = let (r, s') = m s in if r then (true, s') else (false, decref_module s')

  -- `DenseSimError = PyErr_NewException(...)`, a new reference that the static variable keeps, and
  -- `if (DenseSimError == NULL) { Py_DECREF(module); return NULL; }`.
  abbrev pub make_error : Attempt
  make_error s =
      if o.new_exception then (true, incref Name.dense_sim_error s) else (false, decref_module s)

  -- PyInit__dense_sim; `false` where it returns NULL.
  unfoldable pub init_module : Attempt
  init_module s =
      if types_ready && o.create
      then (let made = record s { module_refs = s.module_refs + 1; attributes = [] } in
          (make_error &> (add_classes &> or_release add_constants)) made)
      else (false, s)
