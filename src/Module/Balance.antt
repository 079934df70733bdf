-- ===== src/Module/Balance.antt =====
-- Which references the initialisation of the module owns at its end.
use libdense.Common.{
  ℕ, ◌+◌, ◌-◌, ◌≡◌, ◌⊎◌, inl, inr, refl, Bool, true, false, String, List, [], ◌∷◌, ◌++◌, ◌==◌,
  arith, if◌then◌else◌, Bool-cases, ◌&&◌,
}
use mathlib.Core.List.{append_assoc}
use libdense.Module.{
  Name, Outcomes, Refs, Attempt, add_counted, add_int_constant, init_module, decref_module, ◌&>◌,
  code, incref, or_release, add_classes, add_constants, types_ready,
}

-- An attempt that owns as much as before, adds these attributes where it goes on, and where it
-- stops has given up `k` references to the module.
record IsBalanced (k : ℕ) (names : List (String × Name)) (m : Attempt) : Type 0 where
  pub held : (s : Refs) (n : Name) → (m s).1.held n ≡ s.held n
  pub outcome :
      (s : Refs)
      → (((m s).0 ≡ true)
          × ((m s).1.module_refs ≡ s.module_refs)
          × ((m s).1.attributes ≡ s.attributes ++ names))
        ⊎ (((m s).0 ≡ false) × ((m s).1.module_refs ≡ s.module_refs - k))

then-IsBalanced :
    (k : ℕ) (xs ys : List (String × Name)) (m l : Attempt)
    → IsBalanced k xs m
    → IsBalanced k ys l
    → IsBalanced k (xs ++ ys) (m &> l)
then-IsBalanced k xs ys m l f g = record {
  held = λ s n. ground (arith, f.held s n, g.held (m s).1 n);
  outcome = λ s. elim (f.outcome s) [
    | inl (r, same, added) ↦ elim (g.outcome (m s).1) [
      | inl (r', same', added') ↦
          inl (ground arith, ground arith, ground (arith, append_assoc s.attributes xs ys))
      | inr (r', same') ↦ inr (ground arith, ground arith)
    ]
    | inr (r, same) ↦ inr (ground arith, ground arith)
  ];
}

module _ (o : Outcomes) where
  add_counted-IsBalanced :
      (name : String) (n : Name) → IsBalanced 1 ((name, n) ∷ []) (add_counted o name n)
  unfolding add_counted
  add_counted-IsBalanced name n = record {
    held = λ s m. ground arith;
    outcome = λ s. elim (Bool-cases (o.add name)) [
      | inl good ↦ inl (ground arith, ground arith, ground arith)
      | inr bad ↦ inr (ground arith, ground arith)
    ];
  }

  add_int_constant-IsBalanced :
      (name : String) (v : ℕ)
      → IsBalanced 0 ((name, Name.integer v) ∷ []) (add_int_constant o name v)
  unfolding add_int_constant
  add_int_constant-IsBalanced name v = record {
    held = λ s m. ground arith;
    outcome = λ s. elim (Bool-cases (o.from_unsigned name)) [
      | inl made ↦ elim (Bool-cases (o.add name)) [
        | inl good ↦ inl (ground arith, ground arith, ground arith)
        | inr bad ↦ inr (ground arith, ground arith)
      ]
      | inr unmade ↦ inr (ground arith, ground arith)
    ];
  }

  or_release-IsBalanced :
      (xs : List (String × Name)) (m : Attempt)
      → IsBalanced 0 xs m
      → IsBalanced 1 xs (or_release o m)
  or_release-IsBalanced xs m f = record {
    held = λ s n. ground (arith, f.held s n);
    outcome = λ s. elim (f.outcome s) [
      | inl (r, same, added) ↦ inl (ground arith, ground arith, ground arith)
      | inr (r, same) ↦ inr (ground arith, ground arith)
    ];
  }

-- The reference to the exception class that the static variable DenseSimError keeps.
abbrev pub kept : Bool → Name → ℕ
kept error_made n = if error_made && code n == code Name.dense_sim_error then 1 else 0

-- What a balanced attempt does behind the creation of the module and of the exception class.
creation-balanced :
    (created error_made : Bool) (names : List (String × Name)) (build : Attempt)
    → IsBalanced 1 names build
    → (s : Refs)
    → let made = record s { module_refs = s.module_refs + 1; attributes = [] } in
      let make : Attempt = λ m.
        if error_made then (true, incref Name.dense_sim_error m) else (false, decref_module m) in
      let (r, s') = if created then (make &> build) made else (false, s) in
      ((n : Name) → s'.held n ≡ s.held n + kept (created && error_made) n)
      × (((r ≡ true) × (s'.module_refs ≡ s.module_refs + 1) × (s'.attributes ≡ names))
          ⊎ ((r ≡ false) × (s'.module_refs ≡ s.module_refs)))
creation-balanced false e names build b s = ((λ n. omega arith), inr (refl, refl))
creation-balanced true false names build b s = ((λ n. omega arith), inr (refl, omega arith))
creation-balanced true true names build b s =
    let made =
      incref Name.dense_sim_error (record s { module_refs = s.module_refs + 1; attributes = [] }) in
    (
      (λ n. ground (arith, b.held made n)),
      elim (b.outcome made) [
        | inl (r, same, added) ↦ inl (r, same, added)
        | inr (r, same) ↦ inr (r, omega (arith, same))
      ],
    )

-- The attributes of the module, in the order in which they are added.
abbrev pub module_classes : List (String × Name)
module_classes =
    ("DenseSimError", Name.dense_sim_error)
    ∷ ("World", Name.world_type)
    ∷ ("FanoutView", Name.fanout_view_type)
    ∷ ("ChunkDeltaView", Name.chunk_delta_view_type)
    ∷ ("DeltaEntry", Name.delta_entry_type)
    ∷ []

abbrev pub module_constants : List (String × Name)
module_constants =
    ("CHANNEL_POSITION", Name.integer 1)
    ∷ ("CHANNEL_VITALS", Name.integer 2)
    ∷ ("CHANNEL_ANIMATION", Name.integer 4)
    ∷ ("CHANNEL_APPEARANCE", Name.integer 8)
    ∷ ("CHANNEL_CUSTOM_0", Name.integer 65536)
    ∷ ("DELTA_UPDATE", Name.integer 0)
    ∷ ("DELTA_ENTER", Name.integer 1)
    ∷ ("DELTA_LEAVE", Name.integer 2)
    ∷ ("DELTA_SPAWN", Name.integer 3)
    ∷ ("DELTA_REMOVE", Name.integer 4)
    ∷ ("MOTION_SAMPLED", Name.integer 0)
    ∷ ("MOTION_KINETIC", Name.integer 1)
    ∷ []

module _ (o : Outcomes) where
  add_classes-IsBalanced : IsBalanced 1 module_classes (add_classes o)
  add_classes-IsBalanced =
      let c = add_counted-IsBalanced o in
      then-IsBalanced 1 _ _ _ _
        (then-IsBalanced 1 _ _ _ _
          (then-IsBalanced 1 _ _ _ _
            (then-IsBalanced 1 _ _ _ _ (c "DenseSimError" Name.dense_sim_error)
              (c "World" Name.world_type))
            (c "FanoutView" Name.fanout_view_type))
          (c "ChunkDeltaView" Name.chunk_delta_view_type))
        (c "DeltaEntry" Name.delta_entry_type)

  add_constants-IsBalanced : IsBalanced 0 module_constants (add_constants o)
  add_constants-IsBalanced =
      let c = add_int_constant-IsBalanced o in
      let t = then-IsBalanced 0 in
      t _ _ _ _
        (t _ _ _ _
          (t _ _ _ _
            (t _ _ _ _
              (t _ _ _ _
                (t _ _ _ _
                  (t _ _ _ _
                    (t _ _ _ _
                      (t _ _ _ _
                        (t _ _ _ _ (t _ _ _ _ (c "CHANNEL_POSITION" 1) (c "CHANNEL_VITALS" 2))
                          (c "CHANNEL_ANIMATION" 4))
                        (c "CHANNEL_APPEARANCE" 8))
                      (c "CHANNEL_CUSTOM_0" 65536))
                    (c "DELTA_UPDATE" 0))
                  (c "DELTA_ENTER" 1))
                (c "DELTA_LEAVE" 2))
              (c "DELTA_SPAWN" 3))
            (c "DELTA_REMOVE" 4))
          (c "MOTION_SAMPLED" 0))
        (c "MOTION_KINETIC" 1)

  -- Whichever calls of CPython fail, PyInit__dense_sim owns as many references to each class and
  -- each integer at its end as at its start, and one reference more to DenseSimError if and only if
  -- it got past PyErr_NewException, whether it then returns the module or NULL. Where it goes on to
  -- the end it owns one reference more to the module, which it returns, and the module has the five
  -- classes and the twelve constants as attributes in this order; else it owns as many references to
  -- the module as before.
  pub init_module-balanced :
      (s : Refs)
      → let (r, s') = init_module o s in
        ((n : Name) → s'.held n ≡ s.held n + kept (types_ready o && o.create && o.new_exception) n)
        × (((r ≡ true)
              × (s'.module_refs ≡ s.module_refs + 1)
              × (s'.attributes ≡ module_classes ++ module_constants))
            ⊎ ((r ≡ false) × (s'.module_refs ≡ s.module_refs)))
  unfolding init_module
  init_module-balanced s =
      creation-balanced (types_ready o && o.create) o.new_exception
        (module_classes ++ module_constants) (add_classes o &> or_release o (add_constants o))
        (then-IsBalanced 1 module_classes module_constants (add_classes o)
          (or_release o (add_constants o)) add_classes-IsBalanced
          (or_release-IsBalanced o module_constants (add_constants o) add_constants-IsBalanced))
        s
