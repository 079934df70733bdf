-- ===== src/Sample/Start.antt =====
-- The initialisation of the module where no object can be added.
use libdense.Common.{◌+◌, ◌≡◌, ◌⊎◌, true, false, ◌++◌, []}
use libdense.Module.{Name, Outcomes, Refs, init_module}
use libdense.Module.Balance.{kept, module_classes, module_constants, init_module-balanced}

abbrev nothing_added : Outcomes
nothing_added = record {
  ready = λ n. true;
  create = true;
  new_exception = true;
  from_unsigned = λ name. true;
  add = λ name. false;
}

abbrev at_start : Refs
at_start = record { module_refs = 0; held = λ n. 1; attributes = [] }

init_module-balanced_example :
    let (r, s') = init_module nothing_added at_start in
    ((n : Name) → s'.held n ≡ 1 + kept true n)
    × (((r ≡ true)
          × (s'.module_refs ≡ 0 + 1)
          × (s'.attributes ≡ module_classes ++ module_constants))
        ⊎ ((r ≡ false) × (s'.module_refs ≡ 0)))
init_module-balanced_example = init_module-balanced nothing_added at_start
