-- ===== src/World/Init.antt =====
-- What World.__init__ can end in, also where it is called again on a World in use.
use libdense.Common.{
  ℕ, ◌≡◌, ◌≢◌, refl, false, ◌||◌, Option, none, some, arith, Bool-cases, Option-cases, inl, inr,
}
use libdense.Common.Int.{ℤ, pos}
use libdense.DenseSim.{ds_ok, is_ok, WorldConfig, Library}
use libdense.Python.{Result, ok, err, Parsed, parsed, rejected}
use libdense.World.State.{Env, next_generation, result_error}
use libdense.World.Lifecycle.{init, given, negative, world_config}

module _ {Memory : Type 0} (lib : Library Memory) where
  pub data InitOutcome (e : Env Memory) (out : Result (Unit {0}) × Env Memory) : Type 0 where
    -- The arguments were refused, and nothing was done.
    untouched : out.1 ≡ e → out.0 ≢ ok tt → InitOutcome e out
    -- No world could be created; the World keeps the one that it had.
    refused :
        (config : WorldConfig)
        → is_ok (lib.world_create config e.native).0 ≡ false
        → out ≡ (
          err (result_error lib (lib.world_create config e.native).0 "World creation failed"),
          record e { native = (lib.world_create config e.native).2 },
        )
        → InitOutcome e out
    -- A World that had none takes the new world.
    first :
        (config : WorldConfig)
        → (lib.world_create config e.native).0 ≡ ds_ok
        → e.self.world ≡ none
        → out ≡ (
          ok tt,
          record {
            self = record e.self { world = (lib.world_create config e.native).1 };
            native = (lib.world_create config e.native).2;
            held = e.held;
          },
        )
        → InitOutcome e out
    -- A World in use takes the new world, destroys the old one and advances its generation.
    again :
        (config : WorldConfig) (p : ℕ)
        → (lib.world_create config e.native).0 ≡ ds_ok
        → e.self.world ≡ some p
        → out ≡ (
          ok tt,
          record {
            self = record {
              world = (lib.world_create config e.native).1;
              view_generation = next_generation e.self.view_generation;
            };
            native = lib.world_destroy (some p) (lib.world_create config e.native).2;
            held = e.held;
          },
        )
        → InitOutcome e out

  -- World.__init__, with any arguments and in any state, ends in one of the four ways of
  -- `InitOutcome`: the arguments are refused and nothing is done; ds_world_create refuses and the
  -- World keeps what it had; a World without a world takes the new one; a World in use takes the
  -- new one, destroys the old one and advances its generation.
  pub init-InitOutcome :
      (args : Parsed (Option ℤ × Option ℤ × Option ℤ × Option ℤ)) (e : Env Memory)
      → InitOutcome e (init lib args e)
  unfolding init
  init-InitOutcome (rejected x) e = untouched refl (λ q. cc)
  init-InitOutcome (parsed (cell, chunk, entities, observers)) e =
      let ec = given entities (pos 1024) in
      let oc = given observers (pos 64) in
      let config = world_config cell chunk ec oc in
      let r = lib.world_create config e.native in
      elim (Bool-cases (negative ec || negative oc)) [
        | inl bad ↦ untouched (ground arith) (λ q. ground arith)
        | inr good ↦ elim (Bool-cases (is_ok r.0)) [
          | inr failed ↦ refused config failed (ground arith)
          | inl made ↦ elim (Option-cases e.self.world) [
            | inl closed ↦ first config (ground arith) closed (ground arith)
            | inr (p, open_at) ↦ again config p (ground arith) open_at (ground arith)
          ]
        ]
      ]
