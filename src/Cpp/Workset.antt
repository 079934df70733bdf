-- ===== src/Cpp/Workset.antt =====
-- The class RecipientWorkset: the pending changes of each observer, over a ds_recipient_workset.
pub mod Types
pub mod View
pub mod Owners
pub mod Preserve
pub mod Reachable
use libdense.Common.{ℕ, zero, suc, ◌+◌, String, none, some, List, [], ◌∷◌, ◌++◌, if◌then◌else◌}
use libdense.DenseSim
use libdense.DenseSim.{
  EntityId, ObserverId, ChannelMask, Pointer, DsResult, is_ok, Library, WorksetLibrary,
}
use libdense.Cpp.State.{Outcome, returned, thrown, fault, World, closed_error}
use libdense.Cpp.Steps.{failure}
use Types.{
  RecipientWorksetConfig, RecipientWorksetEntry, RecipientWorksetView, RecipientWorksetStats,
  entry_from_c, stats_from_c,
}

pub record RecipientWorkset : Type 0 where
  pub workset_ : Pointer

-- Between different objects: the object that takes, and the other one afterwards.
abbrev pub move_construct : RecipientWorkset → RecipientWorkset × RecipientWorkset
move_construct other = (record { workset_ = other.workset_ }, record { workset_ = none })

module _ {Memory : Type 0} (lib : Library Memory) (wl : WorksetLibrary Memory) where
  -- dense::check on the result of a function that may write, and of one that only reads.
  abbrev pub checked : DsResult × Memory → String → Outcome (Unit {0}) × Memory
  checked (r, m) context = if is_ok r then (returned tt, m) else (thrown (failure lib r context), m)

  abbrev pub checked_read : {A B : Type 0} → DsResult × A → String → (A → Outcome B) → Outcome B
  checked_read (r, a) context k = if is_ok r then k a else thrown (failure lib r context)

  -- World::require_open
  abbrev pub opened : World → Memory → Outcome (Unit {0}) × Memory → Outcome (Unit {0}) × Memory
  opened world m after = elim world.world_ [ none ↦ (thrown closed_error, m) | some w ↦ after ]

  unfoldable pub construct : RecipientWorksetConfig → Memory → Outcome RecipientWorkset × Memory
  construct config m =
      let c_config : DenseSim.RecipientWorksetConfig = record wl.config_defaults {
        initial_recipient_capacity = config.initial_recipient_capacity;
        initial_visible_capacity_per_recipient = config.initial_visible_capacity_per_recipient;
      } in
      let (r, workset, m') = wl.create c_config m in
      if is_ok r
      then (returned (record { workset_ = workset }), m')
      else (thrown (failure lib r "ds_recipient_workset_create"), m')

  -- operator=(RecipientWorkset &&), between different objects.
  unfoldable pub move_assign :
      RecipientWorkset → RecipientWorkset → Memory → RecipientWorkset × RecipientWorkset × Memory
  move_assign self other m =
      (record { workset_ = other.workset_ }, record { workset_ = none }, wl.destroy self.workset_ m)

  unfoldable pub destroy : RecipientWorkset → Memory → Memory
  destroy self m = wl.destroy self.workset_ m

  unfoldable pub sync : RecipientWorkset → World → Memory → Outcome (Unit {0}) × Memory
  sync self world m =
      opened world m (checked (wl.sync self.workset_ world.world_ m) "ds_recipient_workset_sync")

  unfoldable pub enqueue_source :
      RecipientWorkset → World → EntityId → ChannelMask → Memory → Outcome (Unit {0}) × Memory
  enqueue_source self world entity_id channel_mask m = opened world m (
      checked (wl.enqueue_source self.workset_ world.world_ entity_id channel_mask m)
        "ds_recipient_workset_enqueue_source")

  -- The loop of `view`, with `left` rounds to go: `result` is what it has pushed.
  unfoldable pub copy_loop :
      Pointer
      → (left index : ℕ) → List RecipientWorksetEntry
      → Memory
      → Outcome (List RecipientWorksetEntry)
  unfolding entry_from_c
  copy_loop entries zero index result m = returned result
  copy_loop entries (suc left) index result m = elim (wl.read_entry entries index m) [
    | none ↦ fault
    | some entry ↦ copy_loop entries left (index + 1) (result ++ (entry_from_c entry ∷ [])) m
  ]

  abbrev pub with_entries :
      DenseSim.RecipientWorksetSpan
      → Outcome (List RecipientWorksetEntry)
      → Outcome RecipientWorksetView
  with_entries c_view (returned entries) = returned (record {
    tick = c_view.tick;
    observer_id = c_view.observer_id;
    visible_set_generation = c_view.visible_set_generation;
    visible_set_fingerprint = c_view.visible_set_fingerprint;
    entries = entries;
    dirty_count = c_view.dirty_count;
  })
  with_entries c_view (thrown e) = thrown e
  with_entries c_view fault = fault

  unfoldable pub view : RecipientWorkset → ObserverId → Memory → Outcome RecipientWorksetView
  unfolding copy_loop
  view self observer_id m =
      checked_read (wl.get_view self.workset_ observer_id m) "ds_recipient_workset_get_view"
        λ c_view. with_entries c_view (copy_loop c_view.entries c_view.visible_count 0 [] m)

  unfoldable pub acknowledge :
      RecipientWorkset
      → RecipientWorksetView
      → EntityId
      → ChannelMask
      → Memory
      → Outcome (Unit {0}) × Memory
  acknowledge self view entity_id channel_mask m =
      checked
        (wl.acknowledge self.workset_ view.observer_id view.visible_set_generation
          view.visible_set_fingerprint entity_id channel_mask m)
        "ds_recipient_workset_acknowledge"

  unfoldable pub clear :
      RecipientWorkset → RecipientWorksetView → Memory → Outcome (Unit {0}) × Memory
  clear self view m =
      checked
        (wl.clear self.workset_ view.observer_id view.visible_set_generation
          view.visible_set_fingerprint m)
        "ds_recipient_workset_clear"

  unfoldable pub stats : RecipientWorkset → Memory → Outcome RecipientWorksetStats
  unfolding stats_from_c
  stats self m =
      checked_read (wl.get_stats self.workset_ m) "ds_recipient_workset_get_stats"
        λ c_stats. returned (stats_from_c c_stats)
