-- ===== src/Cpp/Workset/Types.antt =====
-- The structs of recipient worksets in the C++ binding.
use libdense.Common.{ℕ, List}
use libdense.DenseSim
use libdense.DenseSim.{EntityId, ObserverId, ChannelMask, Tick}

pub record RecipientWorksetConfig : Type 0 where
  pub initial_recipient_capacity : ℕ
  pub initial_visible_capacity_per_recipient : ℕ

-- `RecipientWorksetConfig{}`
abbrev pub default_config : RecipientWorksetConfig
default_config = record {
  initial_recipient_capacity = 64;
  initial_visible_capacity_per_recipient = 64;
}

pub record RecipientWorksetEntry : Type 0 where
  pub entity_id : EntityId
  pub channel_mask : ChannelMask

-- It owns its entries, unlike a ds_recipient_workset_view.
pub record RecipientWorksetView : Type 0 where
  pub tick : Tick
  pub observer_id : ObserverId
  pub visible_set_generation : ℕ
  pub visible_set_fingerprint : ℕ
  pub entries : List RecipientWorksetEntry
  pub dirty_count : ℕ

pub record RecipientWorksetStats : Type 0 where
  pub recipient_count : ℕ
  pub recipient_capacity : ℕ
  pub visible_count : ℕ
  pub visible_capacity : ℕ
  pub dirty_count : ℕ
  pub retained_bytes : ℕ
  pub syncs : ℕ
  pub incremental_syncs : ℕ
  pub full_rebuilds : ℕ
  pub stable_recipient_reuses : ℕ
  pub membership_changes : ℕ
  pub source_enqueues : ℕ
  pub inverse_edge_visits : ℕ
  pub dirty_enqueues : ℕ
  pub dirty_deduplications : ℕ
  pub dirty_acknowledgements : ℕ
  pub stale_view_rejections : ℕ
  pub growth_operations : ℕ

unfoldable pub entry_from_c : DenseSim.RecipientWorksetEntry → RecipientWorksetEntry
entry_from_c entry = record { entity_id = entry.entity_id; channel_mask = entry.channel_mask }

-- The struct that RecipientWorkset::stats builds.
unfoldable pub stats_from_c : DenseSim.RecipientWorksetStats → RecipientWorksetStats
stats_from_c c_stats = record {
  recipient_count = c_stats.recipient_count;
  recipient_capacity = c_stats.recipient_capacity;
  visible_count = c_stats.visible_count;
  visible_capacity = c_stats.visible_capacity;
  dirty_count = c_stats.dirty_count;
  retained_bytes = c_stats.retained_bytes;
  syncs = c_stats.syncs;
  incremental_syncs = c_stats.incremental_syncs;
  full_rebuilds = c_stats.full_rebuilds;
  stable_recipient_reuses = c_stats.stable_recipient_reuses;
  membership_changes = c_stats.membership_changes;
  source_enqueues = c_stats.source_enqueues;
  inverse_edge_visits = c_stats.inverse_edge_visits;
  dirty_enqueues = c_stats.dirty_enqueues;
  dirty_deduplications = c_stats.dirty_deduplications;
  dirty_acknowledgements = c_stats.dirty_acknowledgements;
  stale_view_rejections = c_stats.stale_view_rejections;
  growth_operations = c_stats.growth_operations;
}
