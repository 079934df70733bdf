-- ===== src/Sample/Worksets.antt =====
-- A library of recipient worksets that each have one entry.
use libdense.Common.{ℕ, ◌<◌, ◌≡◌, ◌≢◌, refl, none, some, arith, inl, inr}
use libdense.DenseSim
use libdense.DenseSim.{ds_ok, DsResult, Pointer, WorksetLibrary}
use libdense.Leases.Change.{put, eq-cases}
use libdense.Cpp.Workset.{RecipientWorkset}
use libdense.Cpp.Workset.Owners.{WorksetLifetimes, UsersKeep, Program}
use libdense.Sample.{Heap, empty_heap, held_at, renew, free}

abbrev pub lent : Pointer → DenseSim.RecipientWorksetSpan
lent a = record {
  tick = 1;
  observer_id = 4;
  visible_set_generation = 2;
  visible_set_fingerprint = 9;
  entries = a;
  visible_count = 1;
  dirty_count = 1;
}

abbrev view_of : Pointer → DsResult × DenseSim.RecipientWorksetSpan
view_of none = (DsResult.invalid_argument, record (lent none) { visible_count = 0 })
view_of (some q) = (ds_ok, lent (some q))

abbrev no_stats : DenseSim.RecipientWorksetStats
no_stats = record {
  recipient_count = 0;
  recipient_capacity = 0;
  visible_count = 0;
  visible_capacity = 0;
  dirty_count = 0;
  retained_bytes = 0;
  syncs = 0;
  incremental_syncs = 0;
  full_rebuilds = 0;
  stable_recipient_reuses = 0;
  membership_changes = 0;
  source_enqueues = 0;
  inverse_edge_visits = 0;
  dirty_enqueues = 0;
  dirty_deduplications = 0;
  dirty_acknowledgements = 0;
  stale_view_rejections = 0;
  growth_operations = 0;
}

abbrev pub entry : DenseSim.RecipientWorksetEntry
entry = record { entity_id = 3; channel_mask = 1 }

abbrev pub worksets : WorksetLibrary Heap
worksets = record {
  config_defaults = record {
    initial_recipient_capacity = 1;
    initial_visible_capacity_per_recipient = 1;
  };
  create = λ config m. (ds_ok, some m.next, renew m.next m);
  destroy = free;
  sync = λ p w m. (ds_ok, m);
  enqueue_source = λ p w id mask m. (ds_ok, m);
  get_view = λ p observer_id m. view_of p;
  acknowledge = λ p o g f id mask m. (ds_ok, m);
  clear = λ p o g f m. (ds_ok, m);
  get_stats = λ p m. (ds_ok, no_stats);
  read_entry = λ p i m. held_at p i entry m;
}

-- A workset lies at `q`.
pub record Exists (q : ℕ) (m : Heap) : Type 0 where
  pub below : q < m.next
  pub array : ℕ
  pub has : m.array q ≡ some array

renew-only : (m : Heap) (q : ℕ) → Exists q (renew m.next m) → q ≢ m.next → Exists q m
renew-only m q e ne = record {
  below = omega (arith, e.below, ne);
  array = e.array;
  has = ground (arith, e.has, ne);
}

free-only : (p q : ℕ) (m : Heap) → Exists q (free (some p) m) → p ≢ q
free-only p q m e same = ground (arith, e.has, same)

freed : (p q : ℕ) (m : Heap) → p ≢ q → Exists q (free (some p) m) → Exists q m
freed p q m ne e = record { below = e.below; array = e.array; has = ground (arith, e.has, ne) }

pub workset_lifetimes : WorksetLifetimes worksets
workset_lifetimes = record {
  IsLive = Exists;
  create_result = λ config m e. (
    m.next,
    refl,
    record { below = omega arith; array = m.next; has = ground arith },
    λ l. omega (arith, l.below),
  );
  create_keeps = λ config m q l. record {
    below = omega (arith, l.below);
    array = l.array;
    has = ground (arith, l.has, l.below);
  };
  create_only = λ config m q l. elim (eq-cases m.next q) [
    | inl same ↦ inr (refl, ground (arith, same))
    | inr ne ↦ inl (renew-only m q l ne)
  ];
  destroy_null = λ m. refl;
  destroy_keeps =
      λ p q m ne l k. record { below = k.below; array = k.array; has = ground (arith, k.has, ne) };
  destroy_only = λ p q m l k. (free-only p q m k, freed p q m (free-only p q m k) k);
}

pub none_exists : (q : ℕ) → ¬ (workset_lifetimes.IsLive q empty_heap)
unfolding workset_lifetimes
none_exists q l = omega (arith, l.below)

pub workset_users : UsersKeep worksets workset_lifetimes
workset_users = record {
  sync = λ p w m h. record { onward = λ q l. l; back = λ q l. l };
  enqueue_source = λ p w id mask m h. record { onward = λ q l. l; back = λ q l. l };
  acknowledge = λ p o g f id mask m h. record { onward = λ q l. l; back = λ q l. l };
  clear = λ p o g f m h. record { onward = λ q l. l; back = λ q l. l };
}

abbrev pub owner : RecipientWorkset
owner = record { workset_ = some 0 }

-- The workset of 0 has been moved to 1.
abbrev pub moved : Program Heap
moved = record {
  native = renew 0 empty_heap;
  objects =
      put (put (put (λ x. none) 0 (some owner)) 0 (some (record { workset_ = none }))) 1
        (some owner);
}
