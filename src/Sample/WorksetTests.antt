-- ===== src/Sample/WorksetTests.antt =====
-- The theorems on recipient worksets, applied to worksets that each have one entry.
use libdense.Common.{◌≡◌, refl, some, arith}
use libdense.Cpp.State.{returned}
use libdense.Cpp.Workset.{construct, view}
use libdense.Cpp.Workset.Types.{RecipientWorksetView, default_config}
use libdense.Cpp.Workset.View.{IsCopied, view-IsCopied}
use libdense.Cpp.Workset.Owners.{Reach, start, next, make, move_make, no_worksets}
use libdense.Cpp.Workset.Preserve.{IsOwned}
use libdense.Cpp.Workset.Reachable.{Reach-IsOwned}
use libdense.Sample.{empty_heap, sample, renew}
use libdense.Sample.Worksets.{
  entry, lent, worksets, none_exists, workset_lifetimes, workset_users, owner, moved,
}

moved_reached : Reach sample worksets (no_worksets empty_heap) moved
unfolding construct
moved_reached = next (next start (make 0 default_config refl)) (move_make 1 0 owner refl refl)

Reach-IsOwned_example : IsOwned worksets workset_lifetimes moved.objects moved.native
Reach-IsOwned_example =
    Reach-IsOwned sample worksets workset_lifetimes workset_users none_exists moved_reached

view-IsCopied_example :
    (r : RecipientWorksetView) × (view sample worksets owner 4 (renew 0 empty_heap) ≡ returned r)
    × IsCopied sample worksets (renew 0 empty_heap) (some 0) 1 r.entries
    × (r.tick ≡ 1)
    × (r.observer_id ≡ 4)
    × (r.visible_set_generation ≡ 2)
    × (r.visible_set_fingerprint ≡ 9)
    × (r.dirty_count ≡ 1)
view-IsCopied_example =
    view-IsCopied sample worksets (renew 0 empty_heap) owner 4 (lent (some 0)) refl
      (λ i lt. (entry, ground (arith, lt)))
