-- ===== src/Cpp/Iteration/Groups.antt =====
-- The range-based `for` statement over the groups of a fanout view.
use libdense.Common.{ℕ, suc, ◌+◌, ◌<◌, ◌^◌, ◌≡◌, not, Option, List, arith, ◌==◌}
use libdense.View.State.{Runtime}
use libdense.Cpp.State.{returned, Reader, ensure_view, ◌>>=◌}
use libdense.Cpp.FanoutView
use libdense.Cpp.ChunkDeltaView.{ChunkDeltaView}
use libdense.Cpp.Iteration.{traverse, traverse-IsTraversed}
use libdense.Cpp.Iteration.Ranges.{IsVisited, traversed-IsVisited, same_pointer_refl}

module _ {Memory : Type 0} where
  unfoldable pub for_groups :
      ℕ → FanoutView.FanoutView → Reader Memory (Option (List ChunkDeltaView))
  for_groups fuel v = do
    it ← FanoutView.begin v
    last ← FanoutView.end v
    traverse FanoutView.not_equal FanoutView.increment FanoutView.dereference fuel it last

module _ {Memory : Type 0} (v : FanoutView.FanoutView) (s : Runtime Memory) (u : Unit {0})
    (valid : ensure_view v.state_ v.generation_ s ≡ returned u) where
  groups-differ :
      (i j : ℕ)
      → FanoutView.not_equal (FanoutView.iterator_at v i) (FanoutView.iterator_at v j)
        ≡ not (i == j)
  unfolding FanoutView.not_equal
  groups-differ i j = ground (arith, same_pointer_refl v.view_.chunks)

  groups-advances :
      v.view_.chunk_count < 2 ^ 64
      → (i : ℕ) → i < v.view_.chunk_count
      → FanoutView.increment (FanoutView.iterator_at v i) s
        ≡ returned (FanoutView.iterator_at v (i + 1))
  unfolding FanoutView.increment
  groups-advances small i lt = ground (arith, valid, small, lt)

  groups-there :
      (i : ℕ)
      → i < v.view_.chunk_count
      → (g : ChunkDeltaView) × (FanoutView.dereference (FanoutView.iterator_at v i) s ≡ returned g)
  unfolding FanoutView.dereference
  groups-there i lt = (
    record {
      state_ = v.state_;
      generation_ = v.generation_;
      group_ = record { base = v.view_.chunks; index = i };
    },
    ground (arith, valid),
  )

  groups-at :
      (i : ℕ)
      → i < v.view_.chunk_count
      → FanoutView.dereference (FanoutView.iterator_at v i) s ≡ FanoutView.at v i s
  unfolding FanoutView.dereference FanoutView.at
  groups-at i lt = ground (arith, valid, lt)

  for_groups_lem :
      for_groups (suc v.view_.chunk_count) v s
      ≡ traverse FanoutView.not_equal FanoutView.increment FanoutView.dereference
          (suc v.view_.chunk_count)
          (FanoutView.iterator_at v 0)
          (FanoutView.iterator_at v v.view_.chunk_count)
          s
  unfolding for_groups FanoutView.begin FanoutView.end
  for_groups_lem = ground (arith, valid)

  -- A range-based `for` statement over a fanout view that is valid and has fewer than 2 ^ 64 groups
  -- ends after as many rounds, and visits in order the groups that `at` gives for the indices from 0 on.
  pub for_groups-IsVisited :
      v.view_.chunk_count < 2 ^ 64
      → IsVisited v.view_.chunk_count (FanoutView.at v) s (for_groups (suc v.view_.chunk_count) v s)
  for_groups-IsVisited small = rw for_groups_lem (
      traversed-IsVisited (FanoutView.at v) groups-at (
        traverse-IsTraversed FanoutView.not_equal FanoutView.increment FanoutView.dereference
          (FanoutView.iterator_at v) v.view_.chunk_count s groups-differ (groups-advances small)
          groups-there v.view_.chunk_count 0 (omega arith)))
