-- ===== src/Portfolio/Tests.antt =====
-- Tests of the comparison of snapshots, and its theorem at concrete snapshots.
use capacityos.Base.{ℕ, ◌≡◌, refl, ◌||◌, none, some, [], ◌∷◌, any, All, ◌==◌, if◌then◌else◌}
use capacityos.Base.Sort.{IsSorted, sorted}
use capacityos.Capacity.{Uuid}
use capacityos.Portfolio.{
  Entry, entered, left, unchanged, SnapshotComparisonItem, compare_snapshot_entries,
}
use capacityos.Portfolio.Items.{IsItemOf}
use capacityos.Portfolio.Comparison.{items_of, is_before, compare_snapshot_entries_lem}

abbrev ranked : Uuid → ℕ → Entry
ranked i rank = record {
  project_id = i;
  project_name = i;
  rank = some rank;
  score = some 100;
  category = none;
}

abbrev item : Uuid → SnapshotComparisonItem
item i = record {
  project_id = i;
  project_name = i;
  status = unchanged;
  rank_from = some i;
  rank_to = some i;
  score_from = some 100;
  score_to = some 100;
  category_from = none;
  category_to = none;
}

-- The first project left the ranking, and the third one entered it.
compare_run :
    compare_snapshot_entries (ranked 1 1 ∷ ranked 2 2 ∷ []) (ranked 2 2 ∷ ranked 3 1 ∷ [])
    ≡ record (item 3) { status = entered; rank_from = none; score_from = none; rank_to = some 1 }
      ∷ item 2
      ∷ record (item 1) { status = left; rank_to = none; score_to = none }
      ∷ []
unfolding compare_snapshot_entries sorted
compare_run = refl

compare_snapshot_entries_lem_example :
    ((i : Uuid)
      → items_of i (compare_snapshot_entries (ranked 1 1 ∷ []) (ranked 2 1 ∷ [])) ≡ (
          if any (λ e. e.project_id == i) (ranked 1 1 ∷ [])
            || any (λ e. e.project_id == i) (ranked 2 1 ∷ [])
          then 1
          else 0))
    × All
        (IsItemOf (ranked 1 1 ∷ []) (ranked 2 1 ∷ []))
        (compare_snapshot_entries (ranked 1 1 ∷ []) (ranked 2 1 ∷ []))
    × IsSorted is_before (compare_snapshot_entries (ranked 1 1 ∷ []) (ranked 2 1 ∷ []))
compare_snapshot_entries_lem_example =
    compare_snapshot_entries_lem (ranked 1 1 ∷ []) (ranked 2 1 ∷ [])
