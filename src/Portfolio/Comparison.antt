-- ===== src/Portfolio/Comparison.antt =====
-- The items of a comparison: apps/api/app/domain/portfolio_snapshot.py.
use capacityos.Base.{
  ℕ, ◌≡◌, refl, inl, inr, Bool, true, false, ◌||◌, List, [], ◌∷◌, ◌++◌, map, arith, any, total,
  ◌==◌, if◌then◌else◌, Bool-cases, ap, ==_iff, Option, none, some, All, leb, ◌&&◌,
}
use capacityos.Base.Sort.{total-sorted, sorted-IsSorted, sorted-All, IsSorted}
use capacityos.Capacity.{Uuid}
use capacityos.Portfolio.Items.{IsItemOf, items_are}
use capacityos.Portfolio.{
  SnapshotComparisonItem, Entry, from_keys, compare_one, compare_snapshot_entries, by_rank,
}

abbrev occurrences : Uuid → List Uuid → ℕ
occurrences i ids = total (λ j. if j == i then 1 else 0) ids

abbrev is_in : Uuid → List Uuid → Bool
is_in i ids = any (λ j. j == i) ids

occurrences-from_keys :
    (i : Uuid) (seen ids : List Uuid)
    → occurrences i (from_keys seen ids)
      ≡ (if is_in i seen then 0 else if is_in i ids then 1 else 0)
unfolding from_keys
occurrences-from_keys i seen [] = ground arith
occurrences-from_keys i seen (j ∷ ids) =
    let same = λ (e : j ≡ i). ap (λ k. is_in k seen) e in
    elim (Bool-cases (j == i)) [
      | inl here ↦
          let e = same ((==_iff j i).0 here) in
          ground (arith, occurrences-from_keys i seen ids, occurrences-from_keys i (j ∷ seen) ids)
      | inr away ↦
          ground (arith, occurrences-from_keys i seen ids, occurrences-from_keys i (j ∷ seen) ids)
    ]

total-map :
    (f : Uuid → SnapshotComparisonItem) (g : SnapshotComparisonItem → ℕ) (ids : List Uuid)
    → total g (map f ids) ≡ total (λ i. g (f i)) ids
total-map f g [] = refl
total-map f g (i ∷ ids) = ground (arith, total-map f g ids)

is_in-append : (i : Uuid) (xs ys : List Uuid) → is_in i (xs ++ ys) ≡ (is_in i xs || is_in i ys)
is_in-append i [] ys = refl
is_in-append i (x ∷ xs) ys = ground (arith, is_in-append i xs ys)

is_in-ids :
    (i : Uuid) (entries : List Entry)
    → is_in i (map (λ e. e.project_id) entries) ≡ any (λ e. e.project_id == i) entries
is_in-ids i [] = refl
is_in-ids i (e ∷ entries) = ground (arith, is_in-ids i entries)

rank_order_trans :
    (a b c : SnapshotComparisonItem) → by_rank a b ≡ true → by_rank b c ≡ true → by_rank a c ≡ true
rank_order_trans a b c h k = ground arith

rank_order_total : (a b : SnapshotComparisonItem) → by_rank a b ≡ false → by_rank b a ≡ true
rank_order_total a b h = ground arith

-- How many items of a comparison are of a project.
abbrev pub items_of : Uuid → List SnapshotComparisonItem → ℕ
items_of i items = total (λ item. if item.project_id == i then 1 else 0) items

-- A rank comes before a larger one, and none comes last.
abbrev pub rank_le : Option ℕ → Option ℕ → Bool
rank_le a none = true
rank_le none (some b) = false
rank_le (some a) (some b) = leb a b

-- The item of the better rank in the later snapshot, and among equals in the earlier one.
abbrev pub is_before : SnapshotComparisonItem → SnapshotComparisonItem → Bool
is_before p q =
    if rank_le q.rank_to p.rank_to
    then rank_le p.rank_to q.rank_to && rank_le p.rank_from q.rank_from
    else true

is_before-by_rank : (p q : SnapshotComparisonItem) → by_rank p q ≡ true → is_before p q ≡ true
is_before-by_rank p q h = ground arith

All-is_before :
    (p : SnapshotComparisonItem) (items : List SnapshotComparisonItem)
    → All (λ q. by_rank p q ≡ true) items
    → All (λ q. is_before p q ≡ true) items
All-is_before p [] h = tt
All-is_before p (q ∷ items) h = (is_before-by_rank p q h.0, All-is_before p items h.1)

is_before-IsSorted :
    (items : List SnapshotComparisonItem) → IsSorted by_rank items → IsSorted is_before items
is_before-IsSorted [] h = tt
is_before-IsSorted (p ∷ items) h = (All-is_before p items h.0, is_before-IsSorted items h.1)

-- Two snapshots, whatever entries they have, are compared in exactly one item for each project that
-- either of them has an entry of, and in none for another. An item tells whether its project entered,
-- left, changed or is unchanged in rank, score and category, with these of its last entry in each
-- snapshot; and the items are ordered by their rank in the later snapshot and then in the earlier
-- one, those without a rank last.
pub compare_snapshot_entries_lem :
    (from to : List Entry)
    → ((i : Uuid)
        → items_of i (compare_snapshot_entries from to)
          ≡ (if any (λ e. e.project_id == i) from || any (λ e. e.project_id == i) to then 1 else 0))
      × All (IsItemOf from to) (compare_snapshot_entries from to)
      × IsSorted is_before (compare_snapshot_entries from to)
unfolding compare_snapshot_entries
compare_snapshot_entries_lem from to =
    let ids = from_keys [] (map (λ e. e.project_id) from ++ map (λ e. e.project_id) to) in
    (
      λ i. ground (
        arith,
        total-sorted by_rank (λ item. if item.project_id == i then 1 else 0)
            (map (compare_one from to) ids),
        total-map (compare_one from to) (λ item. if item.project_id == i then 1 else 0) ids,
        occurrences-from_keys i [] (map (λ e. e.project_id) from ++ map (λ e. e.project_id) to),
        is_in-append i (map (λ e. e.project_id) from) (map (λ e. e.project_id) to),
        is_in-ids i from,
        is_in-ids i to,
      ),
      sorted-All by_rank (IsItemOf from to) (map (compare_one from to) ids) (items_are from to ids),
      is_before-IsSorted _ (
          sorted-IsSorted by_rank rank_order_trans rank_order_total
            (map (compare_one from to) ids)),
    )
