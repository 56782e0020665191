-- ===== src/Portfolio.antt =====
-- apps/api/app/domain/portfolio_snapshot.py: the comparison of two frozen rankings. Ids are numbers,
-- a name is only passed on, and a score is compared by its value: it is its numerator over the
-- power of ten that the column's scale fixes.
pub mod Comparison
pub mod Items
mod Tests
use capacityos.Base.{
  ℕ, Bool, true, false, ◌&&◌, ◌||◌, not, Option, none, some, List, [], ◌∷◌, ◌++◌, map, ltb, leb,
  ◌==◌, if◌then◌else◌, any, find,
}
use capacityos.Base.Sort.{sorted}
use capacityos.Capacity.{Uuid}
use capacityos.Prioritization.{MoscowCategory, must, should, could, wont}

pub data SnapshotComparisonStatus : Type 0 where
  entered left changed unchanged : SnapshotComparisonStatus

-- The keys of a frozen entry that are read.
pub record Entry : Type 0 where
  pub project_id : Uuid
  pub project_name : ℕ
  pub rank : Option ℕ
  pub score : Option ℕ
  pub category : Option MoscowCategory

pub record SnapshotComparisonItem : Type 0 where
  pub project_id : Uuid
  pub project_name : ℕ
  pub status : SnapshotComparisonStatus
  pub rank_from : Option ℕ
  pub rank_to : Option ℕ
  pub score_from : Option ℕ
  pub score_to : Option ℕ
  pub category_from : Option MoscowCategory
  pub category_to : Option MoscowCategory

abbrev pub same_number : Option ℕ → Option ℕ → Bool
same_number none none = true
same_number (some a) (some b) = a == b
same_number _ _ = false

abbrev pub category_number : Option MoscowCategory → Option ℕ
category_number none = none
category_number (some must) = some 0
category_number (some should) = some 1
category_number (some could) = some 2
category_number (some wont) = some 3

-- `{entry["project_id"]: entry for entry in entries}.get(id)`: the last entry of that id.
abbrev pub get_by_id : Uuid → List Entry → Option Entry
get_by_id i [] = none
get_by_id i (e ∷ entries) = elim (get_by_id i entries) [
  | some later ↦ some later
  | none ↦ if e.project_id == i then some e else none
]

-- `list(dict.fromkeys(ids))`: each id at its first place, apart from those that are seen.
unfoldable pub from_keys : List Uuid → List Uuid → List Uuid
from_keys seen [] = []
from_keys seen (i ∷ ids) = elim (any (λ j. j == i) seen) [
  | true ↦ from_keys seen ids
  | false ↦ i ∷ from_keys (i ∷ seen) ids
]

abbrev pub rank_of : Option Entry → Option ℕ
rank_of none = none
rank_of (some e) = e.rank

abbrev pub score_of : Option Entry → Option ℕ
score_of none = none
score_of (some e) = e.score

abbrev pub category_of : Option Entry → Option MoscowCategory
category_of none = none
category_of (some e) = e.category

abbrev pub same_facts : Entry → Entry → Bool
same_facts a b =
    same_number a.rank b.rank
    && same_number a.score b.score
    && same_number (category_number a.category) (category_number b.category)

-- The status and the name, from the two entries.
abbrev pub status_of : Option Entry → Option Entry → SnapshotComparisonStatus × ℕ
status_of none none = (entered, 0)
status_of none (some to) = (entered, to.project_name)
status_of (some from) none = (left, from.project_name)
status_of (some from) (some to) =
    if same_facts from to then (unchanged, to.project_name) else (changed, to.project_name)

-- The body of the loop.
abbrev pub compare_one : List Entry → List Entry → Uuid → SnapshotComparisonItem
compare_one from to i =
    let a = get_by_id i from in
    let b = get_by_id i to in
    record {
      project_id = i;
      project_name = (status_of a b).1;
      status = (status_of a b).0;
      rank_from = rank_of a;
      rank_to = rank_of b;
      score_from = score_of a;
      score_to = score_of b;
      category_from = category_of a;
      category_to = category_of b;
    }

-- `(rank is None, rank or 0)` of the one is at most that of the other.
abbrev pub rank_lt : Option ℕ → Option ℕ → Bool
rank_lt none b = false
rank_lt (some a) none = true
rank_lt (some a) (some b) = ltb a b

-- The order of the sort keys.
abbrev pub by_rank : SnapshotComparisonItem → SnapshotComparisonItem → Bool
by_rank p q =
    rank_lt p.rank_to q.rank_to
    || (not (rank_lt q.rank_to p.rank_to) && not (rank_lt q.rank_from p.rank_from))

unfoldable pub compare_snapshot_entries : List Entry → List Entry → List SnapshotComparisonItem
unfolding from_keys
compare_snapshot_entries from to =
    let ids = from_keys [] (map (λ e. e.project_id) from ++ map (λ e. e.project_id) to) in
    sorted by_rank (map (compare_one from to) ids)
