-- ===== src/Portfolio/Items.antt =====
-- What an item of a comparison says: apps/api/app/domain/portfolio_snapshot.py.
use capacityos.Base.{
  ℕ, ◌≡◌, refl, inl, inr, true, false, List, [], ◌∷◌, ◌++◌, map, arith, ◌==◌, Bool-cases, ap,
  ==_iff, Option, none, some, find, All, ◌⊎◌, subst,
}
use capacityos.Capacity.{Uuid}
use capacityos.Prioritization.{MoscowCategory}
use capacityos.Portfolio.{
  SnapshotComparisonItem, Entry, compare_one, get_by_id, entered, left, changed, unchanged,
  same_number, category_number, same_facts,
}

abbrev backwards : List Entry → List Entry
backwards [] = []
backwards (e ∷ entries) = backwards entries ++ e ∷ []

-- The last entry that a snapshot has of a project.
abbrev pub last_entry : Uuid → List Entry → Option Entry
last_entry i entries = find (λ e. e.project_id == i) (backwards entries)

find-append :
    (i : Uuid) (xs ys : List Entry)
    → find (λ e. e.project_id == i) (xs ++ ys) ≡ elim (find (λ e. e.project_id == i) xs) [
      | none ↦ find (λ e. e.project_id == i) ys
      | some e ↦ some e
    ]
find-append i [] ys = refl
find-append i (x ∷ xs) ys = ground (arith, find-append i xs ys)

get-last : (i : Uuid) (entries : List Entry) → get_by_id i entries ≡ last_entry i entries
get-last i [] = refl
get-last i (e ∷ entries) =
    ground (arith, get-last i entries, find-append i (backwards entries) (e ∷ []))

same_number-eq : (a b : Option ℕ) → same_number a b ≡ true → a ≡ b
same_number-eq none none h = refl
same_number-eq (some a) (some b) h = ap some ((==_iff a b).0 h)
same_number-eq none (some b) h = cc
same_number-eq (some a) none h = cc

category-eq :
    (a b : Option MoscowCategory)
    → same_number (category_number a) (category_number b) ≡ true
    → a ≡ b
category-eq a b h = ground arith

same_number_refl : (a : Option ℕ) → same_number a a ≡ true
same_number_refl none = refl
same_number_refl (some a) = ground arith

abbrev pub AreEqual : Entry → Entry → Type 0
AreEqual a b = (a.rank ≡ b.rank) × (a.score ≡ b.score) × (a.category ≡ b.category)

-- What an item says of the entries of its project in the earlier and in the later snapshot. An item
-- of a project that has none does not occur.
abbrev pub Describes : Option Entry → Option Entry → SnapshotComparisonItem → Type 0
Describes none none item = Unit
Describes none (some b) item =
    (item.status ≡ entered)
    × (item.project_name ≡ b.project_name)
    × ((item.rank_from ≡ none) × (item.rank_to ≡ b.rank))
    × ((item.score_from ≡ none) × (item.score_to ≡ b.score))
    × ((item.category_from ≡ none) × (item.category_to ≡ b.category))
Describes (some a) none item =
    (item.status ≡ left)
    × (item.project_name ≡ a.project_name)
    × ((item.rank_from ≡ a.rank) × (item.rank_to ≡ none))
    × ((item.score_from ≡ a.score) × (item.score_to ≡ none))
    × ((item.category_from ≡ a.category) × (item.category_to ≡ none))
Describes (some a) (some b) item =
    (((item.status ≡ unchanged) × AreEqual a b) ⊎ ((item.status ≡ changed) × (¬ AreEqual a b)))
    × (item.project_name ≡ b.project_name)
    × ((item.rank_from ≡ a.rank) × (item.rank_to ≡ b.rank))
    × ((item.score_from ≡ a.score) × (item.score_to ≡ b.score))
    × ((item.category_from ≡ a.category) × (item.category_to ≡ b.category))

abbrev pub IsItemOf : List Entry → List Entry → SnapshotComparisonItem → Type 0
IsItemOf from to item =
    Describes (last_entry item.project_id from) (last_entry item.project_id to) item

same_facts-cases :
    (a b : Entry)
    → ((same_facts a b ≡ true) × AreEqual a b) ⊎ ((same_facts a b ≡ false) × (¬ AreEqual a b))
same_facts-cases a b = elim (Bool-cases (same_facts a b)) [
  | inl e ↦ inl (
    e,
    (
      same_number-eq a.rank b.rank (ground arith),
      same_number-eq a.score b.score (ground arith),
      category-eq a.category b.category (ground arith),
    ),
  )
  | inr e ↦ inr (
    e,
    λ h.
        let ranks = subst (λ r. same_number a.rank r ≡ true) h.0 (same_number_refl a.rank) in
        let scores = subst (λ r. same_number a.score r ≡ true) h.1 (same_number_refl a.score) in
        let categories =
          subst (λ c. same_number (category_number a.category) (category_number c) ≡ true) h.2
            (same_number_refl (category_number a.category)) in
        ground (arith, e, ranks, scores, categories),
  )
]

module _ (from to : List Entry) (i : Uuid) where
  compare_with :
      (a b : Option Entry)
      → get_by_id i from ≡ a
      → get_by_id i to ≡ b
      → Describes a b (compare_one from to i)
  compare_with none none e f = tt
  compare_with none (some b) e f =
      rw (e, compare_one)
        (rw (f, compare_one) (refl, refl, (refl, refl), (refl, refl), (refl, refl)))
  compare_with (some a) none e f =
      rw (e, compare_one)
        (rw (f, compare_one) (refl, refl, (refl, refl), (refl, refl), (refl, refl)))
  compare_with (some a) (some b) e f = elim (same_facts-cases a b) [
    | inl (same, equal) ↦
        rw (e, compare_one)
          (rw (f, compare_one)
            (rw same (inl (refl, equal), refl, (refl, refl), (refl, refl), (refl, refl))))
    | inr (apart, different) ↦
        rw (e, compare_one)
          (rw (f, compare_one)
            (rw apart (inr (refl, different), refl, (refl, refl), (refl, refl), (refl, refl))))
  ]

  compare_one-IsItemOf : IsItemOf from to (compare_one from to i)
  compare_one-IsItemOf =
      compare_with (last_entry i from) (last_entry i to) (get-last i from) (get-last i to)

pub items_are :
    (from to : List Entry) (ids : List Uuid)
    → All (IsItemOf from to) (map (compare_one from to) ids)
items_are from to [] = tt
items_are from to (i ∷ ids) = (compare_one-IsItemOf from to i, items_are from to ids)
