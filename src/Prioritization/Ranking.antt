-- ===== src/Prioritization/Ranking.antt =====
-- The ranking of priority results.
use mathlib.Core.List.{Perm}
use capacityos.Base.{
  ℕ, zero, suc, ◌≡◌, refl, sym, ◌∙◌, inl, inr, Bool, true, false, Option, none, some, List, [], ◌∷◌,
  map, arith, if◌then◌else◌, Bool-cases, subst, All, ap, total,
}
use capacityos.Base.Sort.{sorted, IsSorted, sorted-perm, sorted-IsSorted, total-sorted}
use capacityos.Prioritization.{
  Decimals, PriorityScoreResult, sort_key_le, entry_le, with_ranks, rank_priority_results, is_none,
}

-- The ranks from a first one on for a number of scored results, and none for the other ones.
abbrev pub ranks_from : ℕ → ℕ → ℕ → List (Option ℕ)
ranks_from rank (suc scored) unscored = some rank ∷ ranks_from (suc rank) scored unscored
ranks_from rank zero (suc unscored) = none ∷ ranks_from (suc rank) zero unscored
ranks_from rank zero zero = []

module _ (decimals : Decimals) where
  open decimals use {Decimal, zero_decimal, neg, le, le_trans, le_total, le-neg}

  -- A higher score first, and the results without a score last.
  abbrev pub not_behind : Option Decimal → Option Decimal → Bool
  not_behind (some a) (some b) = le b a
  not_behind (some a) none = true
  not_behind none (some b) = false
  not_behind none none = true

  le_self : (a : Decimal) → le a a ≡ true
  le_self a = elim (Bool-cases (le a a)) [ inl e ↦ e | inr e ↦ le_total a a e ]

  key_le-not_behind : (a b : Option Decimal) → sort_key_le decimals a b ≡ not_behind a b
  key_le-not_behind (some a) (some b) = le-neg a b
  key_le-not_behind (some a) none = refl
  key_le-not_behind none (some b) = refl
  key_le-not_behind none none = le_self (neg zero_decimal)

  not_behind_trans :
      (a b c : Option Decimal)
      → not_behind a b ≡ true
      → not_behind b c ≡ true
      → not_behind a c ≡ true
  not_behind_trans (some a) (some b) (some c) h k = le_trans c b a k h
  not_behind_trans (some a) b none h k = refl
  not_behind_trans (some a) none (some c) h k = cc
  not_behind_trans none (some b) c h k = cc
  not_behind_trans none none c h k = k

  not_behind_total : (a b : Option Decimal) → not_behind a b ≡ false → not_behind b a ≡ true
  not_behind_total (some a) (some b) h = le_total b a h
  not_behind_total (some a) none h = cc
  not_behind_total none none h = refl
  not_behind_total none (some b) h = refl

  abbrev pub Entry {ℓ} : Type ℓ → Type ℓ
  Entry K = K × PriorityScoreResult decimals

  module _ {ℓ} {K : Type ℓ} where
    abbrev pub before : Entry K → Entry K → Bool
    before a b = not_behind a.1.score b.1.score

    abbrev pub is_scored : Entry K → ℕ
    is_scored e = if is_none decimals e.1.score then 0 else 1

    abbrev pub is_unscored : Entry K → ℕ
    is_unscored e = if is_none decimals e.1.score then 1 else 0

    abbrev pub unranked : K × PriorityScoreResult decimals × Option ℕ → Entry K
    unranked (k, r, _) = (k, r)

    abbrev pub rank_of : K × PriorityScoreResult decimals × Option ℕ → Option ℕ
    rank_of (_, _, rank) = rank

    unranked-with_ranks :
        (rank : ℕ) (entries : List (Entry K))
        → map unranked (with_ranks decimals rank entries) ≡ entries
    unranked-with_ranks rank [] = refl
    unranked-with_ranks rank ((k, r) ∷ entries) =
        ap (λ es. (k, r) ∷ es) (unranked-with_ranks (suc rank) entries)

    entries_le :
        (e : Entry K) (entries : List (Entry K))
        → All (λ f. entry_le decimals e f ≡ true) entries
        → All (λ f. before e f ≡ true) entries
    entries_le e [] h = tt
    entries_le e (f ∷ entries) h =
        (sym (key_le-not_behind e.1.score f.1.score) ∙ h.0, entries_le e entries h.1)

    IsSorted-before :
        (entries : List (Entry K)) → IsSorted (entry_le decimals) entries → IsSorted before entries
    IsSorted-before [] h = tt
    IsSorted-before (e ∷ entries) h = (entries_le e entries h.0, IsSorted-before entries h.1)

    sorted-before :
        (entries : List (Entry K)) → IsSorted before (sorted (entry_le decimals) entries)
    sorted-before entries = IsSorted-before (sorted (entry_le decimals) entries) (
        sorted-IsSorted (entry_le decimals)
          (λ a b c h k.
            key_le-not_behind a.1.score c.1.score
            ∙ not_behind_trans a.1.score b.1.score c.1.score
                (sym (key_le-not_behind a.1.score b.1.score) ∙ h)
                (sym (key_le-not_behind b.1.score c.1.score) ∙ k))
          (λ a b h.
            key_le-not_behind b.1.score a.1.score
            ∙ not_behind_total a.1.score b.1.score
                (sym (key_le-not_behind a.1.score b.1.score) ∙ h))
          entries)

    none_scored :
        (e : Entry K) (entries : List (Entry K))
        → is_none decimals e.1.score ≡ true
        → All (λ f. before e f ≡ true) entries
        → total is_scored entries ≡ 0
    none_scored e [] h a = refl
    none_scored e (f ∷ entries) h a = elim (Bool-cases (is_none decimals f.1.score)) [
      | inl without ↦ ground (arith, none_scored e entries h a.1)
      | inr with_score ↦ absurd (clash e.1.score f.1.score h with_score a.0)
    ]
      where
        clash :
            (a b : Option Decimal)
            → is_none decimals a ≡ true
            → is_none decimals b ≡ false
            → not_behind a b ≡ true
            → ⊥
        clash none (some b) h k l = cc
        clash (some a) b h k l = cc
        clash none none h k l = cc

    ranks_of_sorted :
        (rank : ℕ) (entries : List (Entry K))
        → IsSorted before entries
        → map rank_of (with_ranks decimals rank entries)
          ≡ ranks_from rank (total is_scored entries) (total is_unscored entries)
    ranks_of_sorted rank [] h = refl
    ranks_of_sorted rank ((k, r) ∷ entries) h = elim (Bool-cases (is_none decimals r.score)) [
      | inr scored ↦
          let counted : total is_scored ((k, r) ∷ entries) ≡ suc (total is_scored entries) =
            ground arith in
          let others : total is_unscored ((k, r) ∷ entries) ≡ total is_unscored entries =
            ground arith in
          rw counted (
            rw others
              (rw scored (ap (λ rs. some rank ∷ rs) (ranks_of_sorted (suc rank) entries h.1))))
      | inl unscored ↦
          let rest = none_scored (k, r) entries unscored h.0 in
          let counted : total is_scored ((k, r) ∷ entries) ≡ 0 = ground arith in
          let others : total is_unscored ((k, r) ∷ entries) ≡ suc (total is_unscored entries) =
            ground arith in
          let tail = ranks_of_sorted (suc rank) entries h.1 in
          let tail' =
            subst
              (λ n.
                map rank_of (with_ranks decimals (suc rank) entries)
                ≡ ranks_from (suc rank) n (total is_unscored entries))
              rest tail in
          rw counted (rw others (rw unscored (ap (λ rs. none ∷ rs) tail')))
    ]

    -- Ranking permutes the entries, puts higher scores first and the entries without a score last,
    -- and numbers the scored ones from 1 on without a gap; the other ones have no rank.
    pub rank_priority_results_lem :
        (entries : List (Entry K))
        → Perm (map unranked (rank_priority_results decimals entries)) entries
          × IsSorted before (map unranked (rank_priority_results decimals entries))
          × (map rank_of (rank_priority_results decimals entries)
              ≡ ranks_from 1 (total is_scored entries) (total is_unscored entries))
    unfolding rank_priority_results
    rank_priority_results_lem entries =
        let order = sorted (entry_le decimals) entries in
        let same = unranked-with_ranks 1 order in
        (
          rw same (sorted-perm (entry_le decimals) entries),
          rw same (sorted-before entries),
          ranks_of_sorted 1 order (sorted-before entries)
              ∙ rw (total-sorted (entry_le decimals) is_scored entries)
                  (rw (total-sorted (entry_le decimals) is_unscored entries) refl),
        )
