-- ===== src/Prioritization/Tests.antt =====
-- The theorems on scores, ranks and cycles at concrete values, with the integers as numbers.
use Prim.Native.String.{String}
use mathlib.Core.List.{Perm}
use capacityos.Base.{
  ℕ, ◌+◌, ◌*◌, ◌/◌, ◌≡◌, refl, ◌↔◌, Bool, true, false, Option, none, some, List, [], ◌∷◌, map,
  arith, leb, total,
}
use capacityos.Base.Int.{ℤ, pos, pos_part, neg_part, ◌+ℤ◌, sub_ℕ}
use capacityos.Base.Sort.{sorted, IsSorted}
use capacityos.Base.Errors.{Returns}
use capacityos.Prioritization.{
  Decimals, PriorityScoreResult, rice, calculate_priority_score, rank_priority_results,
  detects_cycle,
}
use capacityos.Prioritization.Scores.{
  IsAccounted, needed_keys, calculate_priority_score-IsAccounted,
}
use capacityos.Prioritization.Ranking.{
  before, unranked, rank_of, ranks_from, is_scored, is_unscored, rank_priority_results_lem,
}
use capacityos.Prioritization.Cycles.{detects_cycle_iff}
use capacityos.Prioritization.Cycles.Walks.{Reaches, IsAcyclic}

abbrev neg_ℤ : ℤ → ℤ
neg_ℤ a = sub_ℕ (neg_part a) (pos_part a)

abbrev le_ℤ : ℤ → ℤ → Bool
le_ℤ a b = leb (pos_part a + neg_part b) (pos_part b + neg_part a)

le_ℤ_trans : (a b c : ℤ) → le_ℤ a b ≡ true → le_ℤ b c ≡ true → le_ℤ a c ≡ true
le_ℤ_trans a b c h k = ground arith

le_ℤ_total : (a b : ℤ) → le_ℤ a b ≡ false → le_ℤ b a ≡ true
le_ℤ_total a b h = ground arith

le_ℤ-neg_ℤ : (a b : ℤ) → le_ℤ (neg_ℤ a) (neg_ℤ b) ≡ le_ℤ b a
le_ℤ-neg_ℤ a b = ground arith

-- Whole numbers; a product or a quotient is taken of the parts that are not negative.
abbrev whole_numbers : Decimals
whole_numbers = record {
  Decimal = ℤ;
  zero_decimal = pos 0;
  three = pos 3;
  add = ◌+ℤ◌;
  mul = λ a b. pos (pos_part a * pos_part b);
  div = λ a b. pos (pos_part a / pos_part b);
  neg = neg_ℤ;
  le = le_ℤ;
  le_trans = le_ℤ_trans;
  le_total = le_ℤ_total;
  le-neg = le_ℤ-neg_ℤ;
}

abbrev values : List (String × ℤ)
values = ("reach", pos 10) ∷ ("impact", pos 2) ∷ ("confidence", pos 3) ∷ ("effort", pos 4) ∷ []

calculate_priority_score-IsAccounted_example :
    Returns
      (IsAccounted whole_numbers (needed_keys whole_numbers rice []) values)
      (calculate_priority_score whole_numbers rice [] values none)
calculate_priority_score-IsAccounted_example =
    calculate_priority_score-IsAccounted whole_numbers rice [] values none (λ e. ground arith)

abbrev result : Option ℤ → PriorityScoreResult whole_numbers
result score = record { score = score; missing_criteria = []; breakdown = []; category = none }

abbrev entries : List (ℕ × PriorityScoreResult whole_numbers)
entries = (1, result none) ∷ (2, result (some (pos 5))) ∷ (3, result (some (pos 8))) ∷ []

rank_run :
    map (rank_of whole_numbers) (rank_priority_results whole_numbers entries)
    ≡ some 1 ∷ some 2 ∷ none ∷ []
unfolding rank_priority_results sorted
rank_run = refl

rank_priority_results_lem_example :
    Perm (map (unranked whole_numbers) (rank_priority_results whole_numbers entries)) entries
    × IsSorted
        (before whole_numbers)
        (map (unranked whole_numbers) (rank_priority_results whole_numbers entries))
    × (map (rank_of whole_numbers) (rank_priority_results whole_numbers entries)
        ≡ ranks_from 1
            (total (is_scored whole_numbers) entries)
            (total (is_unscored whole_numbers) entries))
rank_priority_results_lem_example = rank_priority_results_lem whole_numbers entries

cycle_run : detects_cycle ((1, 2) ∷ (2, 3) ∷ []) (3, 1) ≡ some true
unfolding detects_cycle
cycle_run = refl

detects_cycle_iff_example :
    (b : Bool) × (detects_cycle ((1, 2) ∷ (2, 3) ∷ []) (3, 1) ≡ some b)
    × ((b ≡ true) ↔ Reaches ((1, 2) ∷ (2, 3) ∷ []) 1 3)
detects_cycle_iff_example = detects_cycle_iff ((1, 2) ∷ (2, 3) ∷ []) 3 1

no_edges-IsAcyclic : IsAcyclic []
no_edges-IsAcyclic = λ a b e w. e

no_cycle_run : detects_cycle [] (3, 1) ≡ some false
unfolding detects_cycle
no_cycle_run = refl
