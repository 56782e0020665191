-- ===== src/Prioritization.antt =====
-- apps/api/app/domain/prioritization.py: scores, ranks and the cycle check.
-- `Decimal` is Python's: what the code uses of it is the interface below. A dict of values is an
-- association list with distinct keys.
pub mod Scores
pub mod Ranking
pub mod Cycles
mod Tests
use Prim.Native.String.{String}
use text.Mathlib.Text.{◌==◌ as str_eq}
use capacityos.Base.{
  ℕ, suc, ◌+◌, ◌≡◌, Bool, true, false, ◌&&◌, ◌||◌, not, Option, none, some, List, [], ◌∷◌, ◌++◌,
  map, if◌then◌else◌, keep, ltb, leb, ◌==◌,
}
use capacityos.Base.Errors.{domain_validation_error, Result, ok, err, ◌>>=◌, ◌>>◌, raise_if}
use capacityos.Base.Sort.{sorted}

-- `decimal.Decimal`: its operations, and that `<=` is a total order which negation turns round.
pub record Decimals : Type 1 where
  pub Decimal : Type 0
  pub zero_decimal : Decimal
  pub three : Decimal
  pub add : Decimal → Decimal → Decimal
  pub mul : Decimal → Decimal → Decimal
  pub div : Decimal → Decimal → Decimal
  pub neg : Decimal → Decimal
  pub le : Decimal → Decimal → Bool
  pub le_trans : (a b c : Decimal) → le a b ≡ true → le b c ≡ true → le a c ≡ true
  pub le_total : (a b : Decimal) → le a b ≡ false → le b a ≡ true
  pub le-neg : (a b : Decimal) → le (neg a) (neg b) ≡ le b a

pub data MoscowCategory : Type 0 where
  must should could wont : MoscowCategory

pub data PrioritizationFrameworkType : Type 0 where
  rice ice wsjf moscow weighted : PrioritizationFrameworkType

abbrev pub rice_criterion_keys : List String
rice_criterion_keys = "reach" ∷ "impact" ∷ "confidence" ∷ "effort" ∷ []

abbrev pub ice_criterion_keys : List String
ice_criterion_keys = "impact" ∷ "confidence" ∷ "ease" ∷ []

abbrev pub wsjf_criterion_keys : List String
wsjf_criterion_keys =
    "business_value" ∷ "time_criticality" ∷ "risk_reduction_opportunity_enablement" ∷ "job_size"
    ∷ []

-- `values.get(key)`
abbrev pub lookup {ℓ} : {V : Type ℓ} → String → List (String × V) → Option V
lookup k [] = none
lookup k ((j, v) ∷ m) = if str_eq j k then some v else lookup k m

-- `key in values`
abbrev pub has_key {ℓ} : {V : Type ℓ} → List (String × V) → String → Bool
has_key m k = elim (lookup k m) [ none ↦ false | some _ ↦ true ]

-- The keys that have no value, and the dict of the keys that have one with their values, both in
-- order: in a dict a key that comes again keeps its first place.
abbrev pub missing_keys {ℓ} : {V : Type ℓ} → List String → List (String × V) → List String
missing_keys keys values = keep (λ k. not (has_key values k)) keys

abbrev pub breakdown_of {ℓ} : {V : Type ℓ} → List String → List (String × V) → List (String × V)
breakdown_of [] values = []
breakdown_of (k ∷ keys) values = elim (lookup k values) [
  | none ↦ breakdown_of keys values
  | some v ↦ (k, v) ∷ keep (λ e. not (str_eq e.0 k)) (breakdown_of keys values)
]

abbrev pub is_empty : List String → Bool
is_empty [] = true
is_empty (k ∷ ks) = false

module _ (decimals : Decimals) where
  open decimals use {Decimal, zero_decimal, three, add, mul, div, neg, le}

  pub record CriterionWeight : Type 0 where
    pub key : String
    pub weight : Decimal

  pub record PriorityScoreResult : Type 0 where
    pub score : Option Decimal
    pub missing_criteria : List String
    pub breakdown : List (String × Decimal)
    pub category : Option MoscowCategory

  abbrev pub Values : Type 0
  Values = List (String × Decimal)

  -- `values[key]`, which is only read once no key is missing.
  abbrev pub value_of : String → Values → Decimal
  value_of k values = elim (lookup k values) [ none ↦ zero_decimal | some v ↦ v ]

  abbrev pub incomplete : List String → Values → PriorityScoreResult
  incomplete keys values = record {
    score = none;
    missing_criteria = missing_keys keys values;
    breakdown = breakdown_of keys values;
    category = none;
  }

  abbrev pub complete : Decimal → List String → Values → PriorityScoreResult
  complete score keys values = record {
    score = some score;
    missing_criteria = [];
    breakdown = breakdown_of keys values;
    category = none;
  }

  unfoldable pub calculate_rice_score : Values → Result PriorityScoreResult
  calculate_rice_score values =
      if not (is_empty (missing_keys rice_criterion_keys values))
      then ok (incomplete rice_criterion_keys values)
      else let effort = value_of "effort" values in
        if le effort zero_decimal
        then err domain_validation_error
        else ok (
            complete
              (div
                (mul (mul (value_of "reach" values) (value_of "impact" values))
                  (value_of "confidence" values))
                effort)
              rice_criterion_keys values)

  unfoldable pub calculate_ice_score : Values → Result PriorityScoreResult
  calculate_ice_score values =
      if not (is_empty (missing_keys ice_criterion_keys values))
      then ok (incomplete ice_criterion_keys values)
      else ok (
          complete
            (div
              (add (add (value_of "impact" values) (value_of "confidence" values))
                (value_of "ease" values))
              three)
            ice_criterion_keys values)

  unfoldable pub calculate_wsjf_score : Values → Result PriorityScoreResult
  calculate_wsjf_score values =
      if not (is_empty (missing_keys wsjf_criterion_keys values))
      then ok (incomplete wsjf_criterion_keys values)
      else let job_size = value_of "job_size" values in
        if le job_size zero_decimal
        then err domain_validation_error
        else ok (
            complete
              (div
                (add (add (value_of "business_value" values) (value_of "time_criticality" values))
                  (value_of "risk_reduction_opportunity_enablement" values))
                job_size)
              wsjf_criterion_keys values)

  -- `sum(values[c.key] * c.weight)`, added from the left.
  abbrev pub weighted_sum : Decimal → List CriterionWeight → Values → Decimal
  weighted_sum acc [] values = acc
  weighted_sum acc (c ∷ cs) values =
      weighted_sum (add acc (mul (value_of c.key values) c.weight)) cs values

  abbrev pub keys_of : List CriterionWeight → List String
  keys_of criteria = map (λ c. c.key) criteria

  unfoldable pub calculate_weighted_score :
      List CriterionWeight → Values → Result PriorityScoreResult
  calculate_weighted_score criteria values =
      if not (is_empty (missing_keys (keys_of criteria) values))
      then ok (incomplete (keys_of criteria) values)
      else ok (complete (weighted_sum zero_decimal criteria values) (keys_of criteria) values)

  unfoldable pub calculate_moscow_result : Option MoscowCategory → PriorityScoreResult
  calculate_moscow_result category = record {
    score = none;
    missing_criteria = [];
    breakdown = [];
    category = category;
  }

  unfoldable pub calculate_priority_score :
      PrioritizationFrameworkType
      → List CriterionWeight
      → Values
      → Option MoscowCategory
      → Result PriorityScoreResult
  calculate_priority_score rice criteria values category = calculate_rice_score values
  calculate_priority_score ice criteria values category = calculate_ice_score values
  calculate_priority_score wsjf criteria values category = calculate_wsjf_score values
  calculate_priority_score weighted criteria values category =
      calculate_weighted_score criteria values
  calculate_priority_score moscow criteria values category = ok (calculate_moscow_result category)

  abbrev pub is_none : Option Decimal → Bool
  is_none none = true
  is_none (some d) = false

  -- The order of the sort keys `(score is None, -(score or Decimal(0)))`.
  abbrev pub sort_key_le : Option Decimal → Option Decimal → Bool
  sort_key_le (some a) (some b) = le (neg a) (neg b)
  sort_key_le (some a) none = true
  sort_key_le none (some b) = false
  sort_key_le none none = le (neg zero_decimal) (neg zero_decimal)

  module _ {ℓ} {K : Type ℓ} where
    abbrev pub entry_le : K × PriorityScoreResult → K × PriorityScoreResult → Bool
    entry_le a b = sort_key_le a.1.score b.1.score

    -- `enumerate(ordered, start=1)`, from `rank` on.
    abbrev pub with_ranks :
        ℕ → List (K × PriorityScoreResult) → List (K × PriorityScoreResult × Option ℕ)
    with_ranks rank [] = []
    with_ranks rank ((key, result) ∷ rest) =
        (key, result, if is_none result.score then none else some rank) ∷ with_ranks (suc rank) rest

    unfoldable pub rank_priority_results :
        List (K × PriorityScoreResult) → List (K × PriorityScoreResult × Option ℕ)
    rank_priority_results entries = with_ranks 1 (sorted entry_le entries)

unfoldable pub validate_category_for_framework_type :
    PrioritizationFrameworkType → Option MoscowCategory → Result (Unit {0})
validate_category_for_framework_type type none = ok tt
validate_category_for_framework_type moscow (some category) = ok tt
validate_category_for_framework_type _ (some category) = err domain_validation_error

-- Ids of projects; an edge goes from the first to the second.
abbrev pub Edge : Type 0
Edge = ℕ × ℕ

-- `adjacency.get(node, [])`: the targets of the node's edges, in the order of the edges.
abbrev pub targets : ℕ → List Edge → List ℕ
targets node [] = []
targets node ((from, to) ∷ rest) =
    if from == node then to ∷ targets node rest else targets node rest

abbrev pub contains : ℕ → List ℕ → Bool
contains n [] = false
contains n (m ∷ ms) = if n == m then true else contains n ms

-- `stack.extend(targets)`, where `pop` takes the last: the head of our stack is the top.
abbrev pub push_all : List ℕ → List ℕ → List ℕ
push_all [] stack = stack
push_all (n ∷ ns) stack = push_all ns (n ∷ stack)

-- The `while stack` loop, on fuel; `none` means that the fuel ran out.
unfoldable pub search_from : ℕ → List Edge → ℕ → List ℕ → List ℕ → Option Bool
search_from fuel edges goal visited [] = some false
search_from ℕ.zero edges goal visited (node ∷ stack) = none
search_from (suc fuel) edges goal visited (node ∷ stack) =
    let revisit = search_from fuel edges goal visited stack in
    let visit =
      search_from fuel edges goal (node ∷ visited) (push_all (targets node edges) stack) in
    if node == goal then some true else if contains node visited then revisit else visit

-- Each edge is pushed once at most, and the start once.
abbrev pub enough_fuel : List Edge → ℕ
enough_fuel [] = 1
enough_fuel (e ∷ es) = suc (enough_fuel es)

unfoldable pub detects_cycle : List Edge → Edge → Option Bool
unfolding search_from
detects_cycle edges (from, to) =
    if from == to then some true else search_from (enough_fuel edges) edges from [] (to ∷ [])
