-- ===== src/Prioritization/Scores.antt =====
-- What a score accounts for.
use Prim.Native.String.{String}
use text.Mathlib.Text.{◌==◌ as str_eq}
use text.Mathlib.TextEquality.{eq_iff}
use capacityos.Base.{
  ◌≡◌, refl, Bool, true, false, not, Option, List, [], ◌∷◌, arith, if◌then◌else◌, Bool-cases,
  Option-cases, All, keep, any, ap, subst, sym, ◌∙◌, ◌&&◌, none, inl, inr, ◌≢◌,
}
use capacityos.Base.Errors.{domain_validation_error, ok, err, Returns}
use capacityos.Prioritization.{
  Decimals, CriterionWeight, PriorityScoreResult, Values, PrioritizationFrameworkType,
  MoscowCategory, rice, ice, wsjf, weighted, moscow, rice_criterion_keys, ice_criterion_keys,
  wsjf_criterion_keys, keys_of, lookup, has_key, missing_keys, breakdown_of, is_empty, is_none,
  incomplete, complete, calculate_rice_score, calculate_ice_score, calculate_wsjf_score,
  calculate_weighted_score, calculate_priority_score,
}

module _ {ℓ} {V : Type ℓ} where
  All-keep_entries {κ} :
      (P : String × V → Type κ) (test : String × V → Bool) (m : List (String × V))
      → All P m
      → All P (keep test m)
  All-keep_entries P test [] h = tt
  All-keep_entries P test (e ∷ m) h = elim (Bool-cases (test e)) [
    | inl kept ↦ rw kept (h.0, All-keep_entries P test m h.1)
    | inr dropped ↦ rw dropped (All-keep_entries P test m h.1)
  ]

  -- Dropping one key leaves the values of the others.
  lookup-keep :
      (j k : String) (m : List (String × V))
      → str_eq j k ≡ false
      → lookup k (keep (λ e. not (str_eq e.0 j)) m) ≡ lookup k m
  lookup-keep j k [] h = refl
  lookup-keep j k ((i, v) ∷ m) h = elim (Bool-cases (str_eq i j)) [
    | inl here ↦
        let same = (eq_iff i j).0 here in
        let apart : str_eq i k ≡ false = subst (λ t. str_eq t k ≡ false) (sym same) h in
        ground (arith, lookup-keep j k m h, here, apart)
    | inr there ↦ ground (arith, lookup-keep j k m h, there)
  ]

  lookup-breakdown :
      (k : String) (keys : List String) (values : List (String × V))
      → lookup k (breakdown_of keys values)
        ≡ (if any (λ j. str_eq j k) keys then lookup k values else none)
  lookup-breakdown k [] values = refl
  lookup-breakdown k (j ∷ keys) values = elim (Bool-cases (str_eq j k)) [
    | inl here ↦
        let same = (eq_iff j k).0 here in
        let value = ap (λ t. lookup t values) same in
        ground (arith, lookup-breakdown k keys values, here, value)
    | inr there ↦
        ground
          (arith, lookup-breakdown k keys values, lookup-keep j k (breakdown_of keys values), there)
  ]

  is_missing :
      (k : String) (keys : List String) (values : List (String × V))
      → any (λ j. str_eq j k) (missing_keys keys values)
        ≡ (any (λ j. str_eq j k) keys && not (has_key values k))
  is_missing k [] values = refl
  is_missing k (j ∷ keys) values = elim (Bool-cases (str_eq j k)) [
    | inl here ↦
        let same = (eq_iff j k).0 here in
        let value = ap (λ t. has_key values t) same in
        ground (arith, is_missing k keys values, here, value)
    | inr there ↦ ground (arith, is_missing k keys values, there)
  ]

  -- No key stands twice.
  abbrev pub HasDistinctKeys : List (String × V) → Type 0
  HasDistinctKeys [] = Unit
  HasDistinctKeys (e ∷ m) = All (λ (f : String × V). str_eq f.0 e.0 ≡ false) m × HasDistinctKeys m

  keep-HasDistinctKeys :
      (test : String × V → Bool) (m : List (String × V))
      → HasDistinctKeys m
      → HasDistinctKeys (keep test m)
  keep-HasDistinctKeys test [] h = tt
  keep-HasDistinctKeys test (e ∷ m) h = elim (Bool-cases (test e)) [
    | inl kept ↦
        rw kept (
          All-keep_entries (λ f. str_eq f.0 e.0 ≡ false) test m h.0,
          keep-HasDistinctKeys test m h.1,
        )
    | inr dropped ↦ rw dropped (keep-HasDistinctKeys test m h.1)
  ]

  dropped-apart :
      (k : String) (m : List (String × V))
      → All (λ (f : String × V). str_eq f.0 k ≡ false) (keep (λ f. not (str_eq f.0 k)) m)
  dropped-apart k [] = tt
  dropped-apart k ((i, v) ∷ m) = elim (Bool-cases (str_eq i k)) [
    | inl here ↦ rw here (dropped-apart k m)
    | inr there ↦ rw there (there, dropped-apart k m)
  ]

  breakdown-HasDistinctKeys :
      (keys : List String) (values : List (String × V)) → HasDistinctKeys (breakdown_of keys values)
  breakdown-HasDistinctKeys [] values = tt
  breakdown-HasDistinctKeys (k ∷ keys) values = elim (Option-cases (lookup k values)) [
    | inl e ↦ rw (e, HasDistinctKeys, breakdown_of) (breakdown-HasDistinctKeys keys values)
    | inr (v, e) ↦
        rw (e, HasDistinctKeys, breakdown_of)
          (
            dropped-apart k (breakdown_of keys values),
            keep-HasDistinctKeys _ (breakdown_of keys values)
                (breakdown-HasDistinctKeys keys values),
          )
  ]

any-is_empty :
    (test : String → Bool) (keys : List String) → is_empty keys ≡ true → false ≡ any test keys
any-is_empty test [] h = refl
any-is_empty test (k ∷ keys) h = cc

module _ (decimals : Decimals) where
  open decimals use {Decimal}

  -- The criteria that a method needs.
  abbrev pub needed_keys :
      PrioritizationFrameworkType → List (CriterionWeight decimals) → List String
  needed_keys rice criteria = rice_criterion_keys
  needed_keys ice criteria = ice_criterion_keys
  needed_keys wsjf criteria = wsjf_criterion_keys
  needed_keys weighted criteria = keys_of decimals criteria
  needed_keys moscow criteria = []

  -- The missing criteria are the needed ones without a value; the breakdown is a dict of the needed
  -- ones that have a value, each with its own; and there is a score exactly when none is missing.
  pub record IsAccounted (keys : List String) (values : Values decimals)
      (r : PriorityScoreResult decimals) : Type 0 where
    pub scored : is_none decimals r.score ≡ not (is_empty r.missing_criteria)
    pub missing :
        (k : String)
        → any (λ j. str_eq j k) r.missing_criteria
          ≡ (any (λ j. str_eq j k) keys && not (has_key values k))
    pub found :
        (k : String)
        → lookup k r.breakdown ≡ (if any (λ j. str_eq j k) keys then lookup k values else none)
    pub distinct : HasDistinctKeys r.breakdown

  incomplete-IsAccounted :
      (keys : List String) (values : Values decimals)
      → is_empty (missing_keys keys values) ≡ false
      → IsAccounted keys values (incomplete decimals keys values)
  incomplete-IsAccounted keys values h = record {
    scored = rw h refl;
    missing = λ k. is_missing k keys values;
    found = λ k. lookup-breakdown k keys values;
    distinct = breakdown-HasDistinctKeys keys values;
  }

  complete-IsAccounted :
      (score : Decimal) (keys : List String) (values : Values decimals)
      → is_empty (missing_keys keys values) ≡ true
      → IsAccounted keys values (complete decimals score keys values)
  complete-IsAccounted score keys values h = record {
    scored = refl;
    missing = λ k. any-is_empty (λ j. str_eq j k) _ h ∙ is_missing k keys values;
    found = λ k. lookup-breakdown k keys values;
    distinct = breakdown-HasDistinctKeys keys values;
  }

  -- The shape of the methods: nothing missing, then a guard, then a score.
  guarded-IsAccounted :
      (guard : Bool) (score : Decimal) (keys : List String) (values : Values decimals)
      → Returns (IsAccounted keys values) (
          if not (is_empty (missing_keys keys values))
          then ok (incomplete decimals keys values)
          else if guard
          then err domain_validation_error
          else ok (complete decimals score keys values))
  guarded-IsAccounted guard score keys values =
      elim (Bool-cases (is_empty (missing_keys keys values))) [
        | inr some_missing ↦ rw some_missing (incomplete-IsAccounted keys values some_missing)
        | inl all_there ↦ elim (Bool-cases guard) [
          | inl e ↦ rw all_there (rw e tt)
          | inr e ↦ rw all_there (rw e (complete-IsAccounted score keys values all_there))
        ]
      ]

  -- Every score that a method other than MoSCoW returns accounts for the criteria: the missing ones
  -- are exactly those that the method needs and that have no value; the breakdown has exactly those
  -- that it needs and that have one, each once and with the value that was given; and there is a
  -- score exactly when nothing is missing.
  pub calculate_priority_score-IsAccounted :
      (type : PrioritizationFrameworkType) (criteria : List (CriterionWeight decimals))
      (values : Values decimals) (category : Option MoscowCategory)
      → type ≢ moscow
      → Returns
          (IsAccounted (needed_keys type criteria) values)
          (calculate_priority_score decimals type criteria values category)
  unfolding calculate_priority_score calculate_rice_score calculate_ice_score calculate_wsjf_score
      calculate_weighted_score
  calculate_priority_score-IsAccounted rice criteria values category h =
      guarded-IsAccounted _ _ rice_criterion_keys values
  calculate_priority_score-IsAccounted ice criteria values category h =
      guarded-IsAccounted false _ ice_criterion_keys values
  calculate_priority_score-IsAccounted wsjf criteria values category h =
      guarded-IsAccounted _ _ wsjf_criterion_keys values
  calculate_priority_score-IsAccounted weighted criteria values category h =
      guarded-IsAccounted false _ (keys_of decimals criteria) values
  calculate_priority_score-IsAccounted moscow criteria values category h = absurd (h refl)
