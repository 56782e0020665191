-- ===== src/Insights/Risks.antt =====
-- The exposure of risks and the signals on them.
use capacityos.Base.{ℕ, ◌≤◌, ◌≡◌, ◌↔◌, true, false, Option, some, arith, min, max, ◌+◌}
use capacityos.Dates.{Date}
use capacityos.Insights.{
  RiskTier, RiskStatus, low, medium, high, is_closed, is_high, is_overdue, calculate_risk_exposure,
  classify_risk_signal, risk_high_exposure, risk_review_overdue,
}

abbrev pub rank : RiskTier → ℕ
rank low = 0
rank medium = 1
rank high = 2

-- The exposure is symmetric in probability and impact, does not fall when the impact rises, and
-- lies between the lower and the higher of the two tiers.
pub calculate_risk_exposure_lem :
    (probability impact impact' : RiskTier)
    → rank impact ≤ rank impact'
    → (calculate_risk_exposure probability impact ≡ calculate_risk_exposure impact probability)
      × (rank (calculate_risk_exposure probability impact)
          ≤ rank (calculate_risk_exposure probability impact'))
      × (min (rank probability) (rank impact) ≤ rank (calculate_risk_exposure probability impact))
      × (rank (calculate_risk_exposure probability impact) ≤ max (rank probability) (rank impact))
unfolding calculate_risk_exposure
calculate_risk_exposure_lem probability impact impact' h = ground arith

-- A risk signals overdue review exactly when it is not closed, its exposure from probability and
-- impact is not high, and its review date is before today; and it signals high exposure exactly when
-- it is not closed and its exposure is high, whatever its review date is.
pub classify_risk_signal_iff :
    (probability impact : RiskTier) (status : RiskStatus) (review_date : Option Date) (today : Date)
    → ((classify_risk_signal (calculate_risk_exposure probability impact) status review_date today
          ≡ some risk_review_overdue)
        ↔ ((is_closed status ≡ false)
            × (is_high (calculate_risk_exposure probability impact) ≡ false)
            × (is_overdue review_date today ≡ true)))
      × ((classify_risk_signal (calculate_risk_exposure probability impact) status review_date today
            ≡ some risk_high_exposure)
          ↔ ((is_closed status ≡ false) × (3 ≤ rank probability + rank impact)))
unfolding classify_risk_signal calculate_risk_exposure
classify_risk_signal_iff probability impact status review_date today = ground arith
