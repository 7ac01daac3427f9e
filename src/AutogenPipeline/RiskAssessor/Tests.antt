-- ===== src/AutogenPipeline/RiskAssessor/Tests.antt =====
-- An assessment of risk_assessor.py under a table of one regime.
use lumine_hedge_fund.Prelude.{◌≡◌, refl, true, none, some, [], ◌∷◌, lookup, ◌*ℤ◌}
use lumine_hedge_fund.Decimal.{of_int, of_digits, le}
use lumine_hedge_fund.AutogenPipeline.RiskAssessor.{
  Assessment, AssessedSize, Adjustments, apply_assessment,
}

abbrev assessment : Assessment
assessment = record { veto = none; regime_bucket = some "stressed"; risk_notes = none }

abbrev table : Adjustments
table = ("stressed", some (("high", some (of_digits 5 1)) ∷ [])) ∷ []

abbrev size : AssessedSize
size = apply_assessment assessment (of_int 2) table "high" (of_digits 1 2) (of_int 100)

halved : size.multiplier ≡ of_digits 5 1
unfolding apply_assessment lookup
halved = refl

range : le (of_digits 1 2) (of_int 100) ≡ true
unfolding le ◌*ℤ◌
range = refl
