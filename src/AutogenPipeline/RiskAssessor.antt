-- ===== src/AutogenPipeline/RiskAssessor.antt =====
-- backend/src/lumine/autogen_pipeline/risk_assessor.py: what the code makes of a language model's
-- assessment. The policy's table is a dictionary by regime: `none` where an entry is no mapping, and
-- where a multiplier is absent, null or no decimal. The stage that calls the model is not modelled.
pub mod Multipliers
mod Tests
use lumine_hedge_fund.Prelude.{
  Bool, true, false, Option, none, some, List, [], ◌∷◌, String, Dict, lookup,
}
use lumine_hedge_fund.Decimal.{Decimal, of_int, mul}
use lumine_hedge_fund.TradeCore.Sizing.{clamp_volume}

-- The entries that are read of the model's answer.
pub record Assessment : Type 0 where
  pub veto : Option Bool
  pub regime_bucket : Option String
  pub risk_notes : Option String

pub record AssessedSize : Type 0 where
  pub final_volume : Decimal
  pub multiplier : Decimal
  pub regime_bucket : String
  pub veto : Bool
  pub risk_notes : String

abbrev pub Adjustments : Type 0
Adjustments = Dict (Option (Dict (Option Decimal)))

abbrev pub default_multiplier : Decimal
default_multiplier = of_int 1

unfoldable pub in_band : Option (Option Decimal) → Decimal
in_band none = default_multiplier
in_band (some none) = default_multiplier
in_band (some (some multiplier)) = multiplier

unfoldable pub in_bucket : Option (Option (Dict (Option Decimal))) → String → Decimal
unfolding in_band
in_bucket none volatility_band = default_multiplier
in_bucket (some none) volatility_band = default_multiplier
in_bucket (some (some bands)) volatility_band = in_band (lookup volatility_band bands)

unfoldable pub resolve_risk_adjustment : Adjustments → String → String → Decimal
unfolding in_bucket
resolve_risk_adjustment risk_adjustments regime_bucket volatility_band =
    in_bucket (lookup regime_bucket risk_adjustments) volatility_band

-- `assessment.get(key, default)`
unfoldable pub get_or {ℓ} : {A : Type ℓ} → Option A → A → A
get_or none default = default
get_or (some a) default = a

unfoldable pub apply_assessment :
    Assessment → Decimal → Adjustments → String → Decimal → Decimal → AssessedSize
unfolding resolve_risk_adjustment get_or
apply_assessment a base_volume risk_adjustments volatility_band min_volume max_volume =
    let regime_bucket = get_or a.regime_bucket "calm" in
    let multiplier = resolve_risk_adjustment risk_adjustments regime_bucket volatility_band in
    record {
      final_volume = clamp_volume (mul base_volume multiplier) min_volume max_volume;
      multiplier = multiplier;
      regime_bucket = regime_bucket;
      veto = get_or a.veto false;
      risk_notes = get_or a.risk_notes "";
    }
