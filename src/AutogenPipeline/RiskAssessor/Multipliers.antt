-- ===== src/AutogenPipeline/RiskAssessor/Multipliers.antt =====
-- The multipliers of assessed sizes: risk_assessor.py, `apply_assessment`.
use lumine_hedge_fund.Prelude.{
  ◌≡◌, refl, ◌⊎◌, inl, inr, true, Option, none, some, String, Dict, lookup,
}
use lumine_hedge_fund.Decimal.{Decimal, le, mul}
use lumine_hedge_fund.TradeCore.Sizing.{clamp_volume}
use lumine_hedge_fund.TradeCore.Sizing.Bounds.{clamp_volume_bounds}
use lumine_hedge_fund.AutogenPipeline.RiskAssessor.{
  Assessment, Adjustments, default_multiplier, in_band, in_bucket, resolve_risk_adjustment,
  apply_assessment,
}

-- The multiplier stands in the policy's table under the bucket and the band.
abbrev pub IsListed : Adjustments → String → String → Decimal → Type 0
IsListed risk_adjustments bucket band m =
    (bands : Dict (Option Decimal)) × (lookup bucket risk_adjustments ≡ some (some bands))
    × (lookup band bands ≡ some (some m))

in_band-listed :
    (o : Option (Option Decimal)) → (in_band o ≡ default_multiplier) ⊎ (o ≡ some (some (in_band o)))
unfolding in_band
in_band-listed none = inl refl
in_band-listed (some none) = inl refl
in_band-listed (some (some m)) = inr refl

in_bucket-listed :
    (o : Option (Option (Dict (Option Decimal)))) (band : String)
    → (in_bucket o band ≡ default_multiplier)
      ⊎ ((bands : Dict (Option Decimal)) × (o ≡ some (some bands))
          × (lookup band bands ≡ some (some (in_bucket o band))))
unfolding in_bucket
in_bucket-listed none band = inl refl
in_bucket-listed (some none) band = inl refl
in_bucket-listed (some (some bands)) band = elim (in_band-listed (lookup band bands)) [
  | inl e ↦ inl e
  | inr e ↦ inr (bands, refl, e)
]

-- With a range that is not empty, and whatever the model answers: the size lies within the range, and
-- is the clamped product of the base volume and a multiplier, which is 1 or stands in the policy's
-- table for the answered regime and the given band.
pub apply_assessment_bounds :
    (a : Assessment) (base : Decimal) (risk_adjustments : Adjustments) (band : String)
    (lo hi : Decimal)
    → le lo hi ≡ true
    → let s = apply_assessment a base risk_adjustments band lo hi in
      ((s.multiplier ≡ default_multiplier)
        ⊎ IsListed risk_adjustments s.regime_bucket band s.multiplier)
      × (s.final_volume ≡ clamp_volume (mul base s.multiplier) lo hi)
      × (le lo s.final_volume ≡ true)
      × (le s.final_volume hi ≡ true)
unfolding apply_assessment resolve_risk_adjustment
apply_assessment_bounds a base risk_adjustments band lo hi range =
    let s = apply_assessment a base risk_adjustments band lo hi in
    let (low, high) = clamp_volume_bounds (mul base s.multiplier) lo hi range in
    (in_bucket-listed (lookup s.regime_bucket risk_adjustments) band, refl, low, high)
