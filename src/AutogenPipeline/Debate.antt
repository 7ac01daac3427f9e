-- ===== src/AutogenPipeline/Debate.antt =====
-- backend/src/lumine/autogen_pipeline/debate.py: the deterministic trigger. Python floats enter as a
-- record of the operations used. Of an analyst's validated output, the two entries that are read.
use lumine_hedge_fund.Prelude.{
  ℕ, ◌+◌, Bool, ◌||◌, List, [], ◌∷◌, String, str_eq, ltb, if◌then◌else◌, length,
}

pub record Floats : Type 1 where
  pub Float : Type 0
  pub of_nat : ℕ → Float
  -- The literals 0.7, 0.3, 0.6 and 0.4.
  pub weight_direction : Float
  pub weight_spread : Float
  pub default_confidence : Float
  pub default_disagreement : Float
  pub plus : Float → Float → Float
  pub minus : Float → Float → Float
  pub times : Float → Float → Float
  pub over : Float → Float → Float
  pub less : Float → Float → Bool

module _ (f : Floats) where
  open f use {Float, of_nat, weight_direction, weight_spread, plus, minus, times, over, less}

  pub record AnalystOutput : Type 0 where
    pub bias : String
    pub confidence : Float

  -- `sum(…)`, from the left and from 0.
  unfoldable pub sum_from : Float → List AnalystOutput → Float
  sum_from acc [] = acc
  sum_from acc (a ∷ outputs) = sum_from (plus acc a.confidence) outputs

  unfoldable pub ic_confidence_predicted : List AnalystOutput → Float
  unfolding sum_from
  ic_confidence_predicted [] = of_nat 0
  ic_confidence_predicted (a ∷ outputs) =
      over (sum_from (of_nat 0) (a ∷ outputs)) (of_nat (length (a ∷ outputs)))

  -- `biases.count(bias)`
  unfoldable pub count_bias : String → List AnalystOutput → ℕ
  count_bias bias [] = 0
  count_bias bias (a ∷ outputs) = (if str_eq a.bias bias then 1 else 0) + count_bias bias outputs

  unfoldable pub greater_of : ℕ → ℕ → ℕ
  greater_of a b = if ltb a b then b else a

  unfoldable pub majority : List AnalystOutput → ℕ
  unfolding count_bias greater_of
  majority outputs =
      greater_of (greater_of (count_bias "bullish" outputs) (count_bias "bearish" outputs))
        (count_bias "neutral" outputs)

  unfoldable pub max_from : Float → List AnalystOutput → Float
  max_from m [] = m
  max_from m (a ∷ outputs) = max_from (if less m a.confidence then a.confidence else m) outputs

  unfoldable pub min_from : Float → List AnalystOutput → Float
  min_from m [] = m
  min_from m (a ∷ outputs) = min_from (if less a.confidence m then a.confidence else m) outputs

  -- `max(0.0, min(1.0, score))`
  unfoldable pub clamped : Float → Float
  clamped score =
      let low = if less score (of_nat 1) then score else of_nat 1 in
      if less (of_nat 0) low then low else of_nat 0

  unfoldable pub disagreement_score : List AnalystOutput → Float
  unfolding majority max_from min_from clamped
  disagreement_score [] = of_nat 0
  disagreement_score (a ∷ outputs) =
      let all = a ∷ outputs in
      let direction_disagreement =
        minus (of_nat 1) (over (of_nat (majority all)) (of_nat (length all))) in
      let confidence_spread =
        minus (max_from a.confidence outputs) (min_from a.confidence outputs) in
      clamped (
        plus (times weight_direction direction_disagreement)
          (times weight_spread confidence_spread))

  unfoldable pub should_debate : List AnalystOutput → Float → Float → Bool
  unfolding ic_confidence_predicted disagreement_score
  should_debate outputs ic_confidence_threshold disagreement_threshold =
      less (ic_confidence_predicted outputs) ic_confidence_threshold
      || less disagreement_threshold (disagreement_score outputs)
