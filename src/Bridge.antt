-- ===== src/Bridge.antt =====
-- backend/src/lumine/bridge/types.py: the envelopes exchanged with the MetaTrader bridge. Prices and
-- volumes are JSON floats; each is carried as the decimal that `Decimal(str(x))` makes of it.
pub mod Commands
pub mod Client
mod Tests
use lumine_hedge_fund.Prelude.{
  ℕ, Bool, true, false, not, ◌&&◌, ◌||◌, Option, none, some, String, str_eq, if◌then◌else◌,
}
use lumine_hedge_fund.Decimal.{Decimal, of_int, le}

pub data BridgeStatus : Type 0 where
  pending sent acknowledged filled partial rejected error timeout : BridgeStatus

-- `status.value`
unfoldable pub status_value : BridgeStatus → String
status_value pending = "pending"
status_value sent = "sent"
status_value acknowledged = "acknowledged"
status_value filled = "filled"
status_value partial = "partial"
status_value rejected = "rejected"
status_value error = "error"
status_value timeout = "timeout"

pub record BridgeCommand : Type 0 where
  pub command_id : String
  pub order_id : Option String
  pub action : String
  pub symbol : String
  pub volume : Decimal
  pub order_type : String
  pub stop_loss : Option Decimal
  pub take_profit : Option Decimal
  pub idempotency_key : Option String
  pub timestamp : ℕ

pub record BridgeResult : Type 0 where
  pub command_id : String
  pub order_id : Option String
  pub ticket : Option ℕ
  pub status : BridgeStatus
  pub fill_price : Option Decimal
  pub fill_volume : Option Decimal
  pub error_code : Option ℕ
  pub error_message : Option String
  pub timestamp : ℕ

pub data CommandError : Type 0 where
  volume_not_positive stop_not_below_take stop_not_above_take : CommandError

-- The tests on a pair of stop and target, where both are given.
unfoldable pub both_le : Option Decimal → Option Decimal → Bool
both_le (some a) (some b) = le a b
both_le _ _ = false

-- `self.idempotency_key` or, where it is None, the identifier.
unfoldable pub or_default : Option String → String → Option String
or_default none d = some d
or_default (some s) d = some s

-- `_check_command_invariants`: the model validator. The field patterns that run before it are not
-- modelled.
pub data Checked : Type 0 where
  accepted : BridgeCommand → Checked
  refused : CommandError → Checked

unfoldable pub check_command : BridgeCommand → Checked
unfolding both_le or_default
check_command c =
    let buy = str_eq c.action "BUY" in
    let sell = str_eq c.action "SELL" in
    if (buy || sell) && le c.volume (of_int 0)
    then refused volume_not_positive
    else if buy && both_le c.take_profit c.stop_loss
    then refused stop_not_below_take
    else if sell && both_le c.stop_loss c.take_profit
    then refused stop_not_above_take
    else accepted (record c { idempotency_key = or_default c.idempotency_key c.command_id })

-- A text that Python takes for true.
unfoldable pub has_text : Option String → Bool
has_text none = false
has_text (some s) = not (str_eq s "")

unfoldable pub needs_message : BridgeStatus → Bool
needs_message rejected = true
needs_message error = true
needs_message _ = false

-- `_check_result_invariants`: whether the model accepts a result.
unfoldable pub check_result : BridgeResult → Bool
unfolding has_text needs_message
check_result r = not (needs_message r.status && not (has_text r.error_message))
