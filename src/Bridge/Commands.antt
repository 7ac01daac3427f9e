-- ===== src/Bridge/Commands.antt =====
-- The commands that bridge/types.py accepts.
use lumine_hedge_fund.Prelude.{◌≡◌, ◌↔◌, ◌⊎◌, Bool, true, false, str_eq, arith}
use lumine_hedge_fund.Decimal.{of_int, le}
use lumine_hedge_fund.Bridge.{
  BridgeCommand, Checked, accepted, refused, both_le, or_default, check_command,
}

abbrev pub is_accepted : Checked → Bool
is_accepted (accepted c) = true
is_accepted (refused e) = false

-- The model accepts a command exactly when a BUY or SELL has a positive volume, a BUY has its stop
-- below its target and a SELL above, where it has both.
pub check_command-accepted_iff :
    (c : BridgeCommand)
    → (is_accepted (check_command c) ≡ true) ↔ (
        ((str_eq c.action "BUY" ≡ false) × (str_eq c.action "SELL" ≡ false)
          ⊎ (le c.volume (of_int 0) ≡ false))
        × ((str_eq c.action "BUY" ≡ false) ⊎ (both_le c.take_profit c.stop_loss ≡ false))
        × ((str_eq c.action "SELL" ≡ false) ⊎ (both_le c.stop_loss c.take_profit ≡ false)))
unfolding check_command
check_command-accepted_iff c = ground arith

-- An accepted command carries a key that tells its retries apart from other commands: the given
-- one, or else its identifier; nothing else of it changes.
pub check_command-key :
    (c d : BridgeCommand)
    → check_command c ≡ accepted d
    → (d ≡ record c { idempotency_key = d.idempotency_key })
      × (d.idempotency_key ≡ or_default c.idempotency_key c.command_id)
unfolding check_command
check_command-key c d h = ground arith
