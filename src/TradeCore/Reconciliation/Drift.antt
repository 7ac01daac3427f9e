-- ===== src/TradeCore/Reconciliation/Drift.antt =====
-- When the reconciliation reports drift: reconciliation.py, `reconciliation_gate`, `compare_fill`.
use lumine_hedge_fund.Prelude.{◌≡◌, ◌≢◌, ◌↔◌, true, not, String, eq_iff, arith}
use lumine_hedge_fund.TradeCore.Reconciliation.{reconciliation_gate}

-- The gate reports drift exactly for a position that is CLOSED here and that the broker does not
-- report as SETTLED, and it lets a position pass exactly when there is no drift.
pub reconciliation_gate-drift_iff :
    (internal broker : String)
    → let gate = reconciliation_gate internal broker in
      ((gate.drift ≡ true) ↔ ((internal ≡ "CLOSED") × (broker ≢ "SETTLED")))
      × (gate.settled ≡ not gate.drift)
unfolding reconciliation_gate
reconciliation_gate-drift_iff internal broker =
    (ground (arith, eq_iff internal "CLOSED", eq_iff broker "SETTLED"), ground arith)
