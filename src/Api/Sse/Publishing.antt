-- ===== src/Api/Sse/Publishing.antt =====
-- The `publish_…` methods of backend/src/lumine/api/sse/publisher.py: one for each kind of event, with
-- its channel and its data, and the round of the heartbeat loop. `now` is the time of the clean-up.
use lumine_hedge_fund.Prelude.{ℕ, Option, none, some, List, [], ◌∷◌, String, Dict}
use Prim.Native.String.{◌++◌ as ◌++ₛ◌}
use lumine_hedge_fund.Decimal.{Decimal}
use lumine_hedge_fund.Api.Sse.Events.{Value, text, float, integer, null, raw, Stamp, event}
use lumine_hedge_fund.Api.Sse.{Publisher, publish}

unfoldable pub optional {ℓ} : {A : Type ℓ} → (A → Value) → Option A → Value
optional value none = null
optional value (some a) = value a

unfoldable pub publish_position_update :
    ℕ
    → Stamp
    → String
    → String
    → String
    → String
    → Decimal
    → Decimal
    → Decimal
    → Decimal
    → Publisher
    → Publisher
unfolding event
publish_position_update now stamp portfolio_id position_id symbol direction volume entry_price
      current_price pnl p =
    publish now
      (event stamp "position_update" ("portfolio:" ++ₛ portfolio_id ++ₛ ":positions") (
        ("position_id", text position_id)
        ∷ ("symbol", text symbol)
        ∷ ("direction", text direction)
        ∷ ("volume", float volume)
        ∷ ("entry_price", float entry_price)
        ∷ ("current_price", float current_price)
        ∷ ("unrealized_pnl", float pnl)
        ∷ []))
      p

unfoldable pub publish_order_fill :
    ℕ → Stamp → String → String → Decimal → Decimal → Option ℕ → Publisher → Publisher
unfolding event optional
publish_order_fill now stamp order_id status fill_price fill_volume mt5_ticket p =
    publish now
      (event stamp "order_fill" "orders" (
        ("order_id", text order_id)
        ∷ ("status", text status)
        ∷ ("fill_price", float fill_price)
        ∷ ("fill_volume", float fill_volume)
        ∷ ("mt5_ticket", optional integer mt5_ticket)
        ∷ []))
      p

unfoldable pub publish_tick_update : ℕ → Stamp → String → Decimal → Decimal → Publisher → Publisher
unfolding event
publish_tick_update now stamp symbol bid ask p =
    publish now
      (event stamp "tick_update" ("market:" ++ₛ symbol) (
        ("symbol", text symbol)
        ∷ ("bid", float bid)
        ∷ ("ask", float ask)
        ∷ ("timestamp", text stamp.isoformat)
        ∷ []))
      p

unfoldable pub publish_stream_open : ℕ → Stamp → String → Publisher → Publisher
unfolding event
publish_stream_open now stamp channel p =
    publish now (event stamp "stream_open" channel (("connected_at", text stamp.isoformat) ∷ [])) p

unfoldable pub publish_stream_resumed : ℕ → Stamp → String → ℕ → Publisher → Publisher
unfolding event
publish_stream_resumed now stamp channel missed_count p =
    publish now
      (event stamp "stream_resumed" channel
        (("resumed_at", text stamp.isoformat) ∷ ("missed_events", integer missed_count) ∷ []))
      p

unfoldable pub publish_analyst_output :
    ℕ → Stamp → String → String → String → String → Decimal → String → Publisher → Publisher
unfolding event
publish_analyst_output now stamp portfolio_id symbol analyst_name recommendation confidence
      reasoning p =
    publish now
      (event stamp "analyst_output" "analyst-outputs" (
        ("portfolio_id", text portfolio_id)
        ∷ ("symbol", text symbol)
        ∷ ("analyst_name", text analyst_name)
        ∷ ("recommendation", text recommendation)
        ∷ ("confidence", float confidence)
        ∷ ("reasoning", text reasoning)
        ∷ ("timestamp", text stamp.isoformat)
        ∷ []))
      p

unfoldable pub publish_ic_decision :
    ℕ → Stamp → String → String → String → String → Decimal → String → Publisher → Publisher
unfolding event
publish_ic_decision now stamp decision_id portfolio_id action positions confidence reasoning p =
    publish now
      (event stamp "ic_decision" "ic-decisions" (
        ("decision_id", text decision_id)
        ∷ ("portfolio_id", text portfolio_id)
        ∷ ("action", text action)
        ∷ ("positions", raw positions)
        ∷ ("confidence", float confidence)
        ∷ ("reasoning", text reasoning)
        ∷ ("timestamp", text stamp.isoformat)
        ∷ []))
      p

unfoldable pub publish_cio_proposal :
    ℕ → Stamp → String → String → String → Decimal → Decimal → String → Publisher → Publisher
unfolding event
publish_cio_proposal now stamp proposal_id portfolio_id allocation_changes expected_return
      risk_score reasoning p =
    publish now
      (event stamp "cio_proposal" "cio-proposals" (
        ("proposal_id", text proposal_id)
        ∷ ("portfolio_id", text portfolio_id)
        ∷ ("allocation_changes", raw allocation_changes)
        ∷ ("expected_return", float expected_return)
        ∷ ("risk_score", float risk_score)
        ∷ ("reasoning", text reasoning)
        ∷ ("timestamp", text stamp.isoformat)
        ∷ []))
      p

unfoldable pub publish_risk_assessment :
    ℕ → Stamp → String → String → String → String → String → Publisher → Publisher
unfolding event
publish_risk_assessment now stamp assessment_id portfolio_id risk_level metrics alerts p =
    publish now
      (event stamp "risk_assessment" "risk-assessments" (
        ("assessment_id", text assessment_id)
        ∷ ("portfolio_id", text portfolio_id)
        ∷ ("risk_level", text risk_level)
        ∷ ("metrics", raw metrics)
        ∷ ("alerts", raw alerts)
        ∷ ("timestamp", text stamp.isoformat)
        ∷ []))
      p

unfoldable pub publish_execution_order :
    ℕ
    → Stamp
    → String
    → String
    → String
    → String
    → String
    → Decimal
    → Option Decimal
    → Publisher
    → Publisher
unfolding event optional
publish_execution_order now stamp order_id portfolio_id symbol action status quantity price p =
    publish now
      (event stamp "execution_order" "execution-orders" (
        ("order_id", text order_id)
        ∷ ("portfolio_id", text portfolio_id)
        ∷ ("symbol", text symbol)
        ∷ ("action", text action)
        ∷ ("status", text status)
        ∷ ("quantity", float quantity)
        ∷ ("price", optional float price)
        ∷ ("timestamp", text stamp.isoformat)
        ∷ []))
      p

unfoldable pub publish_heartbeat : ℕ → Stamp → String → Publisher → Publisher
unfolding event
publish_heartbeat now stamp channel p =
    publish now (event stamp "heartbeat" channel (("type", text "heartbeat") ∷ [])) p

-- `list(self._channels.keys())`
unfoldable pub keys {ℓ} : {V : Type ℓ} → Dict V → List String
keys [] = []
keys ((channel, _) ∷ channels) = channel ∷ keys channels

-- The body of the heartbeat loop after its sleep: `clock` gives each call its stamp and time.
unfoldable pub send_heartbeats : (String → Stamp) → ℕ → List String → Publisher → Publisher
unfolding publish_heartbeat
send_heartbeats stamps now [] p = p
send_heartbeats stamps now (channel ∷ channels) p =
    send_heartbeats stamps now channels (publish_heartbeat now (stamps channel) channel p)

unfoldable pub heartbeat_round : (String → Stamp) → ℕ → Publisher → Publisher
unfolding send_heartbeats keys
heartbeat_round stamps now p = send_heartbeats stamps now (keys p.channels) p
