-- ===== src/Runes/ToBtc/FeeRate.antt =====
-- The fee rate of a question (`handle_accepted_rune_token_deposit` and
-- `answer_sign_rune_token_to_btc_transfer_question`, bridge_node/bridge/bridges/runes/service.py).
use nbte_bridge.Prelude.{ℕ, ◌≤◌, arith}
use nbte_bridge.Runes.External.{RuneBridgeServiceConfig}
use nbte_bridge.Runes.World.{Db}
use nbte_bridge.Runes.ToBtc.Signer.{Signer}
use nbte_bridge.Runes.ToBtc.Answer.{fee_rate_min, fee_rate_max}
use nbte_bridge.Runes.ToBtc.Question.{adjusted_fee_rate}

-- The fee rate that the leader puts into a question is within the range that every federator with
-- the same estimate and the same network accepts, whatever the estimate is.
pub adjusted_fee_rate-within :
    (config : RuneBridgeServiceConfig) (bridge_id : ℕ) (db : Db) (signer : Signer) (expected : ℕ)
    → (fee_rate_min config bridge_id db signer expected ≤ adjusted_fee_rate config expected)
      × (adjusted_fee_rate config expected ≤ fee_rate_max config bridge_id db signer expected)
unfolding adjusted_fee_rate
adjusted_fee_rate-within config bridge_id db signer expected = (grind arith, grind arith)
