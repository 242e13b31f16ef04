-- ===== src/Runes/Models.antt =====
-- The rows of the rune bridge's tables (bridge_node/bridge/bridges/runes/models.py).
-- The time stamps `created_at` are left out: nothing reads them.
use nbte_bridge.Prelude.{ℕ, String, Bool, true, false, Option, List}
use nbte_bridge.Prelude.Int.{ℤ, pos, negsuc}

pub record User : Type 0 where
  pub id : ℕ
  pub bridge_id : ℕ
  pub evm_address : String

pub record DepositAddress : Type 0 where
  pub user_id : ℕ
  pub btc_address : String

pub data IncomingBtcTxStatus : Type 0 where
  detected accepted : IncomingBtcTxStatus

pub data RuneDepositStatus : Type 0 where
  detected accepted sending_to_evm sent_to_evm confirmed_in_evm rejected : RuneDepositStatus
  sending_to_evm_failed evm_transaction_failed : RuneDepositStatus

pub data RuneTokenDepositStatus : Type 0 where
  detected accepted sending_to_btc sent_to_btc mined_in_btc rejected : RuneTokenDepositStatus
  sending_to_btc_failed : RuneTokenDepositStatus

-- The numbers of the `IntEnum`s, which are what the `status` columns hold.
abbrev pub deposit_status_value : RuneDepositStatus → ℤ
deposit_status_value detected = pos 10
deposit_status_value accepted = pos 20
deposit_status_value sending_to_evm = pos 30
deposit_status_value sent_to_evm = pos 40
deposit_status_value confirmed_in_evm = pos 50
deposit_status_value rejected = negsuc 0
deposit_status_value sending_to_evm_failed = negsuc 1
deposit_status_value evm_transaction_failed = negsuc 2

abbrev pub token_deposit_status_value : RuneTokenDepositStatus → ℤ
token_deposit_status_value detected = pos 10
token_deposit_status_value accepted = pos 20
token_deposit_status_value sending_to_btc = pos 30
token_deposit_status_value sent_to_btc = pos 40
token_deposit_status_value mined_in_btc = pos 50
token_deposit_status_value rejected = negsuc 0
token_deposit_status_value sending_to_btc_failed = negsuc 1

pub record IncomingBtcTx : Type 0 where
  pub id : ℕ
  pub bridge_id : ℕ
  pub tx_id : String
  pub vout : ℕ
  pub block_number : Option ℕ
  pub time : ℕ
  pub address : String
  pub amount_sat : ℕ
  pub user_id : Option ℕ
  pub status : IncomingBtcTxStatus

pub record Rune : Type 0 where
  pub id : ℕ
  pub bridge_id : ℕ
  pub n : ℕ
  pub name : String
  pub spaced_name : String
  pub symbol : String
  pub divisibility : ℕ
  pub turbo : Bool

pub record RuneDeposit : Type 0 where
  pub id : ℕ
  pub bridge_id : ℕ
  pub tx_id : String
  pub vout : ℕ
  pub block_number : Option ℕ
  pub rune_number : ℕ
  pub rune_id : ℕ
  pub user_id : ℕ
  pub incoming_btc_tx_id : ℕ
  pub postage : ℕ
  pub transfer_amount_raw : ℕ
  pub net_amount_raw : ℤ
  pub evm_tx_hash : Option String
  pub accept_transfer_message_hash : Option String
  pub accept_transfer_signatures : List String
  pub accept_transfer_signers : List String
  pub status : RuneDepositStatus

pub record RuneTokenDeposit : Type 0 where
  pub id : ℕ
  pub bridge_id : ℕ
  pub evm_block_number : ℕ
  pub evm_tx_hash : String
  pub evm_log_index : ℕ
  pub receiver_btc_address : String
  pub transferred_token_amount : ℕ
  pub net_rune_amount_raw : ℕ
  pub token_address : String
  pub rune_id : ℕ
  pub btc_tx_id : Option String
  pub finalized_psbt : Option String
  pub status : RuneTokenDepositStatus

-- The tests `status == ...` of the service.
abbrev pub is_accepted : RuneDepositStatus → Bool
is_accepted accepted = true
is_accepted _ = false

abbrev pub is_detected : RuneDepositStatus → Bool
is_detected detected = true
is_detected _ = false

abbrev pub is_sent_to_evm : RuneDepositStatus → Bool
is_sent_to_evm sent_to_evm = true
is_sent_to_evm _ = false

abbrev pub is_token_accepted : RuneTokenDepositStatus → Bool
is_token_accepted accepted = true
is_token_accepted _ = false

abbrev pub is_token_sending : RuneTokenDepositStatus → Bool
is_token_sending sending_to_btc = true
is_token_sending _ = false

abbrev pub is_tx_detected : IncomingBtcTxStatus → Bool
is_tx_detected detected = true
is_tx_detected accepted = false

-- `RuneDeposit.get_status_for_ui`
unfoldable pub get_status_for_ui : RuneDepositStatus → String
get_status_for_ui detected = "detected"
get_status_for_ui accepted = "seen"
get_status_for_ui sending_to_evm = "seen"
get_status_for_ui sent_to_evm = "sent_to_evm"
get_status_for_ui confirmed_in_evm = "confirmed"
get_status_for_ui _ = "Processing"
