-- ===== src/TapRsk/Models.antt =====
-- The rows of bridge_node/bridge/bridges/tap_rsk/models.py. A `relationship` is left to the foreign
-- key that it follows; a JSON value that is only stored is a text.
use nbte_bridge.Prelude.{
  ℕ, String, Bool, false, Option, none, some, List, ◌==◌, nat_eq, if◌then◌else◌,
}

pub data RskToTapTransferBatchStatus : Type 0 where
  created sending_to_tap sent_to_tap finalized : RskToTapTransferBatchStatus

pub data TapToRskTransferBatchStatus : Type 0 where
  created signatures_collected sending_to_rsk sent_to_rsk mined finalized :
      TapToRskTransferBatchStatus

-- `RskToTapTransferBatchStatus.status_to_str`: the names of the enum's members, by their numbers.
unfoldable pub rsk_to_tap_status_to_str : ℕ → String
rsk_to_tap_status_to_str status =
    if status == 1
    then "created"
    else if status == 4
    then "sending_to_tap"
    else if status == 5
    then "sent_to_tap"
    else if status == 8
    then "finalized"
    else "seen"

-- `TapToRskTransferBatchStatus.status_to_str`
unfoldable pub tap_to_rsk_status_to_str : ℕ → String
tap_to_rsk_status_to_str status =
    if status == 1
    then "created"
    else if status == 2
    then "signatures_collected"
    else if status == 3
    then "sending_to_rsk"
    else if status == 4
    then "sent_to_rsk"
    else if status == 5
    then "mined"
    else if status == 7
    then "finalized"
    else "seen"

abbrev pub rsk_to_tap_status_value : RskToTapTransferBatchStatus → ℕ
rsk_to_tap_status_value RskToTapTransferBatchStatus.created = 1
rsk_to_tap_status_value RskToTapTransferBatchStatus.sending_to_tap = 4
rsk_to_tap_status_value RskToTapTransferBatchStatus.sent_to_tap = 5
rsk_to_tap_status_value RskToTapTransferBatchStatus.finalized = 8

abbrev pub tap_to_rsk_status_value : TapToRskTransferBatchStatus → ℕ
tap_to_rsk_status_value TapToRskTransferBatchStatus.created = 1
tap_to_rsk_status_value TapToRskTransferBatchStatus.signatures_collected = 2
tap_to_rsk_status_value TapToRskTransferBatchStatus.sending_to_rsk = 3
tap_to_rsk_status_value TapToRskTransferBatchStatus.sent_to_rsk = 4
tap_to_rsk_status_value TapToRskTransferBatchStatus.mined = 5
tap_to_rsk_status_value TapToRskTransferBatchStatus.finalized = 7

pub record RskToTapTransferBatch : Type 0 where
  pub id : ℕ
  pub status : RskToTapTransferBatchStatus
  pub sending_result : Option String

-- `signatures` is a JSON object: from a signer's address to the signatures, one for each transfer.
pub record TapToRskTransferBatch : Type 0 where
  pub id : ℕ
  pub hash : String
  pub status : TapToRskTransferBatchStatus
  pub signatures : List (String × List String)
  pub executed_tx_hash : Option String

pub record TapDepositAddress : Type 0 where
  pub id : ℕ
  pub rsk_address : String
  pub tap_address : String
  pub tap_asset_id : String
  pub rsk_token_address : String
  pub tap_amount : ℕ
  pub rsk_amount : ℕ

pub record RskToTapTransfer : Type 0 where
  pub db_id : ℕ
  pub counter : ℕ
  pub recipient_tap_address : String
  pub sender_rsk_address : String
  pub rsk_event_block_number : ℕ
  pub rsk_event_tx_hash : String
  pub rsk_event_tx_index : ℕ
  pub rsk_event_log_index : ℕ
  pub transfer_batch_id : Option ℕ

pub record TapToRskTransfer : Type 0 where
  pub db_id : ℕ
  pub counter : Option ℕ
  pub deposit_address_id : ℕ
  pub deposit_btc_tx_id : String
  pub deposit_btc_tx_vout : ℕ
  pub transfer_batch_id : Option ℕ

pub record SerializedTapToRskTransfer : Type 0 where
  pub hash : String
  pub rsk_address : String
  pub tap_address : String
  pub deposit_btc_tx_id : String
  pub deposit_btc_tx_vout : ℕ

pub record SerializedTapToRskTransferBatch : Type 0 where
  pub hash : String
  pub status : ℕ
  pub signatures : List (String × List String)
  pub transfers : List SerializedTapToRskTransfer

-- Whether a foreign key holds this id.
abbrev pub refers_to : ℕ → Option ℕ → Bool
refers_to i none = false
refers_to i (some j) = i == j
