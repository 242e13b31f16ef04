-- ===== src/TapRsk/External.antt =====
-- What the Taproot Assets daemon, the RSK node with the bridge contract, the libraries for hashes and
-- addresses, and the other nodes answer to the bridge between Taproot assets and RSK. Each answer may
-- be an exception.
use nbte_bridge.Prelude.{ℕ, String, Bool, List}
use nbte_bridge.Result.{Result}
use nbte_bridge.TapRsk.Models.{SerializedTapToRskTransferBatch}

-- The dataclass `BridgeableAsset` of tap_deposits.py; `tap_amount_divisor` is a `uint256`.
pub record BridgeableAsset : Type 0 where
  pub rsk_token : String
  pub tap_asset_id : String
  pub tap_amount_divisor : ℕ
  pub tap_native : Bool
  pub tap_asset_name : String

-- An event of `list_receives`: the outpoint's two parts, the address and the status.
pub record ReceiveEvent : Type 0 where
  pub outpoint : String
  pub encoded : String
  pub status : String

pub record SignTransferBatchAnswer : Type 0 where
  pub signatures : List String
  pub signer : String

-- The arguments of `acceptTransferFromTap`.
pub record AcceptTransfer : Type 0 where
  pub rsk_address : String
  pub tap_address : String
  pub deposit_btc_tx_id : String
  pub deposit_btc_tx_vout : ℕ
  pub signatures : List String

-- The typed values of `encode_packed`.
pub data Packed : Type 0 where
  bytes32 address string : String → Packed
  bytes32_list : List String → Packed
  uint256 : ℕ → Packed

pub record External : Type 0 where
  pub send_assets : List String → Result String
  pub create_address : String → ℕ → Result String
  pub list_receives : String → Result (List ReceiveEvent)
  pub split_outpoint : String → Result (String × ℕ)
  pub get_federators : Result (List String)
  pub num_required_signers : Result ℕ
  pub get_transfer_from_tap_message_hash : String → String → String → ℕ → Result String
  pub is_processed : String → ℕ → Result Bool
  pub accept_transfer_from_tap : AcceptTransfer → Result String
  pub wait_for_transaction_receipt : String → Result Bool
  pub assets_by_rsk_token_address : String → Result BridgeableAsset
  pub assets_by_taproot_asset_id : String → Result BridgeableAsset
  pub recover_message : String → String → Result String
  pub address : String
  pub sign_message : String → Result String
  pub keccak_packed : List Packed → Result String
  pub add_0x_prefix : String → String
  pub remove_0x_prefix : String → String
  pub to_checksum_address : String → Result String
  pub is_leader : Bool
  pub ask : SerializedTapToRskTransferBatch → Result (List SignTransferBatchAnswer)
