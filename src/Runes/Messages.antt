-- ===== src/Runes/Messages.antt =====
-- What the federators send to one another (bridge_node/bridge/bridges/runes/messages.py).
use nbte_bridge.Prelude.{ℕ, String}
use nbte_bridge.Prelude.Int.{ℤ}
use nbte_bridge.Decimals.{Decimal}

pub record RuneToEvmTransfer : Type 0 where
  pub evm_address : String
  pub amount_raw : ℕ
  pub amount_decimal : Decimal
  pub net_amount_raw : ℤ
  pub txid : String
  pub vout : ℕ
  pub rune_name : String
  pub rune_number : ℕ

pub record RuneTokenToBtcTransfer : Type 0 where
  pub receiver_address : String
  pub net_rune_amount : ℕ
  pub token_address : String
  pub rune_name : String
  pub rune_number : ℕ
  pub event_tx_hash : String
  pub event_log_index : ℕ

pub record SignRuneToEvmTransferAnswer : Type 0 where
  pub signature : String
  pub signer : String
  pub message_hash : String

pub record SignRuneTokenToBtcTransferQuestion : Type 0 where
  pub transfer : RuneTokenToBtcTransfer
  pub unsigned_psbt_serialized : String
  pub fee_rate_sats_per_vb : ℕ

pub record SignRuneTokenToBtcTransferAnswer : Type 0 where
  pub signed_psbt_serialized : String
  pub signer_xpub : String
