-- ===== src/Runes/External.antt =====
-- What the rune bridge service asks of other programs: the bridge contract and its EVM node, the
-- ord indexer, bitcoind, the multisig wallet's signing library and the messenger. None of them is
-- part of the repository, so each answer is a field, and each may be an exception.
-- The service's constants stand here too.
use nbte_bridge.Prelude.{ℕ, String, Bool, Option, List}
use nbte_bridge.Prelude.Int.{ℤ}
use nbte_bridge.Result.{Result}
use nbte_bridge.Ord.Names.{RuneNames}
use nbte_bridge.Decimals.{Decimal}

-- `RuneBridgeServiceConfig`
pub record RuneBridgeServiceConfig : Type 0 where
  pub bridge_name : String
  pub evm_block_safety_margin : ℕ
  pub evm_default_start_block : ℕ
  pub runes_to_evm_fee_percentage_decimal : Decimal
  pub btc_min_confirmations : ℕ
  pub btc_min_postage_sat : ℕ
  pub btc_listsinceblock_buffer : ℕ
  pub btc_network : String
  pub btc_max_fee_rate_sats_per_vbyte : ℕ

-- The messages that the messenger is given, by their titles.
pub data Notice : Type 0 where
  new_incoming_btc_tx new_rune_deposit new_rune_token_deposit : Notice
  rune_to_evm_sent rune_to_evm_sending_failed rune_to_evm_confirmed rune_to_evm_failed : Notice
  psbt_broadcast psbt_broadcast_failed : Notice

-- The arguments of `acceptTransferFromBtc`.
pub record AcceptTransfer : Type 0 where
  pub evm_address : String
  pub rune_number : ℕ
  pub net_rune_amount : ℤ
  pub btc_txid : String
  pub btc_vout : ℕ
  pub signatures : List String

-- `get_rune` of the ord API: the id, and what the service reads of the entry.
pub record RuneEntry : Type 0 where
  pub id : String
  pub spaced_rune : String
  pub symbol : String
  pub divisibility : ℕ
  pub turbo : Bool

pub record External : Type 0 where
  -- the bridge contract
  pub frozen : Result Bool
  pub num_required_federators : Result ℕ
  pub is_federator : String → Result Bool
  pub is_rune_registered : ℕ → Result Bool
  pub is_rune_paused : ℕ → Result Bool
  pub accept_transfer_message_hash : String → ℕ → ℤ → String → ℕ → Result String
  -- the EVM node and the account
  pub address : String
  pub sign_message : String → Result String
  pub recover_message : String → String → Result String
  pub gas_price : Result ℕ
  pub balance_wei : Result ℕ
  pub pending_nonce : Result ℕ
  pub latest_nonce : Result ℕ
  -- `eth_utils.add_0x_prefix`
  pub add_0x_prefix : String → String
  pub accept_transfer_from_btc : AcceptTransfer → Result String
  -- `none` is a transaction that is not found or still being indexed
  pub transaction_receipt : String → Result (Option Bool)
  -- ord
  pub get_rune : String → Result (Option RuneEntry)
  pub rune_names : RuneNames
  pub rune_balance_at_output : String → ℕ → String → Result ℕ
  -- the messenger, whose call may raise too
  pub send_message : Notice → Result (Unit {0})
