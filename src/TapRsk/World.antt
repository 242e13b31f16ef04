-- ===== src/TapRsk/World.antt =====
-- The database of the bridge between Taproot assets and RSK, and what it has sent to the outside.
use nbte_bridge.Prelude.{ℕ, String, List, refl}
use nbte_bridge.Proc.{Proc}
use nbte_bridge.Transactions
use nbte_bridge.KeyValues.{Value, KeyValueTable}
use nbte_bridge.TapRsk.Models.{
  RskToTapTransferBatch, TapToRskTransferBatch, TapDepositAddress, RskToTapTransfer,
  TapToRskTransfer,
}
use nbte_bridge.TapRsk.External.{AcceptTransfer}

pub record Db : Type 0 where
  pub rsk_to_tap_batches : List RskToTapTransferBatch
  pub next_rsk_to_tap_batch_id : ℕ
  pub tap_to_rsk_batches : List TapToRskTransferBatch
  pub next_tap_to_rsk_batch_id : ℕ
  pub deposit_addresses : List TapDepositAddress
  pub next_deposit_address_id : ℕ
  pub rsk_to_tap_transfers : List RskToTapTransfer
  pub next_rsk_to_tap_transfer_id : ℕ
  pub tap_to_rsk_transfers : List TapToRskTransfer
  pub next_tap_to_rsk_transfer_id : ℕ
  pub key_values : List (String × Value)

instance abbrev pub tap_rsk_table : KeyValueTable Db
tap_rsk_table = record {
  pairs = λ db. db.key_values;
  with_pairs = λ pairs db. record db { key_values = pairs };
  pairs_with = λ pairs db. refl;
}

-- A payment that the Taproot Assets daemon made, or a transaction that the RSK node took, for a batch.
pub data Effect : Type 0 where
  assets_sent : ℕ → List String → Effect
  accepted : ℕ → AcceptTransfer → Effect

abbrev pub World : Type 0
World = Transactions.World Db Effect

abbrev pub Service : Type 0 → Type 0
Service A = Proc World A
