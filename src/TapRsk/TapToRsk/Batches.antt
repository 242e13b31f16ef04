-- ===== src/TapRsk/TapToRsk/Batches.antt =====
-- The batches of bridge_node/bridge/bridges/tap_rsk/tap_to_rsk.py: `_get_or_create_current_batch`, and
-- the hashes and the serialized form of models.py. The counter of a deposit is never set; a transfer
-- without one stands behind those that have one, in the order of the table.
use nbte_bridge.Prelude.{
  ℕ, String, Bool, true, false, not, Option, none, some, List, [], ◌∷◌, keep, any, sort_by, leb,
  is_some, ◌==◌, string_eq,
}
use nbte_bridge.Result.{Result, ok, lookup_error, first, or_raise, ◌>>=◌}
use nbte_bridge.Rows.{find_id, update_id}
use nbte_bridge.TapRsk.Models.{
  TapToRskTransferBatch, TapToRskTransferBatchStatus, TapToRskTransfer, TapDepositAddress,
  SerializedTapToRskTransfer, SerializedTapToRskTransferBatch, refers_to, tap_to_rsk_status_value,
}
use nbte_bridge.TapRsk.External.{External, bytes32, address, string, bytes32_list, uint256}
use nbte_bridge.TapRsk.World.{Db}

abbrev pub batch_limit : ℕ
batch_limit = 10

abbrev pub is_finalized : TapToRskTransferBatchStatus → Bool
is_finalized TapToRskTransferBatchStatus.finalized = true
is_finalized _ = false

abbrev pub counter_le : Option ℕ → Option ℕ → Bool
counter_le none none = true
counter_le none (some b) = false
counter_le (some a) none = true
counter_le (some a) (some b) = leb a b

abbrev pub transfer_le : TapToRskTransfer → TapToRskTransfer → Bool
transfer_le s t = counter_le s.counter t.counter

-- `batch.transfers`
abbrev pub batch_transfers : ℕ → Db → List TapToRskTransfer
batch_transfers batch_id db =
    sort_by transfer_le (keep (λ t. refers_to batch_id t.transfer_batch_id) db.tap_to_rsk_transfers)

abbrev pub waiting_transfers : Db → List TapToRskTransfer
waiting_transfers db =
    sort_by transfer_le (keep (λ t. not (is_some t.transfer_batch_id)) db.tap_to_rsk_transfers)

abbrev pub assign_transfers :
    ℕ → List TapToRskTransfer → List TapToRskTransfer → List TapToRskTransfer
assign_transfers batch_id [] rows = rows
assign_transfers batch_id (t ∷ ts) rows =
    assign_transfers batch_id ts
      (update_id (λ r. r.db_id) t.db_id (λ r. record r { transfer_batch_id = some batch_id }) rows)

-- `transfer.deposit_address`; the foreign key is never null.
abbrev pub deposit_address : Db → TapToRskTransfer → Result TapDepositAddress
deposit_address db transfer =
    or_raise (find_id (λ a. a.id) transfer.deposit_address_id db.deposit_addresses) lookup_error

module _ (ext : External) (db : Db) where
  -- `TapToRskTransfer.compute_hash`; `HexBytes` of a hash's text is written as the text.
  abbrev pub compute_transfer_hash : TapToRskTransfer → Result String
  compute_transfer_hash transfer = do
    deposit ← deposit_address db transfer
    ext.keccak_packed (
        bytes32 "TapToRskTransfer:"
        ∷ address deposit.rsk_address
        ∷ bytes32 ":"
        ∷ string deposit.tap_address
        ∷ bytes32 ":"
        ∷ bytes32 transfer.deposit_btc_tx_id
        ∷ bytes32 ":"
        ∷ uint256 transfer.deposit_btc_tx_vout
        ∷ [])

  abbrev pub compute_transfer_hashes : List TapToRskTransfer → Result (List String)
  compute_transfer_hashes [] = ok []
  compute_transfer_hashes (t ∷ ts) = do
    hash ← compute_transfer_hash t
    hashes ← compute_transfer_hashes ts
    ok (hash ∷ hashes)

  -- `TapToRskTransferBatch.compute_hash`
  abbrev pub compute_batch_hash : List TapToRskTransfer → Result String
  compute_batch_hash transfers = do
    hashes ← compute_transfer_hashes transfers
    ext.keccak_packed (bytes32 "TapToRskTransferBatch:" ∷ bytes32_list hashes ∷ [])

  -- `TapToRskTransfer.serialize`
  abbrev pub serialize_transfer : TapToRskTransfer → Result SerializedTapToRskTransfer
  serialize_transfer transfer = do
    hash ← compute_transfer_hash transfer
    deposit ← deposit_address db transfer
    ok (record {
      hash = hash;
      rsk_address = deposit.rsk_address;
      tap_address = deposit.tap_address;
      deposit_btc_tx_id = transfer.deposit_btc_tx_id;
      deposit_btc_tx_vout = transfer.deposit_btc_tx_vout;
    })

  abbrev pub serialize_transfers : List TapToRskTransfer → Result (List SerializedTapToRskTransfer)
  serialize_transfers [] = ok []
  serialize_transfers (t ∷ ts) = do
    s ← serialize_transfer t
    rest ← serialize_transfers ts
    ok (s ∷ rest)

  -- `TapToRskTransferBatch.serialize`
  abbrev pub serialize_batch : TapToRskTransferBatch → Result SerializedTapToRskTransferBatch
  serialize_batch batch = do
    transfers ← serialize_transfers (batch_transfers batch.id db)
    ok (record {
      hash = batch.hash;
      status = tap_to_rsk_status_value batch.status;
      signatures = batch.signatures;
      transfers = transfers;
    })

abbrev pub current_batch : Db → Option TapToRskTransferBatch
current_batch db = first (
    sort_by (λ (a b : TapToRskTransferBatch). leb a.id b.id)
      (keep (λ b. not (is_finalized b.status)) db.tap_to_rsk_batches))

abbrev pub new_batch : ℕ → String → List (String × List String) → TapToRskTransferBatch
new_batch id hash signatures = record {
  id = id;
  hash = hash;
  status = TapToRskTransferBatchStatus.created;
  signatures = signatures;
  executed_tx_hash = none;
}

-- The column `hash` is unique.
abbrev pub is_hash_stored : String → Db → Bool
is_hash_stored hash db = any (λ (b : TapToRskTransferBatch). b.hash == hash) db.tap_to_rsk_batches
