-- ===== src/TapRsk/TapToRsk.antt =====
-- `TapToRskService` (bridge_node/bridge/bridges/tap_rsk/tap_to_rsk.py): the leader collects the
-- signatures of a batch of deposits and hands the deposits to the bridge contract on RSK.
pub mod Batches
pub mod Signatures
pub mod Answer
pub mod Signed
pub mod Twice
pub mod Outcomes
pub mod Tidy
pub mod Steps
pub mod Reads
pub mod Stores
pub mod Sends
pub mod Refines
use nbte_bridge.Prelude.{
  ℕ, suc, ◌-◌, String, Bool, true, false, not, Option, none, some, List, [], ◌∷◌, ◌++◌, map, keep,
  take, length, leb, ◌==◌, string_eq, if◌then◌else◌,
}
use nbte_bridge.Result.{value_error, index_error, external, lookup_error, or_raise, raise_if}
use nbte_bridge.Proc.{pure, raise, lift, gets, asks, ◌>>=◌, ◌>>◌}
use nbte_bridge.Rows.{find_id, with_id, update_id}
use nbte_bridge.Transactions.{transaction, change, emit}
use nbte_bridge.TapRsk.Models.{
  TapToRskTransferBatch, TapToRskTransferBatchStatus, TapToRskTransfer, TapDepositAddress,
  SerializedTapToRskTransferBatch, refers_to,
}
use nbte_bridge.TapRsk.External.{External, AcceptTransfer}
use nbte_bridge.TapRsk.World.{Db, Service, accepted}
use nbte_bridge.TapRsk.TapToRsk.Batches.{
  batch_limit, batch_transfers, waiting_transfers, assign_transfers, compute_batch_hash,
  serialize_batch, current_batch, new_batch, is_hash_stored,
}
use nbte_bridge.TapRsk.TapToRsk.Signatures.{collect_signatures, accept_transfer_calls}

abbrev pub get_batch : ℕ → Service TapToRskTransferBatch
get_batch batch_id =
    asks λ w. or_raise (find_id (λ b. b.id) batch_id w.db.tap_to_rsk_batches) lookup_error

abbrev pub update_batch : ℕ → (TapToRskTransferBatch → TapToRskTransferBatch) → Service (Unit {0})
update_batch batch_id f =
    change λ db. record db {
      tap_to_rsk_batches = update_id (λ b. b.id) batch_id f db.tap_to_rsk_batches;
    }

abbrev pub add_batch : String → List TapToRskTransfer → Service (Unit {0})
add_batch hash transfers = change λ db. record db {
  tap_to_rsk_batches = db.tap_to_rsk_batches ++ new_batch db.next_tap_to_rsk_batch_id hash [] ∷ [];
  next_tap_to_rsk_batch_id = suc db.next_tap_to_rsk_batch_id;
  tap_to_rsk_transfers =
      assign_transfers db.next_tap_to_rsk_batch_id transfers db.tap_to_rsk_transfers;
}

-- What the first transaction hands on: the batch, the number of its transfers and its serialized form.
pub record Current : Type 0 where
  pub batch : TapToRskTransferBatch
  pub num_transfers : ℕ
  pub serialized_batch : SerializedTapToRskTransferBatch

-- The last transaction but one writes the hash of the last transaction, if there was one.
abbrev pub last_hash : List String → Option String
last_hash [] = none
last_hash (h ∷ []) = some h
last_hash (g ∷ h ∷ hs) = last_hash (h ∷ hs)

module _ (ext : External) where
  abbrev pub create_batch : List TapToRskTransfer → Service (Option TapToRskTransferBatch)
  create_batch [] = pure none
  create_batch (t ∷ ts) = do
    hash ← asks λ w. compute_batch_hash ext w.db (t ∷ ts)
    stored ← gets λ w. is_hash_stored hash w.db
    lift (raise_if stored external)
    batch ← gets λ w. new_batch w.db.next_tap_to_rsk_batch_id hash []
    add_batch hash (t ∷ ts)
    pure (some batch)

  abbrev pub existing_or_created :
      Option TapToRskTransferBatch → Service (Option TapToRskTransferBatch)
  existing_or_created (some batch) = pure (some batch)
  existing_or_created none = do
    transfers ← gets λ w. take batch_limit (waiting_transfers w.db)
    create_batch transfers

  -- `_get_or_create_current_batch`
  unfoldable pub get_or_create_current_batch : Service (Option TapToRskTransferBatch)
  get_or_create_current_batch = do found ← gets λ w. current_batch w.db; existing_or_created found

  abbrev pub describe_batch : Option TapToRskTransferBatch → Service (Option Current)
  describe_batch none = pure none
  describe_batch (some batch) = do
    num_transfers ← gets λ w. length (batch_transfers batch.id w.db)
    serialized_batch ← asks λ w. serialize_batch ext w.db batch
    pure (
        some (record {
          batch = batch;
          num_transfers = num_transfers;
          serialized_batch = serialized_batch;
        }))

  -- The first transaction.
  abbrev pub read_current : Service (Option Current)
  read_current = transaction do batch ← get_or_create_current_batch; describe_batch batch

  -- The transaction that stores the signatures: it returns the status.
  abbrev pub store_signatures :
      ℕ → ℕ → List (String × List String) → Service TapToRskTransferBatchStatus
  store_signatures batch_id num_required_signers signatures = transaction do
    _ ← get_batch batch_id
    if leb num_required_signers (length signatures)
        then (do
          update_batch batch_id (λ b. record b {
            status = TapToRskTransferBatchStatus.signatures_collected;
            signatures = signatures;
          })
          pure TapToRskTransferBatchStatus.signatures_collected)
        else (do
          update_batch batch_id (λ b. record b { signatures = signatures })
          pure TapToRskTransferBatchStatus.created)

  -- The transaction before the calls of the contract: it returns their arguments.
  abbrev pub start_sending : ℕ → List (String × List String) → Service (List AcceptTransfer)
  start_sending batch_id signatures = transaction do
    _ ← get_batch batch_id
    calls ← asks λ w.
        accept_transfer_calls ext w.db (batch_transfers batch_id w.db) (map (λ p. p.1) signatures)
    update_batch batch_id (λ b. record b { status = TapToRskTransferBatchStatus.sending_to_rsk })
    pure calls

  abbrev pub send_calls : ℕ → List AcceptTransfer → Service (List String)
  send_calls batch_id [] = pure []
  send_calls batch_id (call ∷ calls) = do
    tx_hash ← lift (ext.accept_transfer_from_tap call)
    emit (accepted batch_id call)
    tx_hashes ← send_calls batch_id calls
    pure (tx_hash ∷ tx_hashes)

  -- `tx_hashes[-1]` of an empty list raises an `IndexError`.
  abbrev pub mark_sent : ℕ → List String → Service (Unit {0})
  mark_sent batch_id tx_hashes = transaction do
    _ ← get_batch batch_id
    tx_hash ← lift (or_raise (last_hash tx_hashes) index_error)
    update_batch batch_id (λ b. record b {
      status = TapToRskTransferBatchStatus.sent_to_rsk;
      executed_tx_hash = some tx_hash;
    })

  abbrev pub read_tx_hash : ℕ → Service String
  read_tx_hash batch_id =
      transaction do batch ← get_batch batch_id; lift (or_raise batch.executed_tx_hash external)

  abbrev pub mark_finalized : ℕ → Service (Unit {0})
  mark_finalized batch_id = transaction do
    _ ← get_batch batch_id
    update_batch batch_id (λ b. record b { status = TapToRskTransferBatchStatus.finalized })

  -- The step for SENT_TO_RSK.
  abbrev pub confirm : ℕ → Service (Unit {0})
  confirm batch_id = do
    tx_hash ← read_tx_hash batch_id
    status ← lift (ext.wait_for_transaction_receipt tx_hash)
    lift (raise_if (not status) value_error)
    mark_finalized batch_id

  -- The step for SIGNATURES_COLLECTED, and what follows it.
  abbrev pub send_batch : ℕ → List (String × List String) → Service (Unit {0})
  send_batch batch_id signatures = do
    calls ← start_sending batch_id signatures
    tx_hashes ← send_calls batch_id calls
    mark_sent batch_id tx_hashes
    confirm batch_id

  abbrev pub send_if_collected :
      ℕ → List (String × List String) → TapToRskTransferBatchStatus → Service (Unit {0})
  send_if_collected batch_id signatures TapToRskTransferBatchStatus.signatures_collected =
      send_batch batch_id signatures
  send_if_collected batch_id signatures _ = pure tt

  -- The step for CREATED, and what follows it.
  abbrev pub ask_signatures : Current → Service (Unit {0})
  ask_signatures current = do
    federators ← lift ext.get_federators
    num_required_signers ← lift ext.num_required_signers
    signature_responses ← lift (ext.ask current.serialized_batch)
    signatures ← lift (
        collect_signatures ext federators current.num_transfers current.serialized_batch.transfers
          signature_responses current.batch.signatures)
    status ← store_signatures current.batch.id (num_required_signers - 1) signatures
    send_if_collected current.batch.id signatures status

  -- The steps, by the status of the batch when the method starts.
  abbrev pub process_status : Current → TapToRskTransferBatchStatus → Service (Unit {0})
  process_status current TapToRskTransferBatchStatus.created = ask_signatures current
  process_status current TapToRskTransferBatchStatus.signatures_collected =
      send_batch current.batch.id current.batch.signatures
  process_status current TapToRskTransferBatchStatus.sending_to_rsk = raise value_error
  process_status current TapToRskTransferBatchStatus.sent_to_rsk = confirm current.batch.id
  process_status current _ = pure tt

  abbrev pub process_batch : Option Current → Service (Unit {0})
  process_batch none = pure tt
  process_batch (some current) = process_status current current.batch.status

  -- `process_current_transfer_batch`
  unfoldable pub process_current_transfer_batch : Service (Unit {0})
  process_current_transfer_batch = do current ← read_current; process_batch current

-- `get_transfers_by_address`: the address, the id and the status of the batch where there is one, for
-- the transfers to a Taproot address.
abbrev pub batch_status : Db → Option ℕ → Option TapToRskTransferBatchStatus
batch_status db none = none
batch_status db (some batch_id) = elim (find_id (λ b. b.id) batch_id db.tap_to_rsk_batches) [
  | none ↦ none
  | some b ↦ some b.status
]

abbrev pub transfers_of_addresses :
    Db → List TapDepositAddress → List (String × (ℕ × Option TapToRskTransferBatchStatus))
transfers_of_addresses db [] = []
transfers_of_addresses db (a ∷ rest) =
    map (λ t. (a.tap_address, (t.db_id, batch_status db t.transfer_batch_id)))
      (keep (λ t. refers_to a.id (some t.deposit_address_id)) db.tap_to_rsk_transfers)
    ++ transfers_of_addresses db rest

unfoldable pub get_transfers_by_address :
    String → Service (List (String × (ℕ × Option TapToRskTransferBatchStatus)))
get_transfers_by_address address = transaction (
    gets λ w.
      transfers_of_addresses w.db (keep (λ a. a.tap_address == address) w.db.deposit_addresses))
