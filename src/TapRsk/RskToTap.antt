-- ===== src/TapRsk/RskToTap.antt =====
-- `RskToTapService` (bridge_node/bridge/bridges/tap_rsk/rsk_to_tap.py): the leader pays the transfers
-- from RSK out in Taproot assets, batch by batch.
pub mod Steps
pub mod Refines
pub mod Outcomes
use nbte_bridge.Prelude.{
  ℕ, suc, String, Bool, true, false, not, Option, none, some, List, [], ◌∷◌, ◌++◌, map, keep, take,
  sort_by, leb, is_some, ◌==◌, nat_eq, string_eq,
}
use nbte_bridge.Result.{runtime, assertion, lookup_error, one, first, or_raise, raise_if}
use nbte_bridge.Proc.{pure, raise, lift, gets, asks, ◌>>=◌, ◌>>◌}
use nbte_bridge.Rows.{find_id, with_id, update_id}
use nbte_bridge.Transactions.{transaction, change, emit}
use nbte_bridge.TapRsk.Models.{
  RskToTapTransferBatch, RskToTapTransferBatchStatus, RskToTapTransfer, refers_to,
}
use nbte_bridge.TapRsk.External.{External}
use nbte_bridge.TapRsk.World.{Db, Service, assets_sent}

abbrev pub batch_limit : ℕ
batch_limit = 10

abbrev pub is_finalized : RskToTapTransferBatchStatus → Bool
is_finalized RskToTapTransferBatchStatus.finalized = true
is_finalized _ = false

abbrev pub is_created : RskToTapTransferBatchStatus → Bool
is_created RskToTapTransferBatchStatus.created = true
is_created _ = false

abbrev pub is_sending : RskToTapTransferBatchStatus → Bool
is_sending RskToTapTransferBatchStatus.sending_to_tap = true
is_sending _ = false

abbrev pub is_sent : RskToTapTransferBatchStatus → Bool
is_sent RskToTapTransferBatchStatus.sent_to_tap = true
is_sent _ = false

abbrev pub transfer_le : RskToTapTransfer → RskToTapTransfer → Bool
transfer_le s t = leb s.counter t.counter

-- `batch.transfers`
abbrev pub batch_transfers : ℕ → Db → List RskToTapTransfer
batch_transfers batch_id db =
    sort_by transfer_le (keep (λ t. refers_to batch_id t.transfer_batch_id) db.rsk_to_tap_transfers)

-- The transfers of no batch, in the order of their counters.
abbrev pub waiting_transfers : Db → List RskToTapTransfer
waiting_transfers db =
    sort_by transfer_le (keep (λ t. not (is_some t.transfer_batch_id)) db.rsk_to_tap_transfers)

-- Each of these transfers refers to the batch from now on.
abbrev pub assign_transfers :
    ℕ → List RskToTapTransfer → List RskToTapTransfer → List RskToTapTransfer
assign_transfers batch_id [] rows = rows
assign_transfers batch_id (t ∷ ts) rows =
    assign_transfers batch_id ts
      (update_id (λ r. r.db_id) t.db_id (λ r. record r { transfer_batch_id = some batch_id }) rows)

abbrev pub new_batch : ℕ → RskToTapTransferBatch
new_batch id = record {
  id = id;
  status = RskToTapTransferBatchStatus.created;
  sending_result = none;
}

abbrev pub add_batch : List RskToTapTransfer → Service (Unit {0})
add_batch transfers = change λ db. record db {
  rsk_to_tap_batches = db.rsk_to_tap_batches ++ new_batch db.next_rsk_to_tap_batch_id ∷ [];
  next_rsk_to_tap_batch_id = suc db.next_rsk_to_tap_batch_id;
  rsk_to_tap_transfers =
      assign_transfers db.next_rsk_to_tap_batch_id transfers db.rsk_to_tap_transfers;
}

abbrev pub create_batch : List RskToTapTransfer → Service (Option RskToTapTransferBatch)
create_batch [] = pure none
create_batch (t ∷ ts) = do
  batch ← gets λ w. new_batch w.db.next_rsk_to_tap_batch_id
  add_batch (t ∷ ts)
  pure (some batch)

abbrev pub current_batch : Db → Option RskToTapTransferBatch
current_batch db = first (
    sort_by (λ (a b : RskToTapTransferBatch). leb a.id b.id)
      (keep (λ b. not (is_finalized b.status)) db.rsk_to_tap_batches))

abbrev pub existing_or_created :
    Option RskToTapTransferBatch → Service (Option RskToTapTransferBatch)
existing_or_created (some batch) = pure (some batch)
existing_or_created none = do
  transfers ← gets λ w. take batch_limit (waiting_transfers w.db)
  create_batch transfers

-- `_get_or_create_current_batch`
unfoldable pub get_or_create_current_batch : Service (Option RskToTapTransferBatch)
get_or_create_current_batch = do found ← gets λ w. current_batch w.db; existing_or_created found

abbrev pub get_batch : ℕ → Service RskToTapTransferBatch
get_batch batch_id =
    asks λ w. or_raise (find_id (λ b. b.id) batch_id w.db.rsk_to_tap_batches) lookup_error

abbrev pub update_batch : ℕ → (RskToTapTransferBatch → RskToTapTransferBatch) → Service (Unit {0})
update_batch batch_id f =
    change λ db. record db {
      rsk_to_tap_batches = update_id (λ b. b.id) batch_id f db.rsk_to_tap_batches;
    }

-- The transaction before the payment: it returns the recipients.
abbrev pub start_sending : ℕ → Service (List String)
start_sending batch_id = transaction do
  batch ← get_batch batch_id
  lift (raise_if (not (is_created batch.status)) assertion)
  update_batch batch_id (λ b. record b { status = RskToTapTransferBatchStatus.sending_to_tap })
  gets λ w. map (λ t. t.recipient_tap_address) (batch_transfers batch_id w.db)

-- The transaction that reads the batch once more.
abbrev pub check_sending : ℕ → Service (Unit {0})
check_sending batch_id = transaction do
  batch ← asks λ w. one (with_id (λ b. b.id) batch_id w.db.rsk_to_tap_batches)
  lift (raise_if (not (is_sending batch.status)) assertion)

abbrev pub mark_sent : ℕ → String → Service (Unit {0})
mark_sent batch_id send_result = transaction do
  batch ← get_batch batch_id
  lift (raise_if (not (is_sending batch.status)) assertion)
  update_batch batch_id (λ b. record b {
    status = RskToTapTransferBatchStatus.sent_to_tap;
    sending_result = some send_result;
  })

abbrev pub mark_finalized : ℕ → Service (Unit {0})
mark_finalized batch_id = transaction do
  batch ← get_batch batch_id
  lift (raise_if (not (is_sent batch.status)) assertion)
  update_batch batch_id (λ b. record b { status = RskToTapTransferBatchStatus.finalized })

module _ (ext : External) where
  abbrev pub send : ℕ → List String → Service String
  send batch_id recipients = do
    send_result ← lift (ext.send_assets recipients)
    emit (assets_sent batch_id recipients)
    pure send_result

  -- The three steps on a batch, by its status when the method starts. A batch that is created is
  -- SENT_TO_TAP when the first step returns.
  abbrev pub process_status : ℕ → RskToTapTransferBatchStatus → Service (Unit {0})
  process_status batch_id RskToTapTransferBatchStatus.created = do
    recipients ← start_sending batch_id
    check_sending batch_id
    send_result ← send batch_id recipients
    mark_sent batch_id send_result
    mark_finalized batch_id
  process_status batch_id RskToTapTransferBatchStatus.sending_to_tap = raise runtime
  process_status batch_id RskToTapTransferBatchStatus.sent_to_tap = mark_finalized batch_id
  process_status batch_id RskToTapTransferBatchStatus.finalized = pure tt

  abbrev pub process_batch : Option RskToTapTransferBatch → Service (Unit {0})
  process_batch none = pure tt
  process_batch (some batch) = process_status batch.id batch.status

  -- `process_current_transfer_batch`
  unfoldable pub process_current_transfer_batch : Service (Unit {0})
  process_current_transfer_batch = do
    batch ← transaction get_or_create_current_batch
    process_batch batch

-- `get_transfers_by_address`: the sender, the id and the status of the batch, for the transfers that
-- have one.
abbrev pub transfer_with_status :
    Db → RskToTapTransfer → List (String × (ℕ × RskToTapTransferBatchStatus))
transfer_with_status db transfer = elim transfer.transfer_batch_id [
  | none ↦ []
  | some batch_id ↦
      map (λ b. (transfer.sender_rsk_address, (transfer.db_id, b.status)))
        (with_id (λ b. b.id) batch_id db.rsk_to_tap_batches)
]

abbrev pub transfers_with_status :
    Db → List RskToTapTransfer → List (String × (ℕ × RskToTapTransferBatchStatus))
transfers_with_status db [] = []
transfers_with_status db (t ∷ ts) = transfer_with_status db t ++ transfers_with_status db ts

unfoldable pub get_transfers_by_address :
    String → Service (List (String × (ℕ × RskToTapTransferBatchStatus)))
get_transfers_by_address address = transaction (
    gets λ w.
      transfers_with_status w.db
        (keep (λ t. t.sender_rsk_address == address) w.db.rsk_to_tap_transfers))
