-- ===== src/TapRsk/TapToRsk/Answer.antt =====
-- `_answer_sign_transfer_batch` (bridge_node/bridge/bridges/tap_rsk/tap_to_rsk.py): a federator signs a
-- batch that the leader sent.
use nbte_bridge.Prelude.{
  suc, String, not, Option, none, some, List, [], ◌∷◌, ◌++◌, keep, ◌==◌, nat_eq, string_eq,
}
use nbte_bridge.Result.{value_error, lookup_error, first, or_raise, raise_if}
use nbte_bridge.Proc.{pure, lift, gets, ◌>>=◌, ◌>>◌}
use nbte_bridge.KeyValues.{find_value, put_value}
use nbte_bridge.Transactions.{transaction, change}
use nbte_bridge.TapRsk.Models.{TapToRskTransferBatch, SerializedTapToRskTransferBatch}
use nbte_bridge.TapRsk.External.{External, SignTransferBatchAnswer}
use nbte_bridge.TapRsk.World.{Db, Service}
use nbte_bridge.TapRsk.TapToRsk.Batches.{new_batch}
use nbte_bridge.TapRsk.TapToRsk.Signatures.{sign_transfers}

-- The row of an earlier question with this hash.
abbrev pub existing_batch : String → Db → Option TapToRskTransferBatch
existing_batch hash db = first (keep (λ b. b.hash == hash) db.tap_to_rsk_batches)

module _ (ext : External) where
  abbrev pub add_signed_batch : String → List (String × List String) → Service (Unit {0})
  add_signed_batch hash signatures = change λ db. record db {
    tap_to_rsk_batches =
        db.tap_to_rsk_batches ++ new_batch db.next_tap_to_rsk_batch_id hash signatures ∷ [];
    next_tap_to_rsk_batch_id = suc db.next_tap_to_rsk_batch_id;
  }

  abbrev pub answer_of : List String → SignTransferBatchAnswer
  answer_of signatures = record { signatures = signatures; signer = ext.address }

  -- The rest of the transaction, with the batch that has the question's hash, if there is one.
  abbrev pub answer_existing_or_sign :
      SerializedTapToRskTransferBatch
      → Option TapToRskTransferBatch
      → Service SignTransferBatchAnswer
  answer_existing_or_sign serialized_batch (some batch) = do
    signatures ← lift (or_raise (find_value ext.address batch.signatures) lookup_error)
    pure (answer_of signatures)
  answer_existing_or_sign serialized_batch none = do
    my_signatures ← lift (sign_transfers ext serialized_batch.transfers)
    add_signed_batch serialized_batch.hash
        (put_value ext.address my_signatures serialized_batch.signatures)
    pure (answer_of my_signatures)

  abbrev pub answer_once :
      SerializedTapToRskTransferBatch → Option (List String) → Service SignTransferBatchAnswer
  answer_once serialized_batch (some signatures) = pure (answer_of signatures)
  answer_once serialized_batch none = transaction do
    found ← gets λ w. existing_batch serialized_batch.hash w.db
    answer_existing_or_sign serialized_batch found

  -- `_answer_sign_transfer_batch`; 1 is CREATED.
  unfoldable pub answer_sign_transfer_batch :
      SerializedTapToRskTransferBatch → Service SignTransferBatchAnswer
  answer_sign_transfer_batch serialized_batch = do
    lift (raise_if ext.is_leader value_error)
    lift (raise_if (not (serialized_batch.status == 1)) value_error)
    answer_once serialized_batch (find_value ext.address serialized_batch.signatures)
