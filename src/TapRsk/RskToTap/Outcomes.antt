-- ===== src/TapRsk/RskToTap/Outcomes.antt =====
-- What `process_current_transfer_batch` of rsk_to_tap.py does with the batch that it finds.
use nbte_bridge.Prelude.{ℕ, String, ◌≡◌, refl, some, List, ◌∷◌, map, nat_eq, arith}
use nbte_bridge.Result.{ok}
use nbte_bridge.Rows.{find_id, found_updated, update_id}
use nbte_bridge.Transactions.{transaction}
use nbte_bridge.TapRsk.Models.{RskToTapTransferBatch, RskToTapTransferBatchStatus}
use nbte_bridge.TapRsk.External.{External}
use nbte_bridge.TapRsk.World.{World, assets_sent}
use nbte_bridge.TapRsk.RskToTap.{
  current_batch, batch_transfers, get_or_create_current_batch, process_current_transfer_batch,
  process_status,
}
use nbte_bridge.TapRsk.RskToTap.Steps.{batch_at}

row_after :
    (i : ℕ) (f : RskToTapTransferBatch → RskToTapTransferBatch)
    → ((b : RskToTapTransferBatch) → (f b).id ≡ b.id)
    → (rows : List RskToTapTransferBatch) (b : RskToTapTransferBatch)
    → find_id (λ b. b.id) i rows ≡ some b
    → find_id (λ b. b.id) i (update_id (λ b. b.id) i f rows) ≡ some (f b)
row_after i f same rows b at = found_updated (λ b. b.id) i f same rows b at

module _ (ext : External) (w : World) (b : RskToTapTransferBatch)
    (current : current_batch w.db ≡ some b) where
  found : process_current_transfer_batch ext w ≡ process_status ext b.id b.status w
  unfolding process_current_transfer_batch get_or_create_current_batch transaction
  found = simp current

  abbrev recipients : List String
  recipients = map (λ t. t.recipient_tap_address) (batch_transfers b.id w.db)

  -- If the first batch that is not finalized is CREATED and the row that its id finds, and the daemon
  -- takes the payment, a call returns; the daemon was paid once more, to the recipients of exactly the
  -- batch's transfers in the order of their counters, and the batch is FINALIZED.
  pub process_current_transfer_batch_paid :
      (result : String)
      → batch_at b.id w ≡ some b
      → b.status ≡ RskToTapTransferBatchStatus.created
      → ext.send_assets recipients ≡ ok result
      → let (r, t) = process_current_transfer_batch ext w in
        (r ≡ ok tt)
        × (t.effects ≡ assets_sent b.id recipients ∷ w.effects)
        × (batch_at b.id t
            ≡ some (record b {
              status = RskToTapTransferBatchStatus.finalized;
              sending_result = some result;
            }))
  unfolding transaction
  process_current_transfer_batch_paid result at created sent =
      let f : RskToTapTransferBatch → RskToTapTransferBatch =
        λ b. record b { status = RskToTapTransferBatchStatus.sending_to_tap } in
      let g : RskToTapTransferBatch → RskToTapTransferBatch = λ b. record b {
        status = RskToTapTransferBatchStatus.sent_to_tap;
        sending_result = some result;
      } in
      let h : RskToTapTransferBatch → RskToTapTransferBatch =
        λ b. record b { status = RskToTapTransferBatchStatus.finalized } in
      let rows = w.db.rsk_to_tap_batches in
      let sending = row_after b.id f (λ b. refl) rows b at in
      let paid = row_after b.id g (λ b. refl) (update_id (λ b. b.id) b.id f rows) (f b) sending in
      let closed =
        row_after b.id h (λ b. refl)
          (update_id (λ b. b.id) b.id g (update_id (λ b. b.id) b.id f rows)) (g (f b)) paid in
      rw (found, created) (ground (arith, at, created, sending, paid, closed, sent))
