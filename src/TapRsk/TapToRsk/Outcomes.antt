-- ===== src/TapRsk/TapToRsk/Outcomes.antt =====
-- What `process_current_transfer_batch` of tap_to_rsk.py does with the batch that it finds.
use nbte_bridge.Prelude.{
  ℕ, ◌≤◌, String, ◌≡◌, refl, ap, ◌∙◌, true, some, List, [], ◌∷◌, nat_eq, arith, length, leb, ◌-◌,
}
use nbte_bridge.Result.{ok, err, index_error}
use nbte_bridge.Rows.{found_updated, update_id}
use nbte_bridge.Transactions.{transaction}
use nbte_bridge.TapRsk.Models.{
  TapToRskTransfer, TapToRskTransferBatch, TapToRskTransferBatchStatus,
  SerializedTapToRskTransferBatch,
}
use nbte_bridge.TapRsk.External.{External}
use nbte_bridge.TapRsk.World.{Db, World}
use nbte_bridge.TapRsk.TapToRsk.Batches.{current_batch, batch_transfers, serialize_batch}
use nbte_bridge.TapRsk.TapToRsk.{
  Current, ask_signatures, send_batch, update_batch, get_or_create_current_batch,
  process_current_transfer_batch, process_status,
}
use nbte_bridge.TapRsk.TapToRsk.Signatures.{collect_signatures, accept_transfer_calls, zip_rows}
use nbte_bridge.TapRsk.TapToRsk.Steps.{batch_at}

no_calls :
    (ext : External) (db : Db) (ts : List TapToRskTransfer)
    → accept_transfer_calls ext db ts [] ≡ ok []
unfolding zip_rows
no_calls ext db [] = refl
no_calls ext db (t ∷ ts) = refl

abbrev left_sending : TapToRskTransferBatch → TapToRskTransferBatch
left_sending b = record b { status = TapToRskTransferBatchStatus.sending_to_rsk }

send_batch_unsigned :
    (ext : External) (i : ℕ) (v : World) (b : TapToRskTransferBatch)
    → batch_at i v ≡ some b
    → send_batch ext i [] v ≡ (err index_error, (update_batch i left_sending v).1)
unfolding transaction
send_batch_unsigned ext i v b at =
    let none_made = no_calls ext v.db (batch_transfers i v.db) in
    let sending =
      found_updated (λ (b : TapToRskTransferBatch). b.id) i left_sending (λ b. refl)
        v.db.tap_to_rsk_batches b at in
    ground (arith, at, none_made, sending)

module _ (ext : External) (w : World) (b : TapToRskTransferBatch)
    (serialized : SerializedTapToRskTransferBatch) (current : current_batch w.db ≡ some b)
    (serializes : serialize_batch ext w.db b ≡ ok serialized) where
  abbrev read : Current
  read = record {
    batch = b;
    num_transfers = length (batch_transfers b.id w.db);
    serialized_batch = serialized;
  }

  found : process_current_transfer_batch ext w ≡ process_status ext read b.status w
  unfolding process_current_transfer_batch get_or_create_current_batch transaction
  found = simp (current, serializes)

  -- If the contract requires at most one signer, and the first batch that is not finalized is CREATED
  -- without signatures and the row that its id finds, and can be serialized, and no node answers, then a call raises an IndexError; nothing was sent, and yet
  -- the batch is left in SENDING_TO_RSK.
  pub process_current_transfer_batch_unsigned :
      (federators : List String) (required : ℕ)
      → batch_at b.id w ≡ some b
      → b.status ≡ TapToRskTransferBatchStatus.created
      → b.signatures ≡ []
      → ext.get_federators ≡ ok federators
      → ext.num_required_signers ≡ ok required
      → required ≤ 1
      → ext.ask serialized ≡ ok []
      → let (r, t) = process_current_transfer_batch ext w in
        (r ≡ err index_error)
        × (t.effects ≡ w.effects)
        × (batch_at b.id t
            ≡ some (record b { status = TapToRskTransferBatchStatus.sending_to_rsk }))
  unfolding transaction collect_signatures zip_rows
  process_current_transfer_batch_unsigned federators required at created unsigned e1 e2 le e3 =
      let f : TapToRskTransferBatch → TapToRskTransferBatch = λ b. record b {
        status = TapToRskTransferBatchStatus.signatures_collected;
        signatures = [];
      } in
      let rows = w.db.tap_to_rsk_batches in
      let collected =
        found_updated (λ (b : TapToRskTransferBatch). b.id) b.id f (λ b. refl) rows b at in
      let sending =
        found_updated (λ (b : TapToRskTransferBatch). b.id) b.id left_sending (λ b. refl)
          (update_id (λ b. b.id) b.id f rows) (f b) collected in
      let sent = send_batch_unsigned ext b.id (update_batch b.id f w).1 (f b) collected in
      let enough : leb (required - 1) 0 ≡ true = ground arith in
      let asked : ask_signatures ext read w ≡ send_batch ext b.id [] (update_batch b.id f w).1 =
        simp (e1, e2, e3, unsigned, enough, at) in
      let row : some (left_sending (f b)) ≡ some (left_sending b) = ground (arith, unsigned) in
      let whole = found ∙ ap (λ s. process_status ext read s w) created ∙ asked ∙ sent in
      rw whole (refl, refl, sending ∙ row)
