-- ===== src/TapRsk/TapToRsk/Refines.antt =====
-- `process_current_transfer_batch` implements the promise of a batch with at most ten transactions,
-- whatever the contract and the other nodes answer and wherever it raises.
use nbte_bridge.Prelude.{◌-◌, ◌≡◌, refl, Option, none, some, nat_eq, arith}
use nbte_bridge.Proc.Hoare.{Post, Post-bind, Post-lift, Post-map}
use nbte_bridge.TapRsk.Models.{TapToRskTransferBatchStatus}
use nbte_bridge.TapRsk.External.{External}
use nbte_bridge.TapRsk.World.{World}
use nbte_bridge.TapRsk.TapToRsk.Signatures.{collect_signatures}
use nbte_bridge.TapRsk.TapToRsk.{
  Current, read_current, store_signatures, ask_signatures, process_status, process_batch,
  process_current_transfer_batch,
}
use nbte_bridge.TapRsk.TapToRsk.Tidy.{IsTidy}
use nbte_bridge.TapRsk.TapToRsk.Steps.{
  batch_at, IsPaidInBounds, Follows, Follows-trans, Follows-IsPaidInBounds,
}
use nbte_bridge.TapRsk.TapToRsk.Reads.{IsRead, read_current-Follows}
use nbte_bridge.TapRsk.TapToRsk.Stores.{AfterSignatures, IsPending, store_signatures-pending}
use nbte_bridge.TapRsk.TapToRsk.Sends.{
  confirm-Follows, send_batch-Follows, send_if_collected-Follows,
}

module _ (ext : External) where
  ask_signatures-Follows :
      (c : Current) (start w : World)
      → Follows start w
      → IsTidy w
      → IsPaidInBounds w
      → batch_at c.batch.id w ≡ some c.batch
      → IsPending c.batch.status
      → Post (λ _ t. Follows start t) (Follows start) (ask_signatures ext c w)
  ask_signatures-Follows c start w f h sound at p =
      Post-lift _ _ ext.get_federators _ w f (λ federators _.
        Post-lift _ _ ext.num_required_signers _ w f (λ required _.
          Post-lift _ _ (ext.ask c.serialized_batch) _ w f (λ responses _.
            Post-lift _ _
              (collect_signatures ext federators c.num_transfers c.serialized_batch.transfers
                responses c.batch.signatures)
              _ w f
              (λ signatures _.
                Post-bind _ (λ _ t. Follows start t) (Follows start)
                  (store_signatures ext c.batch.id (required - 1) signatures w) _
                  (Post-map _ _ (λ s t. Follows start t × AfterSignatures ext c.batch.id w s t)
                    (Follows start) _
                    (store_signatures-pending ext c.batch.id (required - 1) signatures c.batch w at
                      p)
                    (λ s t k. (Follows-trans f k.0, k)) (λ t g. Follows-trans f g))
                  (λ s t k.
                    let (g, (l, (b, at_b, q))) = k in
                    send_if_collected-Follows ext c.batch.id signatures s b start t g (l.tidy h)
                      (Follows-IsPaidInBounds l sound) at_b q)))))

  process_status-Follows :
      (c : Current) (s : TapToRskTransferBatchStatus) (start w : World)
      → c.batch.status ≡ s
      → Follows start w
      → IsTidy w
      → IsPaidInBounds w
      → batch_at c.batch.id w ≡ some c.batch
      → Post (λ _ t. Follows start t) (Follows start) (process_status ext c s w)
  process_status-Follows c TapToRskTransferBatchStatus.created start w e f h sound at =
      ask_signatures-Follows c start w f h sound at (rw e refl)
  process_status-Follows c TapToRskTransferBatchStatus.signatures_collected start w e f h sound at =
      send_batch-Follows ext c.batch.id c.batch.signatures c.batch start w f h sound at (rw e refl)
  process_status-Follows c TapToRskTransferBatchStatus.sending_to_rsk start w e f h sound at = f
  process_status-Follows c TapToRskTransferBatchStatus.sent_to_rsk start w e f h sound at =
      confirm-Follows ext c.batch.id start w f (ground arith)
  process_status-Follows c TapToRskTransferBatchStatus.mined start w e f h sound at = f
  process_status-Follows c TapToRskTransferBatchStatus.finalized start w e f h sound at = f

  process_batch-Follows :
      (c : Option Current) (start w : World)
      → Follows start w
      → IsTidy w
      → IsPaidInBounds w
      → IsRead c w
      → Post (λ _ t. Follows start t) (Follows start) (process_batch ext c w)
  process_batch-Follows none start w f h sound e = f
  process_batch-Follows (some c) start w f h sound e =
      process_status-Follows c c.batch.status start w refl f h sound e

  -- From a world with tidy rows in which every batch is within what its phase allows, a call of
  -- `process_current_transfer_batch` takes every batch through steps of the machine with ten
  -- transactions, keeps the rows tidy and leaves the other direction as it is, whatever the contract,
  -- the node and the other nodes answer, returning or raising.
  pub process_current_transfer_batch-Follows :
      (w : World)
      → IsTidy w
      → IsPaidInBounds w
      → Post (λ _ t. Follows w t) (Follows w) (process_current_transfer_batch ext w)
  unfolding process_current_transfer_batch
  process_current_transfer_batch-Follows w h sound =
      Post-bind (λ c t. Follows w t × IsRead c t) (λ _ t. Follows w t) (Follows w)
        (read_current ext w) _ (read_current-Follows ext w h)
        (λ c t k.
          process_batch-Follows c w t k.0 (k.0.tidy h) (Follows-IsPaidInBounds k.0 sound) k.1)
