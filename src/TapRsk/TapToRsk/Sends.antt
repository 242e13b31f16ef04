-- ===== src/TapRsk/TapToRsk/Sends.antt =====
-- What follows the start of the sending in `process_current_transfer_batch` of tap_to_rsk.py, step by
-- step.
use nbte_bridge.Prelude.{
  ℕ, suc, ◌+◌, String, ◌≤◌, ◌≡◌, refl, ap, inl, inr, not, some, List, [], ◌∷◌, length, Option-cases,
  nat_eq, arith,
}
use nbte_bridge.Result.{raise_if, value_error}
use nbte_bridge.Proc.Hoare.{Post, Post-bind, Post-lift, Post-map}
use nbte_bridge.Transactions.{transaction, emit}
use nbte_bridge.TapRsk.Models.{TapToRskTransferBatch, TapToRskTransferBatchStatus}
use nbte_bridge.TapRsk.External.{External, AcceptTransfer}
use nbte_bridge.TapRsk.World.{World, accepted}
use nbte_bridge.TapRsk.Machine.{Phase, here, next, completing, closing}
use nbte_bridge.TapRsk.TapToRsk.Batches.{batch_limit}
use nbte_bridge.TapRsk.TapToRsk.{
  start_sending, send_calls, mark_sent, last_hash, read_tx_hash, confirm, mark_finalized,
  send_batch, send_if_collected, update_batch,
}
use nbte_bridge.TapRsk.TapToRsk.Tidy.{IsTidy}
use nbte_bridge.TapRsk.TapToRsk.Steps.{
  phase_of_status, batch_at, view, IsPaidInBounds, Follows, Follows-trans, update_batch-Follows,
  update_batch-view, accepted-Follows, accepted-view,
}
use nbte_bridge.TapRsk.TapToRsk.Stores.{IsPending, start_sending-Follows}

module _ (ext : External) (i : ℕ) where
  send_calls-Follows :
      (calls : List AcceptTransfer) (n : ℕ) (start w : World)
      → Follows start w
      → view i w ≡ record { phase = some Phase.sending; payments = n }
      → n + length calls ≤ batch_limit
      → Post
          (λ _ t. Follows start t × ((view i t).phase ≡ some Phase.sending))
          (Follows start)
          (send_calls ext i calls w)
  send_calls-Follows [] n start w f e le = (f, ap (λ v. v.phase) e)
  send_calls-Follows (call ∷ calls) n start w f e le =
      Post-lift _ _ (ext.accept_transfer_from_tap call) _ w f (λ tx_hash _.
        Post-bind _ _ _ (send_calls ext i calls (emit (accepted i call) w).1) _
          (send_calls-Follows calls (suc n) start (emit (accepted i call) w).1
            (Follows-trans f (accepted-Follows i n call w e (omega arith)))
            (accepted-view i n call w e) (omega arith))
          (λ hashes t k. k))

  -- A row is there where its batch has a phase.
  row_of_phase :
      (w : World) (p : Phase)
      → (view i w).phase ≡ some p
      → (b : TapToRskTransferBatch) × (batch_at i w ≡ some b) × (phase_of_status b.status ≡ p)
  row_of_phase w p e = elim (Option-cases (batch_at i w)) [
    | inl none_there ↦ ground arith
    | inr (b, at) ↦ (b, at, ground arith)
  ]

  abbrev set_sent : String → TapToRskTransferBatch → TapToRskTransferBatch
  set_sent hash b = record b {
    status = TapToRskTransferBatchStatus.sent_to_rsk;
    executed_tx_hash = some hash;
  }

  mark_sent-Follows :
      (hashes : List String) (start w : World)
      → Follows start w
      → (view i w).phase ≡ some Phase.sending
      → Post
          (λ _ t. Follows start t × ((view i t).phase ≡ some Phase.sent))
          (Follows start)
          (mark_sent ext i hashes w)
  unfolding transaction
  mark_sent-Follows hashes start w f e =
      let (b, at, p) = row_of_phase w Phase.sending e in
      elim (Option-cases (last_hash hashes)) [
        | inl e ↦ ground (arith, at, f)
        | inr (hash, e) ↦ let done = sent hash b at p in ground (arith, at, f)
      ]
    where
      sent :
          (hash : String) (b : TapToRskTransferBatch)
          → batch_at i w ≡ some b
          → phase_of_status b.status ≡ Phase.sending
          → Follows start (update_batch i (set_sent hash) w).1
            × ((view i (update_batch i (set_sent hash) w).1).phase ≡ some Phase.sent)
      sent hash b at p = (
        Follows-trans f (
            update_batch-Follows i (set_sent hash) w (λ b. refl) b at
              (next here (completing (ground arith) refl))),
        ap (λ v. v.phase) (update_batch-view i (set_sent hash) w (λ b. refl) b at),
      )

  mark_finalized-Follows :
      (start w : World)
      → Follows start w
      → (view i w).phase ≡ some Phase.sent
      → Post (λ _ t. Follows start t) (Follows start) (mark_finalized ext i w)
  unfolding transaction
  mark_finalized-Follows start w f e =
      let (b, at, p) = row_of_phase w Phase.sent e in
      let g : TapToRskTransferBatch → TapToRskTransferBatch =
        λ b. record b { status = TapToRskTransferBatchStatus.finalized } in
      let closed =
        Follows-trans f
          (update_batch-Follows i g w (λ b. refl) b at (next here (closing (ground arith) refl))) in
      ground (arith, at, closed)

  read_tx_hash-same :
      {start : World} (w : World)
      → Follows start w
      → Post (λ _ t. t ≡ w) (Follows start) (read_tx_hash ext i w)
  unfolding transaction
  read_tx_hash-same w f = ground arith

  pub confirm-Follows :
      (start w : World)
      → Follows start w
      → (view i w).phase ≡ some Phase.sent
      → Post (λ _ t. Follows start t) (Follows start) (confirm ext i w)
  unfolding transaction
  confirm-Follows start w f e =
      Post-bind (λ _ t. t ≡ w) (λ _ t. Follows start t) (Follows start) (read_tx_hash ext i w) _
        (read_tx_hash-same w f)
        (λ hash t k. rw k (
          Post-lift _ _ (ext.wait_for_transaction_receipt hash) _ w f (λ status _.
            Post-lift _ _ (raise_if (not status) value_error) _ w f
              (λ _ _. mark_finalized-Follows start w f e))))

  pub send_batch-Follows :
      (signatures : List (String × List String)) (b : TapToRskTransferBatch) (start w : World)
      → Follows start w
      → IsTidy w
      → IsPaidInBounds w
      → batch_at i w ≡ some b
      → IsPending b.status
      → Post (λ _ t. Follows start t) (Follows start) (send_batch ext i signatures w)
  send_batch-Follows signatures b start w f h sound at p =
      Post-bind _ (λ _ t. Follows start t) (Follows start) (start_sending ext i signatures w) _
        (Post-map _ _
          (λ calls t.
            Follows start t
            × (view i t ≡ record { phase = some Phase.sending; payments = 0 })
            × (length calls ≤ batch_limit))
          (Follows start) _ (start_sending-Follows ext i signatures b w h sound at p)
          (λ calls t k. (Follows-trans f k.0, k.1, k.2)) (λ t g. Follows-trans f g))
        (λ calls t k.
          Post-bind _ (λ _ t. Follows start t) (Follows start) (send_calls ext i calls t) _
            (send_calls-Follows calls 0 start t k.0 k.1 (omega (arith, k.2)))
            (λ hashes u l.
              Post-bind _ (λ _ t. Follows start t) (Follows start) (mark_sent ext i hashes u) _
                (mark_sent-Follows hashes start u l.0 l.1)
                (λ _ v m. confirm-Follows start v m.0 m.1)))

  pub send_if_collected-Follows :
      (signatures : List (String × List String)) (s : TapToRskTransferBatchStatus)
      (b : TapToRskTransferBatch) (start w : World)
      → Follows start w
      → IsTidy w
      → IsPaidInBounds w
      → batch_at i w ≡ some b
      → IsPending b.status
      → Post (λ _ t. Follows start t) (Follows start) (send_if_collected ext i signatures s w)
  send_if_collected-Follows signatures TapToRskTransferBatchStatus.signatures_collected b start w f
        h sound at p =
      send_batch-Follows signatures b start w f h sound at p
  send_if_collected-Follows signatures _ b start w f h sound at p = f
