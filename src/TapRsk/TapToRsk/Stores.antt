-- ===== src/TapRsk/TapToRsk/Stores.antt =====
-- The transactions of tap_to_rsk.py that store the signatures of a batch and start its sending.
use nbte_bridge.Prelude.{
  ℕ, String, ◌≤◌, ◌≡◌, refl, inl, inr, some, List, [], ◌∷◌, length, map, beq_refl, nat_eq, arith,
}
use nbte_bridge.Result.{ok, >>=-eq-ok, Result-cases}
use nbte_bridge.Proc.Hoare.{Post}
use nbte_bridge.Rows.{find_id-update_id}
use nbte_bridge.Transactions.{transaction}
use nbte_bridge.TapRsk.Models.{TapToRskTransferBatch, TapToRskTransferBatchStatus, TapToRskTransfer}
use nbte_bridge.TapRsk.External.{External, AcceptTransfer}
use nbte_bridge.TapRsk.World.{World, Db}
use nbte_bridge.TapRsk.Payments.{rsk_payments}
use nbte_bridge.TapRsk.TapToRsk.Signatures.{zip_rows, accept_calls, accept_transfer_calls}
use nbte_bridge.TapRsk.Machine.{Phase, here, next, starting}
use nbte_bridge.TapRsk.TapToRsk.Batches.{batch_limit, batch_transfers, deposit_address}
use nbte_bridge.TapRsk.TapToRsk.{store_signatures, start_sending, update_batch}
use nbte_bridge.TapRsk.TapToRsk.Tidy.{IsTidy, length-batch_transfers}
use nbte_bridge.TapRsk.TapToRsk.Steps.{
  phase_of_status, batch_at, view, IsPaidInBounds, Follows, Follows-refl, update_batch-Follows,
  update_batch-view,
}

length-accept_calls :
    (ext : External) (db : Db) (ts : List TapToRskTransfer) (columns : List (List String))
    {calls : List AcceptTransfer}
    → accept_calls ext db ts columns ≡ ok calls
    → length calls ≤ length ts
length-accept_calls ext db [] columns h = ground arith
length-accept_calls ext db (t ∷ ts) [] h = ground arith
length-accept_calls ext db (t ∷ ts) (c ∷ cs) {calls} h =
    let (deposit, e1, h1) = >>=-eq-ok (deposit_address db t) _ h in
    let (rest, e2, h2) = >>=-eq-ok (accept_calls ext db ts cs) _ h1 in
    ground (arith, length-accept_calls ext db ts cs e2)

-- A batch that is pending, with no transaction for it yet.
abbrev pub IsPending : TapToRskTransferBatchStatus → Type 0
IsPending s = phase_of_status s ≡ Phase.pending

module _ (ext : External) (i : ℕ) where
  -- What holds after the transaction that stores the signatures.
  abbrev pub AfterSignatures : World → TapToRskTransferBatchStatus → World → Type 0
  AfterSignatures start s t =
      Follows start t × ((b : TapToRskTransferBatch) × (batch_at i t ≡ some b) × IsPending b.status)

  stored-pending :
      (b : TapToRskTransferBatch) (f : TapToRskTransferBatch → TapToRskTransferBatch) (w : World)
      → ((b : TapToRskTransferBatch) → (f b).id ≡ b.id)
      → batch_at i w ≡ some b
      → IsPending b.status
      → IsPending (f b).status
      → AfterSignatures w (f b).status (update_batch i f w).1
  stored-pending b f w same at p q =
      let row =
        find_id-update_id (λ (b : TapToRskTransferBatch). b.id) i i f same
          w.db.tap_to_rsk_batches in
      let unchanged : record (view i w) { phase = some (phase_of_status (f b).status) } ≡ view i w =
        ground arith in
      (
        update_batch-Follows i f w same b at (rw unchanged here),
        (f b, ground (arith, beq_refl i), q),
      )

  pub store_signatures-pending :
      (required : ℕ) (signatures : List (String × List String)) (b : TapToRskTransferBatch)
      (w : World)
      → batch_at i w ≡ some b
      → IsPending b.status
      → Post
          (λ s t. AfterSignatures w s t)
          (Follows w)
          (store_signatures ext i required signatures w)
  unfolding transaction
  store_signatures-pending required signatures b w at p =
      let f : TapToRskTransferBatch → TapToRskTransferBatch = λ b. record b {
        status = TapToRskTransferBatchStatus.signatures_collected;
        signatures = signatures;
      } in
      let g : TapToRskTransferBatch → TapToRskTransferBatch =
        λ b. record b { signatures = signatures } in
      let collected = stored-pending b f w (λ b. refl) at p refl in
      let incomplete = stored-pending b g w (λ b. refl) at p p in
      ground (arith, at, collected, incomplete, Follows-refl w)

  pub start_sending-Follows :
      (signatures : List (String × List String)) (b : TapToRskTransferBatch) (w : World)
      → IsTidy w
      → IsPaidInBounds w
      → batch_at i w ≡ some b
      → IsPending b.status
      → Post
          (λ calls t.
            Follows w t
            × (view i t ≡ record { phase = some Phase.sending; payments = 0 })
            × (length calls ≤ batch_limit))
          (Follows w)
          (start_sending ext i signatures w)
  unfolding transaction
  start_sending-Follows signatures b w h sound at p =
      let f : TapToRskTransferBatch → TapToRskTransferBatch =
        λ b. record b { status = TapToRskTransferBatchStatus.sending_to_rsk } in
      let ts = batch_transfers i w.db in
      let follows =
        update_batch-Follows i f w (λ b. refl) b at (next here (starting (ground arith) refl)) in
      let seen = update_batch-view i f w (λ b. refl) b at in
      let unpaid : rsk_payments i w.effects ≡ 0 = ground (arith, sound.sound i) in
      let viewed : view i (update_batch i f w).1
          ≡ record { phase = some Phase.sending; payments = 0 } =
        ground arith in
      elim (Result-cases (accept_transfer_calls ext w.db ts (map (λ p. p.1) signatures))) [
        | inl (calls, e) ↦
            let few : length calls ≤ batch_limit = omega (
              arith,
              length-accept_calls ext w.db ts (zip_rows (map (λ p. p.1) signatures)) e,
              length-batch_transfers i w.db,
              h.limited i,
            ) in
            ground arith
        | inr (er, e) ↦ ground (arith, Follows-refl w)
      ]
