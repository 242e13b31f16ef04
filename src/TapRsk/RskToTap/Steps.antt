-- ===== src/TapRsk/RskToTap/Steps.antt =====
-- The steps of a batch from RSK to Taproot assets that single changes of the state are.
use nbte_bridge.Prelude.{
  ℕ, String, ◌≡◌, refl, ◌⊎◌, true, false, Option, none, some, List, ◌==◌, nat_eq, Option-cases,
  Bool-cases, inl, inr, beq_refl, arith,
}
use nbte_bridge.Rows.{find_id, find_id-update_id, find_id-append}
use nbte_bridge.Transactions.{emit}
use nbte_bridge.TapRsk.Models.{RskToTapTransferBatch, RskToTapTransferBatchStatus, RskToTapTransfer}
use nbte_bridge.TapRsk.World.{World, assets_sent}
use nbte_bridge.TapRsk.Payments.{
  assets_payments, SameTapToRsk, SameTapToRsk-refl, SameTapToRsk-trans,
}
use nbte_bridge.TapRsk.Machine.{
  Phase, BatchView, Step, Run, here, next, opening, starting, paying, Run-trans, IsSound,
  Run-IsSound,
}
use nbte_bridge.TapRsk.RskToTap.{
  new_batch, add_batch, update_batch, is_created, is_sending, is_sent,
}

abbrev pub phase_of_status : RskToTapTransferBatchStatus → Phase
phase_of_status RskToTapTransferBatchStatus.created = Phase.pending
phase_of_status RskToTapTransferBatchStatus.sending_to_tap = Phase.sending
phase_of_status RskToTapTransferBatchStatus.sent_to_tap = Phase.sent
phase_of_status RskToTapTransferBatchStatus.finalized = Phase.closed

abbrev pub batch_phase : Option RskToTapTransferBatch → Option Phase
batch_phase none = none
batch_phase (some b) = some (phase_of_status b.status)

abbrev pub batch_at : ℕ → World → Option RskToTapTransferBatch
batch_at i w = find_id (λ b. b.id) i w.db.rsk_to_tap_batches

abbrev pub view : ℕ → World → BatchView
view i w = record { phase = batch_phase (batch_at i w); payments = assets_payments i w.effects }

-- Every batch is within what its phase allows.
pub record IsPaidOnce (w : World) : Type 0 where
  pub sound : (i : ℕ) → IsSound 1 (view i w)

-- From one world to another, every batch only took steps of the machine, and the other direction is
-- as before.
pub record Follows (start w : World) : Type 0 where
  pub runs : (i : ℕ) → Run 1 (view i start) (view i w)
  pub same : SameTapToRsk start w

pub Follows-refl : (w : World) → Follows w w
Follows-refl w = record { runs = λ i. here; same = SameTapToRsk-refl w }

pub Follows-trans : {u v w : World} → Follows u v → Follows v w → Follows u w
Follows-trans f g = record {
  runs = λ i. Run-trans 1 (f.runs i) (g.runs i);
  same = SameTapToRsk-trans f.same g.same;
}

pub Follows-IsPaidOnce : {v w : World} → Follows v w → IsPaidOnce v → IsPaidOnce w
Follows-IsPaidOnce f h = record { sound = λ i. Run-IsSound 1 (f.runs i) (h.sound i) }

-- A change of one batch's row is a step of that batch.
pub update_batch-Follows :
    (i : ℕ) (f : RskToTapTransferBatch → RskToTapTransferBatch) (w : World)
    → ((b : RskToTapTransferBatch) → (f b).id ≡ b.id)
    → (b : RskToTapTransferBatch) → batch_at i w ≡ some b
    → Step 1 (view i w) (record (view i w) { phase = some (phase_of_status (f b).status) })
    → Follows w (update_batch i f w).1
update_batch-Follows i f w same b at step = record {
  runs = λ j. run j (Bool-cases (i == j));
  same = record { batches = refl; next_id = refl; transfers = refl; payments = λ i. refl };
}
  where
    run :
        (j : ℕ)
        → (i == j ≡ true) ⊎ (i == j ≡ false)
        → Run 1 (view j w) (view j (update_batch i f w).1)
    run j (inl e) =
        let i_j : i ≡ j = (nat_eq.same_iff i j).0 e in
        let after : view j (update_batch i f w).1
            ≡ record (view i w) { phase = some (phase_of_status (f b).status) } =
          ground (
            arith,
            find_id-update_id (λ (b : RskToTapTransferBatch). b.id) i j f same
                w.db.rsk_to_tap_batches,
          ) in
        rw (after, ← i_j) (next here step)
    run j (inr e) =
        let after : view j (update_batch i f w).1 ≡ view j w = ground (
          arith,
          find_id-update_id (λ (b : RskToTapTransferBatch). b.id) i j f same
              w.db.rsk_to_tap_batches,
        ) in
        rw after here

pub add_batch-Follows : (ts : List RskToTapTransfer) (w : World) → Follows w (add_batch ts w).1
add_batch-Follows ts w = record {
  runs = λ j. run j (Option-cases (batch_at j w));
  same = record { batches = refl; next_id = refl; transfers = refl; payments = λ i. refl };
}
  where
    run :
        (j : ℕ)
        → (batch_at j w ≡ none) ⊎ ((b : RskToTapTransferBatch) × (batch_at j w ≡ some b))
        → Run 1 (view j w) (view j (add_batch ts w).1)
    run j (inl e) =
        let row =
          find_id-append (λ (b : RskToTapTransferBatch). b.id) j w.db.rsk_to_tap_batches
            (new_batch w.db.next_rsk_to_tap_batch_id) in
        elim (Bool-cases (w.db.next_rsk_to_tap_batch_id == j)) [
          | inl same ↦ next here (opening (ground arith) (ground arith))
          | inr other ↦
              let after : view j (add_batch ts w).1 ≡ view j w = ground arith in rw after here
        ]
    run j (inr (b, e)) =
        let row =
          find_id-append (λ (b : RskToTapTransferBatch). b.id) j w.db.rsk_to_tap_batches
            (new_batch w.db.next_rsk_to_tap_batch_id) in
        let after : view j (add_batch ts w).1 ≡ view j w = ground arith in rw after here

pub is_created-phase :
    (s : RskToTapTransferBatchStatus) → is_created s ≡ true → phase_of_status s ≡ Phase.pending
is_created-phase s h = ground arith

pub is_sending-phase :
    (s : RskToTapTransferBatchStatus) → is_sending s ≡ true → phase_of_status s ≡ Phase.sending
is_sending-phase s h = ground arith

pub is_sent-phase :
    (s : RskToTapTransferBatchStatus) → is_sent s ≡ true → phase_of_status s ≡ Phase.sent
is_sent-phase s h = ground arith

abbrev pub set_sending : RskToTapTransferBatch → RskToTapTransferBatch
set_sending b = record b { status = RskToTapTransferBatchStatus.sending_to_tap }

pub started :
    (i : ℕ) (b : RskToTapTransferBatch) (w : World)
    → IsPaidOnce w
    → batch_at i w ≡ some b
    → is_created b.status ≡ true
    → Follows w (update_batch i set_sending w).1
      × (view i (update_batch i set_sending w).1
          ≡ record { phase = some Phase.sending; payments = 0 })
started i b w h at created =
    let p = is_created-phase b.status created in
    let unpaid : assets_payments i w.effects ≡ 0 = ground (arith, h.sound i) in
    let row =
      find_id-update_id (λ (b : RskToTapTransferBatch). b.id) i i set_sending (λ b. refl)
        w.db.rsk_to_tap_batches in
    (
      update_batch-Follows i set_sending w (λ b. refl) b at (starting (ground arith) refl),
      ground (arith, beq_refl i),
    )

pub paid-Follows :
    (i : ℕ) (recipients : List String) (w : World)
    → view i w ≡ record { phase = some Phase.sending; payments = 0 }
    → Follows w (emit (assets_sent i recipients) w).1
paid-Follows i recipients w e = record {
  runs = λ j. run j (Bool-cases (i == j));
  same = record { batches = refl; next_id = refl; transfers = refl; payments = λ i. refl };
}
  where
    run :
        (j : ℕ)
        → (i == j ≡ true) ⊎ (i == j ≡ false)
        → Run 1 (view j w) (view j (emit (assets_sent i recipients) w).1)
    run j (inl same) =
        let i_j : i ≡ j = (nat_eq.same_iff i j).0 same in
        let phase : (view j w).phase ≡ some Phase.sending = rw (← i_j) (ground arith) in
        let unpaid : (view j w).payments ≡ 0 = rw (← i_j) (ground arith) in
        next here (paying phase (omega (arith, unpaid)) (ground arith))
    run j (inr other) =
        let after : view j (emit (assets_sent i recipients) w).1 ≡ view j w = ground arith in
        rw after here
