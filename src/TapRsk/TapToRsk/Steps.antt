-- ===== src/TapRsk/TapToRsk/Steps.antt =====
-- The steps of a batch from Taproot assets to RSK that single changes of the state are.
use nbte_bridge.Prelude.{
  ℕ, suc, String, ◌≤◌, ◌≡◌, refl, ◌⊎◌, inl, inr, true, false, Option, none, some, List, [], length,
  ◌==◌, nat_eq, beq_refl, Option-cases, Bool-cases, arith,
}
use nbte_bridge.Rows.{find_id, find_id-update_id, find_id-append}
use nbte_bridge.Transactions.{emit}
use nbte_bridge.TapRsk.Models.{TapToRskTransferBatch, TapToRskTransferBatchStatus, TapToRskTransfer}
use nbte_bridge.TapRsk.External.{AcceptTransfer}
use nbte_bridge.TapRsk.World.{World, accepted}
use nbte_bridge.TapRsk.Machine.{
  Phase, BatchView, Run, here, next, opening, paying, Run-trans, IsSound, Run-IsSound,
}
use nbte_bridge.TapRsk.Payments.{rsk_payments, SameRskToTap, SameRskToTap-refl, SameRskToTap-trans}
use nbte_bridge.TapRsk.TapToRsk.Batches.{batch_limit, new_batch}
use nbte_bridge.TapRsk.TapToRsk.{add_batch, update_batch}
use nbte_bridge.TapRsk.TapToRsk.Tidy.{IsTidy, add_batch-IsTidy, update_batch-IsTidy}

abbrev pub phase_of_status : TapToRskTransferBatchStatus → Phase
phase_of_status TapToRskTransferBatchStatus.created = Phase.pending
phase_of_status TapToRskTransferBatchStatus.signatures_collected = Phase.pending
phase_of_status TapToRskTransferBatchStatus.sending_to_rsk = Phase.sending
phase_of_status TapToRskTransferBatchStatus.sent_to_rsk = Phase.sent
phase_of_status TapToRskTransferBatchStatus.mined = Phase.sent
phase_of_status TapToRskTransferBatchStatus.finalized = Phase.closed

abbrev pub batch_phase : Option TapToRskTransferBatch → Option Phase
batch_phase none = none
batch_phase (some b) = some (phase_of_status b.status)

abbrev pub batch_at : ℕ → World → Option TapToRskTransferBatch
batch_at i w = find_id (λ b. b.id) i w.db.tap_to_rsk_batches

abbrev pub view : ℕ → World → BatchView
view i w = record { phase = batch_phase (batch_at i w); payments = rsk_payments i w.effects }

-- Every batch is within what its phase allows: ten transactions once sending has started.
pub record IsPaidInBounds (w : World) : Type 0 where
  pub sound : (i : ℕ) → IsSound batch_limit (view i w)

-- From one world to another, every batch only took steps of the machine, the rows stay tidy, and the
-- other direction is as before.
pub record Follows (start w : World) : Type 0 where
  pub runs : (i : ℕ) → Run batch_limit (view i start) (view i w)
  pub tidy : IsTidy start → IsTidy w
  pub same : SameRskToTap start w

pub Follows-refl : (w : World) → Follows w w
Follows-refl w = record { runs = λ i. here; tidy = λ h. h; same = SameRskToTap-refl w }

pub Follows-trans : {u v w : World} → Follows u v → Follows v w → Follows u w
Follows-trans f g = record {
  runs = λ i. Run-trans batch_limit (f.runs i) (g.runs i);
  tidy = λ h. g.tidy (f.tidy h);
  same = SameRskToTap-trans f.same g.same;
}

pub Follows-IsPaidInBounds : {v w : World} → Follows v w → IsPaidInBounds v → IsPaidInBounds w
Follows-IsPaidInBounds f h = record { sound = λ i. Run-IsSound batch_limit (f.runs i) (h.sound i) }

-- A change of one batch's row is a run of that batch.
module _ (i : ℕ) (f : TapToRskTransferBatch → TapToRskTransferBatch) (w : World)
    (same_id : (b : TapToRskTransferBatch) → (f b).id ≡ b.id) (b : TapToRskTransferBatch)
    (at : batch_at i w ≡ some b) where
  pub update_batch-view :
      view i (update_batch i f w).1
      ≡ record (view i w) { phase = some (phase_of_status (f b).status) }
  update_batch-view = ground (
    arith,
    beq_refl i,
    find_id-update_id (λ (b : TapToRskTransferBatch). b.id) i i f same_id w.db.tap_to_rsk_batches,
  )

  pub update_batch-Follows :
      Run batch_limit (view i w) (record (view i w) { phase = some (phase_of_status (f b).status) })
      → Follows w (update_batch i f w).1
  update_batch-Follows steps = record {
    runs = λ j. run j (Bool-cases (i == j));
    tidy = update_batch-IsTidy i f w same_id;
    same = record { batches = refl; next_id = refl; transfers = refl; payments = λ i. refl };
  }
    where
      run :
          (j : ℕ)
          → (i == j ≡ true) ⊎ (i == j ≡ false)
          → Run batch_limit (view j w) (view j (update_batch i f w).1)
      run j (inl e) =
          let i_j : i ≡ j = (nat_eq.same_iff i j).0 e in
          let after : view j (update_batch i f w).1
              ≡ record (view i w) { phase = some (phase_of_status (f b).status) } =
            rw (← i_j) update_batch-view in
          rw (after, ← i_j) steps
      run j (inr e) =
          let after : view j (update_batch i f w).1 ≡ view j w = ground (
            arith,
            find_id-update_id (λ (b : TapToRskTransferBatch). b.id) i j f same_id
                w.db.tap_to_rsk_batches,
          ) in
          rw after here

pub add_batch-Follows :
    (hash : String) (ts : List TapToRskTransfer) (w : World)
    → length ts ≤ batch_limit
    → Follows w (add_batch hash ts w).1
add_batch-Follows hash ts w le = record {
  runs = λ j. run j (Option-cases (batch_at j w));
  tidy = add_batch-IsTidy hash ts w le;
  same = record { batches = refl; next_id = refl; transfers = refl; payments = λ i. refl };
}
  where
    run :
        (j : ℕ)
        → (batch_at j w ≡ none) ⊎ ((b : TapToRskTransferBatch) × (batch_at j w ≡ some b))
        → Run batch_limit (view j w) (view j (add_batch hash ts w).1)
    run j (inl e) =
        let row =
          find_id-append (λ (b : TapToRskTransferBatch). b.id) j w.db.tap_to_rsk_batches
            (new_batch w.db.next_tap_to_rsk_batch_id hash []) in
        elim (Bool-cases (w.db.next_tap_to_rsk_batch_id == j)) [
          | inl found ↦ next here (opening (ground arith) (ground arith))
          | inr other ↦
              let after : view j (add_batch hash ts w).1 ≡ view j w = ground arith in rw after here
        ]
    run j (inr (b, e)) =
        let row =
          find_id-append (λ (b : TapToRskTransferBatch). b.id) j w.db.tap_to_rsk_batches
            (new_batch w.db.next_tap_to_rsk_batch_id hash []) in
        let after : view j (add_batch hash ts w).1 ≡ view j w = ground arith in rw after here

pub accepted-Follows :
    (i n : ℕ) (call : AcceptTransfer) (w : World)
    → view i w ≡ record { phase = some Phase.sending; payments = n }
    → suc n ≤ batch_limit
    → Follows w (emit (accepted i call) w).1
accepted-Follows i n call w e le = record {
  runs = λ j. run j (Bool-cases (i == j));
  tidy = λ h. record {
    keyed = h.keyed;
    fresh = h.fresh;
    limited = h.limited;
    unreferenced = h.unreferenced;
  };
  same = record { batches = refl; next_id = refl; transfers = refl; payments = λ i. refl };
}
  where
    run :
        (j : ℕ)
        → (i == j ≡ true) ⊎ (i == j ≡ false)
        → Run batch_limit (view j w) (view j (emit (accepted i call) w).1)
    run j (inl same) =
        let i_j : i ≡ j = (nat_eq.same_iff i j).0 same in
        let phase : (view j w).phase ≡ some Phase.sending = rw (← i_j) (ground arith) in
        let paid : (view j w).payments ≡ n = rw (← i_j) (ground arith) in
        next here (paying phase (omega (arith, paid)) (ground arith))
    run j (inr other) =
        let after : view j (emit (accepted i call) w).1 ≡ view j w = ground arith in rw after here

-- The node took one transaction more.
pub accepted-view :
    (i n : ℕ) (call : AcceptTransfer) (w : World)
    → view i w ≡ record { phase = some Phase.sending; payments = n }
    → view i (emit (accepted i call) w).1 ≡ record { phase = some Phase.sending; payments = suc n }
accepted-view i n call w e = ground (arith, beq_refl i)
