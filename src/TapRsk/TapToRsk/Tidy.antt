-- ===== src/TapRsk/TapToRsk/Tidy.antt =====
-- The rows of the direction from Taproot assets to RSK: the ids of batches are distinct, no transfer
-- refers to an id that is not given out yet, and at most ten transfers refer to one batch.
use nbte_bridge.Prelude.{
  ℕ, String, ◌∙◌, suc, ◌+◌, ◌≤◌, ◌≡◌, refl, some, List, [], ◌∷◌, keep, length, insert_by, sort_by,
  ◌==◌, nat_eq, if◌then◌else◌, Bool, arith,
}
use nbte_bridge.Rows.{update_id}
use nbte_bridge.Rows.Keys.{count_id, count_id-append, count_id-update_id}
use nbte_bridge.TapRsk.Models.{TapToRskTransfer, TapToRskTransferBatch, refers_to}
use nbte_bridge.TapRsk.World.{Db, World}
use nbte_bridge.TapRsk.TapToRsk.Batches.{
  transfer_le, batch_limit, batch_transfers, assign_transfers, new_batch,
}
use nbte_bridge.TapRsk.TapToRsk.{add_batch, update_batch}

abbrev pub count_refs : ℕ → List TapToRskTransfer → ℕ
count_refs i [] = 0
count_refs i (t ∷ ts) =
    if refers_to i t.transfer_batch_id then suc (count_refs i ts) else count_refs i ts

pub record IsTidy (w : World) : Type 0 where
  pub keyed : (i : ℕ) → count_id (λ b. b.id) i w.db.tap_to_rsk_batches ≤ 1
  pub fresh :
      (i : ℕ)
      → w.db.next_tap_to_rsk_batch_id ≤ i
      → count_id (λ b. b.id) i w.db.tap_to_rsk_batches ≡ 0
  pub limited : (i : ℕ) → count_refs i w.db.tap_to_rsk_transfers ≤ batch_limit
  pub unreferenced :
      (i : ℕ) → w.db.next_tap_to_rsk_batch_id ≤ i → count_refs i w.db.tap_to_rsk_transfers ≡ 0

module _ {A : Type 0} (le : A → A → Bool) where
  length-insert_by : (x : A) (xs : List A) → length (insert_by le x xs) ≡ suc (length xs)
  length-insert_by x [] = refl
  length-insert_by x (y ∷ ys) = ground (arith, length-insert_by x ys)

  pub length-sort_by : (xs : List A) → length (sort_by le xs) ≡ length xs
  length-sort_by [] = refl
  length-sort_by (x ∷ xs) = ground (arith, length-insert_by x (sort_by le xs), length-sort_by xs)

length-keep_refs :
    (i : ℕ) (ts : List TapToRskTransfer)
    → length (keep (λ t. refers_to i t.transfer_batch_id) ts) ≡ count_refs i ts
length-keep_refs i [] = refl
length-keep_refs i (t ∷ ts) = ground (arith, length-keep_refs i ts)

pub length-batch_transfers :
    (i : ℕ) (db : Db) → length (batch_transfers i db) ≡ count_refs i db.tap_to_rsk_transfers
length-batch_transfers i db =
    length-sort_by transfer_le
      (keep (λ (t : TapToRskTransfer). refers_to i t.transfer_batch_id) db.tap_to_rsk_transfers)
    ∙ length-keep_refs i db.tap_to_rsk_transfers

-- One reference more, for one batch.
count_refs-update_id :
    (i j k : ℕ) (rows : List TapToRskTransfer)
    → count_refs j (update_id (λ r. r.db_id) k (λ r. record r { transfer_batch_id = some i }) rows)
      ≤ count_refs j rows + (if i == j then 1 else 0)
count_refs-update_id i j k [] = ground arith
count_refs-update_id i j k (r ∷ rs) =
    ground (arith, count_refs-update_id i j k rs, (nat_eq.same_iff i j).0, (nat_eq.same_iff j i).0)

count_refs-assign_transfers :
    (i j : ℕ) (ts rows : List TapToRskTransfer)
    → count_refs j (assign_transfers i ts rows)
      ≤ count_refs j rows + (if i == j then length ts else 0)
count_refs-assign_transfers i j [] rows = ground arith
count_refs-assign_transfers i j (t ∷ ts) rows = ground (
  arith,
  count_refs-update_id i j t.db_id rows,
  count_refs-assign_transfers i j ts
      (update_id (λ r. r.db_id) t.db_id (λ r. record r { transfer_batch_id = some i }) rows),
)

pub add_batch-IsTidy :
    (hash : String) (ts : List TapToRskTransfer) (w : World)
    → length ts ≤ batch_limit
    → IsTidy w
    → IsTidy (add_batch hash ts w).1
add_batch-IsTidy hash ts w le h = record {
  keyed = λ i.
      ground
        (arith, row i, h.keyed i, h.fresh i, (nat_eq.same_iff w.db.next_tap_to_rsk_batch_id i).0);
  fresh =
      λ i lt. ground (arith, row i, h.fresh i, (nat_eq.same_iff w.db.next_tap_to_rsk_batch_id i).0);
  limited = λ i. ground (
    arith,
    refs i,
    h.limited i,
    h.unreferenced i,
    (nat_eq.same_iff w.db.next_tap_to_rsk_batch_id i).0,
  );
  unreferenced = λ i lt.
      ground (arith, refs i, h.unreferenced i, (nat_eq.same_iff w.db.next_tap_to_rsk_batch_id i).0);
}
  where
    row :
        (i : ℕ)
        → count_id (λ b. b.id) i (add_batch hash ts w).1.db.tap_to_rsk_batches
          ≡ count_id (λ b. b.id) i w.db.tap_to_rsk_batches
            + (if w.db.next_tap_to_rsk_batch_id == i then 1 else 0)
    row i =
        count_id-append (λ (b : TapToRskTransferBatch). b.id) i w.db.tap_to_rsk_batches
          (new_batch w.db.next_tap_to_rsk_batch_id hash [])

    refs :
        (i : ℕ)
        → count_refs i (add_batch hash ts w).1.db.tap_to_rsk_transfers
          ≤ count_refs i w.db.tap_to_rsk_transfers
            + (if w.db.next_tap_to_rsk_batch_id == i then length ts else 0)
    refs i =
        count_refs-assign_transfers w.db.next_tap_to_rsk_batch_id i ts w.db.tap_to_rsk_transfers

pub update_batch-IsTidy :
    (i : ℕ) (f : TapToRskTransferBatch → TapToRskTransferBatch) (w : World)
    → ((b : TapToRskTransferBatch) → (f b).id ≡ b.id)
    → IsTidy w
    → IsTidy (update_batch i f w).1
update_batch-IsTidy i f w same h = record {
  keyed = λ j. ground (
    arith,
    count_id-update_id (λ (b : TapToRskTransferBatch). b.id) i j f same w.db.tap_to_rsk_batches,
    h.keyed j,
  );
  fresh = λ j lt. ground (
    arith,
    count_id-update_id (λ (b : TapToRskTransferBatch). b.id) i j f same w.db.tap_to_rsk_batches,
    h.fresh j lt,
  );
  limited = h.limited;
  unreferenced = h.unreferenced;
}
