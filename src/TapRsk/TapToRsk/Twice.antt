-- ===== src/TapRsk/TapToRsk/Twice.antt =====
-- A federator's answers to the leader of tap_to_rsk.py.
use nbte_bridge.Prelude.{
  String, ◌≡◌, Option, none, some, List, ◌==◌, nat_eq, string_eq, beq_refl, arith, inl, inr,
  Option-cases,
}
use nbte_bridge.Result.{ok, Result-cases}
use nbte_bridge.Rows.Keys.{first-keep_append}
use nbte_bridge.KeyValues.{find_value, put_value, find_value-put_value}
use nbte_bridge.Transactions.{transaction}
use nbte_bridge.TapRsk.Models.{SerializedTapToRskTransferBatch, TapToRskTransferBatch}
use nbte_bridge.TapRsk.External.{External, SignTransferBatchAnswer}
use nbte_bridge.TapRsk.World.{World}
use nbte_bridge.TapRsk.TapToRsk.Batches.{new_batch}
use nbte_bridge.TapRsk.TapToRsk.Signatures.{sign_transfers}
use nbte_bridge.TapRsk.TapToRsk.Answer.{
  existing_batch, answer_once, answer_sign_transfer_batch, answer_of,
}

module _ (ext again : External) (same : again.address ≡ ext.address)
    (question : SerializedTapToRskTransferBatch) (w : World) where
  -- A question whose hash is new: the answer is signed and stored, and found again.
  signed_twice :
      (signatures : List String)
      → sign_transfers ext question.transfers ≡ ok signatures
      → existing_batch question.hash w.db ≡ none
      → let after = (answer_once ext question none w).1 in
        (answer_once ext question none w ≡ (ok (answer_of ext signatures), after))
        × (answer_once again question none after ≡ (ok (answer_of ext signatures), after))
  unfolding transaction
  signed_twice signatures r e =
      let dict = put_value ext.address signatures question.signatures in
      let new = new_batch w.db.next_tap_to_rsk_batch_id question.hash dict in
      let stored =
        first-keep_append (λ (b : TapToRskTransferBatch). b.hash == question.hash)
          w.db.tap_to_rsk_batches new e (beq_refl question.hash) in
      let mine : find_value ext.address dict ≡ some signatures = ground (
        arith,
        find_value-put_value ext.address ext.address signatures question.signatures,
        beq_refl ext.address,
      ) in
      ground (arith, r, e, stored, mine, same)

  answer_once_twice :
      (o : Option (List String)) (answer : SignTransferBatchAnswer)
      → (answer_once ext question o w).0 ≡ ok answer
      → let after = (answer_once ext question o w).1 in
        answer_once again question o after ≡ (ok answer, after)
  unfolding transaction
  answer_once_twice (some signatures) answer h = ground (arith, same)
  answer_once_twice none answer h = elim (Option-cases (existing_batch question.hash w.db)) [
    | inr (b, e) ↦ elim (Option-cases (find_value ext.address b.signatures)) [
      | inl none_there ↦ ground (arith, same)
      | inr (signatures, found) ↦ ground (arith, same)
    ]
    | inl e ↦ elim (Result-cases (sign_transfers ext question.transfers)) [
      | inr (x, r) ↦ ground arith
      | inl (signatures, r) ↦ ground (arith, signed_twice signatures r e)
    ]
  ]

  -- When a federator has answered a question, the same question again gets the same answer and
  -- nothing is stored, whatever has become of its contract and of its signing by then (`again`,
  -- which need only have the same address and the same role): the answer is the stored one, and
  -- the batch is not signed again.
  pub answer_sign_transfer_batch_twice :
      (answer : SignTransferBatchAnswer)
      → again.is_leader ≡ ext.is_leader
      → (answer_sign_transfer_batch ext question w).0 ≡ ok answer
      → let after = (answer_sign_transfer_batch ext question w).1 in
        answer_sign_transfer_batch again question after ≡ (ok answer, after)
  unfolding answer_sign_transfer_batch
  answer_sign_transfer_batch_twice answer role h =
      ground
        (arith, same, role, answer_once_twice (find_value ext.address question.signatures) answer)
