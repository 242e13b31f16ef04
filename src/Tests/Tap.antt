-- ===== src/Tests/Tap.antt =====
-- The bridge between Taproot assets and RSK with a batch in either direction, and nodes that answer.
use nbte_bridge.Prelude.{String, ◌≤◌, ◌≡◌, refl, ◌⊎◌, true, false, none, some, List, [], ◌∷◌, arith}
use nbte_bridge.Result.{ok, err, value_error, index_error, lookup_error}
use nbte_bridge.KeyValues.{find_value}
use nbte_bridge.Transactions.{transaction}
use nbte_bridge.TapRsk.Models.{
  RskToTapTransferBatch, RskToTapTransferBatchStatus, TapToRskTransferBatch,
  TapToRskTransferBatchStatus, SerializedTapToRskTransfer, SerializedTapToRskTransferBatch,
}
use nbte_bridge.TapRsk.External.{External, SignTransferBatchAnswer}
use nbte_bridge.TapRsk.World.{World, assets_sent}
use nbte_bridge.TapRsk.Machine.{IsDone, IsUnsent}
use nbte_bridge.TapRsk.Payments.{assets_payments, rsk_payments}
use nbte_bridge.TapRsk.RskToTap
use nbte_bridge.TapRsk.RskToTap.Steps as ToTap
use nbte_bridge.TapRsk.RskToTap.Outcomes
use nbte_bridge.TapRsk.TapToRsk
use nbte_bridge.TapRsk.TapToRsk.Batches.{batch_limit}
use nbte_bridge.TapRsk.TapToRsk.Signatures.{is_valid_response, collect_signatures}
use nbte_bridge.TapRsk.TapToRsk.Answer.{answer_sign_transfer_batch}
use nbte_bridge.TapRsk.TapToRsk.Steps
use nbte_bridge.TapRsk.TapToRsk.Signed.{IsSigned, collect_signatures-IsSigned}
use nbte_bridge.TapRsk.TapToRsk.Twice.{answer_sign_transfer_batch_twice}
use nbte_bridge.TapRsk.TapToRsk.Outcomes as TapOutcomes
use nbte_bridge.TapRsk.Bridge.{Answers, run_iterations}
use nbte_bridge.TapRsk.Bridge.Advances.{IsSafe, Advances}
use nbte_bridge.TapRsk.Bridge.Safe.{run_iterations-Advances, run_iterations_bounded}

abbrev to_tap : RskToTapTransferBatch
to_tap = record { id = 1; status = RskToTapTransferBatchStatus.created; sending_result = none }

abbrev to_rsk : TapToRskTransferBatch
to_rsk = record {
  id = 1;
  hash = "batch";
  status = TapToRskTransferBatchStatus.created;
  signatures = [];
  executed_tx_hash = none;
}

abbrev pub world : World
world = record {
  db = record {
    rsk_to_tap_batches = to_tap ∷ [];
    next_rsk_to_tap_batch_id = 2;
    tap_to_rsk_batches = to_rsk ∷ [];
    next_tap_to_rsk_batch_id = 2;
    deposit_addresses =
        record {
          id = 1;
          rsk_address = "user";
          tap_address = "deposit address";
          tap_asset_id = "asset";
          rsk_token_address = "token";
          tap_amount = 2;
          rsk_amount = 20;
        }
        ∷ [];
    next_deposit_address_id = 2;
    rsk_to_tap_transfers =
        record {
          db_id = 1;
          counter = 1;
          recipient_tap_address = "recipient";
          sender_rsk_address = "sender";
          rsk_event_block_number = 5;
          rsk_event_tx_hash = "event tx";
          rsk_event_tx_index = 0;
          rsk_event_log_index = 0;
          transfer_batch_id = some 1;
        }
        ∷ [];
    next_rsk_to_tap_transfer_id = 2;
    tap_to_rsk_transfers =
        record {
          db_id = 1;
          counter = none;
          deposit_address_id = 1;
          deposit_btc_tx_id = "txid";
          deposit_btc_tx_vout = 0;
          transfer_batch_id = some 1;
        }
        ∷ [];
    next_tap_to_rsk_transfer_id = 2;
    key_values = [];
  };
  effects = [];
}

abbrev transfer : SerializedTapToRskTransfer
transfer = record {
  hash = "keccak";
  rsk_address = "user";
  tap_address = "deposit address";
  deposit_btc_tx_id = "txid";
  deposit_btc_tx_vout = 0;
}

abbrev question : SerializedTapToRskTransferBatch
question = record { hash = "batch"; status = 1; signatures = []; transfers = transfer ∷ [] }

abbrev answer_a : SignTransferBatchAnswer
answer_a = record { signatures = "a" ∷ []; signer = "a" }

abbrev pub ext : External
ext = record {
  send_assets = λ rs. ok "sent";
  create_address = λ a n. ok "new address";
  list_receives = λ a. ok (
      record {
        outpoint = "txid2:1";
        encoded = "deposit address";
        status = "ADDR_EVENT_STATUS_COMPLETED";
      }
      ∷ []);
  split_outpoint = λ s. ok (s, 0);
  get_federators = ok ("a" ∷ "b" ∷ []);
  num_required_signers = ok 2;
  get_transfer_from_tap_message_hash = λ r t b v. ok "message";
  is_processed = λ t v. ok false;
  accept_transfer_from_tap = λ t. ok "rsk tx";
  wait_for_transaction_receipt = λ h. ok true;
  assets_by_rsk_token_address = λ a. err lookup_error;
  assets_by_taproot_asset_id = λ a. err lookup_error;
  recover_message = λ h s. ok s;
  address = "b";
  sign_message = λ h. ok "b";
  keccak_packed = λ ps. ok "keccak";
  add_0x_prefix = λ s. s;
  remove_0x_prefix = λ s. s;
  to_checksum_address = λ a. ok a;
  is_leader = true;
  ask = λ b. ok (answer_a ∷ []);
}

abbrev pub answers : Answers
answers = record {
  ext = ext;
  source = record {
    block_number = ok 20;
    transfer_to_tap = λ a b n. ok [];
    evm_block_safety_margin = 5;
    evm_start_block = 1;
  };
}

pub world-IsSafe : IsSafe world
world-IsSafe = record {
  once = record { sound = λ i. omega arith };
  bounded = record { sound = λ i. omega arith };
  tidy = record {
    keyed = λ i. ground arith;
    fresh = λ i le. ground arith;
    limited = λ i. ground arith;
    unreferenced = λ i le. ground arith;
  };
}

run_iterations-Advances_example : Advances world (run_iterations (answers ∷ answers ∷ []) world)
run_iterations-Advances_example =
    run_iterations-Advances (answers ∷ answers ∷ []) world world-IsSafe

run_iterations_bounded_example :
    (assets_payments 1 (run_iterations (answers ∷ answers ∷ []) world).effects ≤ 1)
    × (rsk_payments 1 (run_iterations (answers ∷ answers ∷ []) world).effects ≤ batch_limit)
    × (IsDone (ToTap.view 1 world).phase
        → assets_payments 1 (run_iterations (answers ∷ answers ∷ []) world).effects
          ≡ assets_payments 1 [])
    × (IsDone (Steps.view 1 world).phase
        → rsk_payments 1 (run_iterations (answers ∷ answers ∷ []) world).effects
          ≡ rsk_payments 1 [])
    × (IsUnsent (ToTap.view 1 (run_iterations (answers ∷ answers ∷ []) world)).phase
        → assets_payments 1 (run_iterations (answers ∷ answers ∷ []) world).effects ≡ 0)
    × (IsUnsent (Steps.view 1 (run_iterations (answers ∷ answers ∷ []) world)).phase
        → rsk_payments 1 (run_iterations (answers ∷ answers ∷ []) world).effects ≡ 0)
run_iterations_bounded_example =
    run_iterations_bounded (answers ∷ answers ∷ []) world world-IsSafe 1

process_current_transfer_batch_paid_example :
    let (r, t) = RskToTap.process_current_transfer_batch ext world in
    (r ≡ ok tt)
    × (t.effects ≡ assets_sent 1 ("recipient" ∷ []) ∷ [])
    × (ToTap.batch_at 1 t
        ≡ some (record {
          id = 1;
          status = RskToTapTransferBatchStatus.finalized;
          sending_result = some "sent";
        }))
process_current_transfer_batch_paid_example =
    Outcomes.process_current_transfer_batch_paid ext world to_tap refl "sent" refl refl refl

abbrev lonely : External
lonely = record ext { num_required_signers = ok 1; ask = λ b. ok [] }

process_current_transfer_batch_unsigned_example :
    let (r, t) = TapToRsk.process_current_transfer_batch lonely world in
    (r ≡ err index_error)
    × (t.effects ≡ [])
    × (Steps.batch_at 1 t
        ≡ some (record to_rsk { status = TapToRskTransferBatchStatus.sending_to_rsk }))
process_current_transfer_batch_unsigned_example =
    TapOutcomes.process_current_transfer_batch_unsigned lonely world to_rsk question refl refl
      ("a" ∷ "b" ∷ []) 1 refl refl refl refl refl (omega arith) refl

abbrev no_signatures : List (String × List String)
no_signatures = []

collected :
    collect_signatures ext ("a" ∷ "b" ∷ []) 1 (transfer ∷ []) (answer_a ∷ []) no_signatures
    ≡ ok (("a", "a" ∷ []) ∷ [])
unfolding collect_signatures is_valid_response
collected = refl

collect_signatures-IsSigned_example :
    (find_value "a" no_signatures ≡ some ("a" ∷ []))
    ⊎ IsSigned ext ("a" ∷ "b" ∷ []) 1 (transfer ∷ []) "a" ("a" ∷ [])
collect_signatures-IsSigned_example =
    collect_signatures-IsSigned ext ("a" ∷ "b" ∷ []) 1 (transfer ∷ []) (answer_a ∷ []) no_signatures
      collected "a" ("a" ∷ []) refl

abbrev federator : External
federator = record ext { is_leader = false }

abbrev asked : SerializedTapToRskTransferBatch
asked = record question { hash = "other batch" }

answered :
    (answer_sign_transfer_batch federator asked world).0
    ≡ ok (record { signatures = "b" ∷ []; signer = "b" })
unfolding answer_sign_transfer_batch transaction
answered = refl

-- The same federator, whose account cannot sign any more.
abbrev unable : External
unable = record federator { sign_message = λ text. err value_error }

answer_sign_transfer_batch_twice_example :
    let after = (answer_sign_transfer_batch federator asked world).1 in
    answer_sign_transfer_batch unable asked after
    ≡ (ok (record { signatures = "b" ∷ []; signer = "b" }), after)
answer_sign_transfer_batch_twice_example =
    answer_sign_transfer_batch_twice federator unable refl asked world
      (record { signatures = "b" ∷ []; signer = "b" }) refl answered
