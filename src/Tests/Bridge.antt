-- ===== src/Tests/Bridge.antt =====
-- Iterations of the bridge, and single calls of its service.
use nbte_bridge.Prelude.{
  ◌⊎◌, suc, ◌≤◌, ◌≡◌, refl, true, false, some, none, List, [], ◌∷◌, length, arith,
}
use nbte_bridge.Result.{Error, ok, err, runtime, external}
use nbte_bridge.Runes.External.{External, Notice, AcceptTransfer}
use nbte_bridge.Runes.Messages.{
  SignRuneToEvmTransferAnswer, RuneTokenToBtcTransfer, SignRuneTokenToBtcTransferAnswer,
}
use nbte_bridge.Runes.World.{World, submitted, notified}
use nbte_bridge.Prelude.Int.{pos}
use nbte_bridge.Ord.Names.{rune_from_str, remove_spacers}
use nbte_bridge.Ord.Multisig.Types.{input_total, output_total}
use nbte_bridge.Ord.Multisig.Funding.{estimate_p2wsh_multisig_tx_virtual_size}
use nbte_bridge.Runes.ToBtc.Signer.{sign_psbt, estimate_psbt_size_vb}
use nbte_bridge.Runes.Signing.{
  prune_invalid_sign_rune_to_evm_transfer_answers, prune_from,
  validate_sign_rune_to_evm_transfer_answer,
}
use nbte_bridge.Runes.Signing.Pruned.{
  IsPruned, prune_invalid_sign_rune_to_evm_transfer_answers-IsPruned,
}
use nbte_bridge.Runes.ToEvm.{send_rune_deposit_to_evm, update_deposit}
use nbte_bridge.Runes.ToEvm.Once.{submissions, deposit_at}
use nbte_bridge.Runes.ToEvm.Outcomes.{
  as_sending, as_sent, send_rune_deposit_to_evm_refused, send_rune_deposit_to_evm_unfunded,
  send_rune_deposit_to_evm_sent,
}
use nbte_bridge.Runes.ToBtc.Once.{broadcasts}
use nbte_bridge.Runes.ToBtc.Answer.{
  answer_transfers, fee_rate_min, fee_rate_max, check_token_deposit, check_outputs, check_transfer,
  check_fee, get_min_fee_rate_sat_per_vbyte,
}
use nbte_bridge.Runes.ToBtc.Question.{adjusted_fee_rate}
use nbte_bridge.Runes.ToBtc.FeeRate.{adjusted_fee_rate-within}
use nbte_bridge.Ord.Multisig.Types.{Psbt}
use nbte_bridge.Runes.Messages.{SignRuneTokenToBtcTransferQuestion}
use nbte_bridge.Runes.ToBtc.Signer.{Runestone}
use nbte_bridge.Runes.ToBtc.Answer.{answer_sign_rune_token_to_btc_transfer_question}
use nbte_bridge.Runes.ToBtc.Checked.{
  IsDeposited, IsPaidBy, IsFeeFair, answer_sign_rune_token_to_btc_transfer_question-IsDeposited,
}
use nbte_bridge.Runes.ToBtc.Single.{answer_transfers-single}
use nbte_bridge.Runes.Bridge.{Answers}
use nbte_bridge.Runes.Bridge.Safe.{run_iterations, run_iterations_once}
use nbte_bridge.Tests.Service.{
  deposit, rune_abc, db, world, ext, config, signer, ask_signatures, listing,
}
use nbte_bridge.Tests.Once.{world-IsSafe, source}

abbrev pub answers : Answers
answers = record {
  ext = ext;
  listing = listing;
  source = source;
  signer = signer;
  is_leader = true;
  check = ok tt;
  ask_evm = λ q. ok (record { signature = "a2"; signer = "a2"; message_hash = "hash" } ∷ []);
  ask_btc = ask_signatures;
}

run_iterations_once_example :
    (submissions 1 (run_iterations config 1 (answers ∷ answers ∷ []) world).effects ≤ 1)
    × (broadcasts 1 (run_iterations config 1 (answers ∷ answers ∷ []) world).effects ≤ 1)
run_iterations_once_example =
    run_iterations_once config 1 (answers ∷ answers ∷ []) world world-IsSafe 1

adjusted_fee_rate-within_example :
    (fee_rate_min config 1 db signer 20 ≤ adjusted_fee_rate config 20)
    × (adjusted_fee_rate config 20 ≤ fee_rate_max config 1 db signer 20)
adjusted_fee_rate-within_example = adjusted_fee_rate-within config 1 db signer 20

abbrev given : List SignRuneToEvmTransferAnswer
given =
    record { signature = "a1"; signer = "a1"; message_hash = "hash" }
    ∷ record { signature = "forged"; signer = "a2"; message_hash = "hash" }
    ∷ record { signature = "a1"; signer = "a1"; message_hash = "hash" }
    ∷ []

abbrev kept : List SignRuneToEvmTransferAnswer
kept = record { signature = "a1"; signer = "a1"; message_hash = "hash" } ∷ []

pruned : prune_invalid_sign_rune_to_evm_transfer_answers ext "hash" given ≡ ok kept
unfolding prune_invalid_sign_rune_to_evm_transfer_answers prune_from
    validate_sign_rune_to_evm_transfer_answer
pruned = refl

prune_invalid_sign_rune_to_evm_transfer_answers-IsPruned_example : IsPruned ext "hash" kept
prune_invalid_sign_rune_to_evm_transfer_answers-IsPruned_example =
    prune_invalid_sign_rune_to_evm_transfer_answers-IsPruned ext "hash" given pruned

abbrev unfunded : External
unfunded = record ext { balance_wei = ok 5 }

send_rune_deposit_to_evm_unfunded_example :
    (send_rune_deposit_to_evm 1 1 unfunded world
      ≡ (err runtime, (update_deposit 1 as_sending world).1))
    × (deposit_at 1 (update_deposit 1 as_sending world).1 ≡ some (as_sending deposit))
send_rune_deposit_to_evm_unfunded_example =
    send_rune_deposit_to_evm_unfunded 1 1 unfunded 2 deposit
      (record { id = 1; bridge_id = 1; evm_address = "user" }) rune_abc world refl refl refl refl
      refl (omega arith) refl refl 1 5 refl refl (omega arith)

send_rune_deposit_to_evm_refused_example :
    let sending = (update_deposit 1 as_sending world).1 in
    ((ext.frozen ≡ ok true) × (send_rune_deposit_to_evm 1 1 ext sending ≡ (ok tt, sending)))
    ⊎ ((e : Error) × (send_rune_deposit_to_evm 1 1 ext sending ≡ (err e, sending)))
send_rune_deposit_to_evm_refused_example =
    send_rune_deposit_to_evm_refused 1 1 ext (as_sending deposit)
      (update_deposit 1 as_sending world).1 refl refl

abbrev unmined : External
unmined = record ext { transaction_receipt = λ h. ok none }

abbrev transfer : AcceptTransfer
transfer = record {
  evm_address = "user";
  rune_number = 731;
  net_rune_amount = pos 996;
  btc_txid = "0xtx";
  btc_vout = 0;
  signatures = "s1" ∷ "s2" ∷ [];
}

abbrev sent : World
sent =
    (update_deposit 1 (as_sent "evm tx") (record {
      db = (update_deposit 1 as_sending world).1.db;
      effects = notified Notice.rune_to_evm_sent ∷ submitted 1 transfer ∷ [];
    })).1

send_rune_deposit_to_evm_sent_example :
    (send_rune_deposit_to_evm 1 1 unmined world ≡ (ok tt, sent))
    × (deposit_at 1 sent ≡ some (as_sent "evm tx" (as_sending deposit)))
    × (submissions 1 sent.effects ≡ suc (submissions 1 []))
send_rune_deposit_to_evm_sent_example =
    send_rune_deposit_to_evm_sent 1 1 unmined 2 deposit
      (record { id = 1; bridge_id = 1; evm_address = "user" }) rune_abc world refl refl refl refl
      refl (omega arith) refl refl 1 1000000 7 7 "evm tx" refl refl (omega arith) refl refl
      (omega arith) refl refl refl

abbrev silent : External
silent = record ext {
  send_message = λ n. elim n [ Notice.rune_to_evm_sent ↦ err external | _ ↦ ok tt ];
}

abbrev token_transfer : RuneTokenToBtcTransfer
token_transfer = record {
  receiver_address = "receiver";
  net_rune_amount = 40;
  token_address = "token";
  rune_name = "ABC";
  rune_number = 731;
  event_tx_hash = "hash";
  event_log_index = 0;
}

abbrev signed : SignRuneTokenToBtcTransferAnswer
signed = record { signed_psbt_serialized = "signed"; signer_xpub = "xpub" }

passed : answer_transfers config 1 db signer (token_transfer ∷ []) "psbt" 1 ≡ ok signed
unfolding answer_transfers check_token_deposit check_outputs check_transfer check_fee rune_from_str
    remove_spacers get_min_fee_rate_sat_per_vbyte estimate_psbt_size_vb
    estimate_p2wsh_multisig_tx_virtual_size input_total output_total sign_psbt
passed = refl

answer_transfers-single_example : length (token_transfer ∷ []) ≤ 1
answer_transfers-single_example =
    answer_transfers-single config 1 db signer (token_transfer ∷ []) "psbt" 1 passed

abbrev question : SignRuneTokenToBtcTransferQuestion
question = record {
  transfer = token_transfer;
  unsigned_psbt_serialized = "psbt";
  fee_rate_sats_per_vb = 1;
}

answered : answer_sign_rune_token_to_btc_transfer_question config 1 db signer question ≡ ok signed
unfolding answer_sign_rune_token_to_btc_transfer_question
answered = passed

answer_sign_rune_token_to_btc_transfer_question-IsDeposited_example :
    IsDeposited config 1 db signer token_transfer
    × ((psbt : Psbt) × (runestone : Runestone) × (signer.psbt_from_base64 "psbt" ≡ ok psbt)
        × (signer.decipher psbt.outputs ≡ ok (some runestone))
        × (runestone.is_cenotaph ≡ false)
        × (check_outputs config 1 db signer 1 psbt.outputs runestone ≡ ok tt)
        × IsPaidBy config 1 db signer psbt.outputs runestone 2 token_transfer
        × IsFeeFair config 1 db signer 1 psbt)
answer_sign_rune_token_to_btc_transfer_question-IsDeposited_example =
    answer_sign_rune_token_to_btc_transfer_question-IsDeposited config 1 db signer question answered
