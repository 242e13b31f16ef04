-- ===== src/Runes/Signing.antt =====
-- Signatures for transfers to the EVM chain (bridge_node/bridge/bridges/runes/service.py): what a
-- federator checks before it signs, and what the leader checks of the signatures that it gets.
pub mod Pruned
use nbte_bridge.Prelude.{
  String, not, List, [], ◌∷◌, ◌++◌, contains, ◌==◌, nat_eq, string_eq, if◌then◌else◌,
}
use nbte_bridge.Prelude.Int.{pos, int_eq}
use nbte_bridge.Result.{Result, ok, err, validation, ◌>>=◌, ◌>>◌, raise_if, or_raise}
use nbte_bridge.Ord.Names.{rune_from_str}
use nbte_bridge.Runes.Amounts.{calculate_rune_to_evm_transfer_amounts}
use nbte_bridge.Runes.External.{External, RuneBridgeServiceConfig}
use nbte_bridge.Runes.Messages.{RuneToEvmTransfer, SignRuneToEvmTransferAnswer}

-- `answer_sign_rune_to_evm_transfer_question`
unfoldable pub answer_sign_rune_to_evm_transfer_question :
    RuneBridgeServiceConfig → External → RuneToEvmTransfer → Result SignRuneToEvmTransferAnswer
answer_sign_rune_to_evm_transfer_question config ext transfer = do
  response ← ext.get_rune transfer.rune_name
  entry ← or_raise response validation
  rune ← rune_from_str ext.rune_names transfer.rune_name
  raise_if (not (rune.n == transfer.rune_number)) validation
  registered ← ext.is_rune_registered rune.n
  raise_if (not registered) validation
  paused ← ext.is_rune_paused rune.n
  raise_if paused validation
  let amounts =
      calculate_rune_to_evm_transfer_amounts config.runes_to_evm_fee_percentage_decimal
        transfer.amount_raw entry.divisibility
  raise_if (not (transfer.amount_raw == amounts.amount_raw)) validation
  raise_if (not (transfer.net_amount_raw == amounts.net_amount_raw)) validation
  raise_if (transfer.net_amount_raw == pos 0) validation
  balance ← ext.rune_balance_at_output transfer.txid transfer.vout transfer.rune_name
  raise_if (not (balance == transfer.amount_raw)) validation
  message_hash ←
      ext.accept_transfer_message_hash transfer.evm_address rune.n transfer.net_amount_raw
        (ext.add_0x_prefix transfer.txid) transfer.vout
  signature ← ext.sign_message message_hash
  ok (record { signature = signature; signer = ext.address; message_hash = message_hash })

-- `validate_sign_rune_to_evm_transfer_answer`
unfoldable pub validate_sign_rune_to_evm_transfer_answer :
    External → String → SignRuneToEvmTransferAnswer → Result (Unit {0})
validate_sign_rune_to_evm_transfer_answer ext message_hash answer = do
  is_federator ← ext.is_federator answer.signer
  raise_if (not is_federator) validation
  recovered ← ext.recover_message message_hash answer.signature
  raise_if (not (recovered == answer.signer)) validation

-- What one turn of the pruning loop does with the verdict: only a `ValidationError` is caught.
abbrev pub pruned :
    Result (Unit {0})
    → Result (List SignRuneToEvmTransferAnswer)
    → Result (List SignRuneToEvmTransferAnswer)
    → Result (List SignRuneToEvmTransferAnswer)
pruned (ok _) kept skipped = kept
pruned (err validation) kept skipped = skipped
pruned (err e) kept skipped = err e

-- The loop of `_prune_invalid_sign_rune_to_evm_transfer_answers`, from the signers seen and the
-- answers kept so far.
unfoldable pub prune_from :
    External
    → String
    → List SignRuneToEvmTransferAnswer
    → List String
    → List SignRuneToEvmTransferAnswer
    → Result (List SignRuneToEvmTransferAnswer)
prune_from ext message_hash [] signers ret = ok ret
prune_from ext message_hash (answer ∷ answers) signers ret =
    let skipped = prune_from ext message_hash answers signers ret in
    let kept = prune_from ext message_hash answers (answer.signer ∷ signers) (ret ++ answer ∷ []) in
    if contains signers answer.signer
    then skipped
    else pruned (validate_sign_rune_to_evm_transfer_answer ext message_hash answer) kept skipped

unfoldable pub prune_invalid_sign_rune_to_evm_transfer_answers :
    External → String → List SignRuneToEvmTransferAnswer → Result (List SignRuneToEvmTransferAnswer)
unfolding prune_from
prune_invalid_sign_rune_to_evm_transfer_answers ext message_hash answers =
    prune_from ext message_hash answers [] []
