-- ===== src/Runes/ToBtc/Handle.antt =====
-- `handle_accepted_rune_token_deposit` (bridge_node/bridge/bridges/runes/service.py): the leader
-- builds the transaction, signs it, collects the signatures of the others, and broadcasts it.
use nbte_bridge.Prelude.{
  ℕ, String, not, some, List, map, keep, sort_by, length, ltb, leb, ◌==◌, ◌&&◌, nat_eq,
  if◌then◌else◌,
}
use nbte_bridge.Result.{Error, Result, validation, assertion, lookup_error, one, or_raise, raise_if}
use nbte_bridge.Proc.{pure, raise, lift, gets, asks, ◌>>=◌, ◌>>◌}
use nbte_bridge.Ord.Multisig.Types.{Psbt}
use nbte_bridge.Runes.Models.{
  RuneTokenDeposit, RuneTokenDepositStatus, is_token_accepted, is_token_sending,
}
use nbte_bridge.Runes.External.{External, RuneBridgeServiceConfig, Notice}
use nbte_bridge.Runes.Messages.{
  RuneTokenToBtcTransfer, SignRuneTokenToBtcTransferQuestion, SignRuneTokenToBtcTransferAnswer,
}
use nbte_bridge.Runes.World.{Service, transaction, change, emit, notify, broadcast, try_except_else}
use nbte_bridge.Rows.{find_id, with_id, update_id}
use nbte_bridge.Runes.ToBtc.Signer.{Signer, combine_and_finalize_psbt, broadcast_psbt}
use nbte_bridge.Runes.ToBtc.Question.{build_question, collect_signed}
use nbte_bridge.Runes.ToBtc.Answer.{
  token_deposit_rune, answer_sign_rune_token_to_btc_transfer_question,
}

-- `get_accepted_rune_token_deposit_ids`
unfoldable pub get_accepted_rune_token_deposit_ids : ℕ → Service (List ℕ)
get_accepted_rune_token_deposit_ids bridge_id = transaction (
    gets λ w.
      map (λ d. d.id)
        (sort_by (λ (c d : RuneTokenDeposit). leb c.id d.id)
          (keep (λ d. (d.bridge_id == bridge_id) && is_token_accepted d.status)
            w.db.token_deposits)))

abbrev pub update_token_deposit : ℕ → (RuneTokenDeposit → RuneTokenDeposit) → Service (Unit {0})
update_token_deposit deposit_id f =
    change λ db. record db { token_deposits = update_id (λ d. d.id) deposit_id f db.token_deposits }

module _ (config : RuneBridgeServiceConfig) (bridge_id : ℕ) (ext : External) (signer : Signer)
    (ask_signatures : SignRuneTokenToBtcTransferQuestion
      → Result (List SignRuneTokenToBtcTransferAnswer))
    (deposit_id : ℕ) where
  -- The first transaction.
  abbrev pub read_transfer : Service RuneTokenToBtcTransfer
  read_transfer = transaction do
    deposit ← asks λ w.
        one (
          keep (λ d. d.bridge_id == bridge_id) (with_id (λ d. d.id) deposit_id w.db.token_deposits))
    lift (raise_if (not (is_token_accepted deposit.status)) validation)
    lift (raise_if (deposit.net_rune_amount_raw == 0) validation)
    rune ← asks λ w. token_deposit_rune w.db deposit
    pure (record {
      receiver_address = deposit.receiver_btc_address;
      rune_number = rune.n;
      rune_name = rune.name;
      token_address = deposit.token_address;
      net_rune_amount = deposit.net_rune_amount_raw;
      event_tx_hash = deposit.evm_tx_hash;
      event_log_index = deposit.evm_log_index;
    })

  abbrev pub get_token_deposit : Service RuneTokenDeposit
  get_token_deposit =
      asks λ w. or_raise (find_id (λ d. d.id) deposit_id w.db.token_deposits) lookup_error

  -- The transaction before the broadcast.
  abbrev pub start_broadcast : String → Service (Unit {0})
  start_broadcast finalized_psbt = transaction do
    deposit ← get_token_deposit
    lift (raise_if (not (is_token_accepted deposit.status)) assertion)
    update_token_deposit deposit_id (λ d. record d {
      status = RuneTokenDepositStatus.sending_to_btc;
      finalized_psbt = some finalized_psbt;
    })

  abbrev pub send_psbt : String → Service String
  send_psbt finalized_psbt = do
    txid ← lift (broadcast_psbt signer finalized_psbt)
    emit (broadcast deposit_id finalized_psbt)
    pure txid

  abbrev pub broadcast_failed : Error → Service (Unit {0})
  broadcast_failed e = do
    transaction do
      _ ← get_token_deposit
      update_token_deposit deposit_id
          (λ d. record d { status = RuneTokenDepositStatus.sending_to_btc_failed })
      notify ext Notice.psbt_broadcast_failed
    raise e

  -- After the broadcast: the message, and the last transaction.
  abbrev pub broadcast_done : String → Service (Unit {0})
  broadcast_done txid = do
    notify ext Notice.psbt_broadcast
    transaction do
      deposit ← get_token_deposit
      lift (raise_if (not (is_token_sending deposit.status)) assertion)
      update_token_deposit deposit_id
          (λ d. record d { status = RuneTokenDepositStatus.sent_to_btc; btc_tx_id = some txid })

  abbrev pub broadcast_finalized : String → Service (Unit {0})
  broadcast_finalized finalized_psbt = do
    start_broadcast finalized_psbt
    try_except_else (send_psbt finalized_psbt) broadcast_failed broadcast_done

  -- From the signed transactions on: `return` where there are too few.
  abbrev pub finish_transfer : Psbt → List String → Service (Unit {0})
  finish_transfer unsigned_psbt signed_psbts =
      if ltb (length signed_psbts) signer.wallet.num_required_signers then pure tt else do
        finalized_psbt ← lift (combine_and_finalize_psbt signer unsigned_psbt signed_psbts)
        broadcast_finalized finalized_psbt

  abbrev pub sign_and_finish : Psbt × SignRuneTokenToBtcTransferQuestion → Service (Unit {0})
  sign_and_finish (unsigned_psbt, message) = do
    self_response ←
        asks
          λ w. answer_sign_rune_token_to_btc_transfer_question config bridge_id w.db signer message
    signed_psbts ← lift (collect_signed signer ask_signatures self_response message)
    finish_transfer unsigned_psbt signed_psbts

  abbrev pub handle_transfer : RuneTokenToBtcTransfer → Service (Unit {0})
  handle_transfer transfer = do
    question ← lift (build_question config signer transfer)
    sign_and_finish question

  -- `handle_accepted_rune_token_deposit`
  unfoldable pub handle_accepted_rune_token_deposit : Service (Unit {0})
  handle_accepted_rune_token_deposit = do transfer ← read_transfer; handle_transfer transfer
