-- ===== src/Runes/ToBtc/Answer.antt =====
-- What a federator checks before it signs a transaction that sends runes
-- (`answer_sign_rune_token_to_btc_transfer_question`). The checks are written for a list of
-- transfers, and a question holds one.
use nbte_bridge.Prelude.{
  ℕ, suc, ◌+◌, ◌*◌, ◌/◌, max, String, Bool, false, not, ◌&&◌, ◌||◌, List, [], ◌∷◌, length,
  get_elem?, any, keep, ltb, leb, ◌==◌, nat_eq, string_eq, if◌then◌else◌,
}
use nbte_bridge.Result.{
  Result, ok, err, validation, index_error, lookup_error, ◌>>=◌, ◌>>◌, raise_if, or_raise, one,
}
use nbte_bridge.Ord.Names.{rune_from_str}
use nbte_bridge.Ord.Multisig.Types.{TxOut, Psbt, input_value, output_value, target_postage_sat}
use nbte_bridge.Runes.Models.{Rune, RuneTokenDeposit, is_token_accepted}
use nbte_bridge.Runes.External.{RuneBridgeServiceConfig}
use nbte_bridge.Runes.Messages.{
  RuneTokenToBtcTransfer, SignRuneTokenToBtcTransferQuestion, SignRuneTokenToBtcTransferAnswer,
}
use nbte_bridge.Runes.World.{Db}
use nbte_bridge.Rows.{find_id}
use nbte_bridge.Runes.ToBtc.Signer.{Signer, Runestone, sign_psbt, estimate_psbt_size_vb}

abbrev pub same_event : RuneTokenToBtcTransfer → RuneTokenToBtcTransfer → Bool
same_event a b = (a.event_tx_hash == b.event_tx_hash) && (a.event_log_index == b.event_log_index)

-- `len(set(...)) != len(transfers)`
abbrev pub has_duplicates : List RuneTokenToBtcTransfer → Bool
has_duplicates [] = false
has_duplicates (t ∷ ts) = any (same_event t) ts || has_duplicates ts

abbrev pub token_deposit_rune : Db → RuneTokenDeposit → Result Rune
token_deposit_rune db d = or_raise (find_id (λ (r : Rune). r.id) d.rune_id db.runes) lookup_error

-- `_get_min_fee_rate_sat_per_vbyte`
unfoldable pub get_min_fee_rate_sat_per_vbyte : RuneBridgeServiceConfig → ℕ
get_min_fee_rate_sat_per_vbyte config = if config.btc_network == "mainnet" then 15 else 1

module _ (config : RuneBridgeServiceConfig) (bridge_id : ℕ) (db : Db) (signer : Signer) where
  -- One turn of the loop over the database. The source makes the check on the amount twice.
  unfoldable pub check_token_deposit : RuneTokenToBtcTransfer → Result (Unit {0})
  check_token_deposit transfer = do
    deposit ← one (
        keep
          (λ d.
            (d.bridge_id == bridge_id)
            && ((d.evm_tx_hash == transfer.event_tx_hash)
                && (d.evm_log_index == transfer.event_log_index)))
          db.token_deposits)
    raise_if (not (is_token_accepted deposit.status)) validation
    raise_if (not (deposit.receiver_btc_address == transfer.receiver_address)) validation
    raise_if (not (deposit.net_rune_amount_raw == transfer.net_rune_amount)) validation
    rune ← rune_from_str signer.wallet.rune_names transfer.rune_name
    deposit_rune ← token_deposit_rune db deposit
    raise_if (not (deposit_rune.n == rune.n)) validation
    raise_if (not (rune.n == transfer.rune_number)) validation

  abbrev pub check_token_deposits : List RuneTokenToBtcTransfer → Result (Unit {0})
  check_token_deposits [] = ok tt
  check_token_deposits (t ∷ ts) = check_token_deposit t >> check_token_deposits ts

  abbrev pub output_at : List TxOut → ℕ → Result TxOut
  output_at outputs i = or_raise (get_elem? outputs i) index_error

  abbrev pub last_output : List TxOut → Result TxOut
  last_output [] = err index_error
  last_output (o ∷ []) = ok o
  last_output (o ∷ p ∷ os) = last_output (p ∷ os)

  -- The number of outputs, the runestone at output 0, the rune change at output 1, and the change
  -- at the end where there is one output more.
  unfoldable pub check_outputs : ℕ → List TxOut → Runestone → Result (Unit {0})
  check_outputs num_transfers vout runestone = do
    raise_if (not ((length vout == num_transfers + 2) || (length vout == num_transfers + 3)))
        validation
    first ← output_at vout 0
    raise_if (not (first.value == 0)) validation
    raise_if (not (first.script_pubkey == runestone.script)) validation
    second ← output_at vout 1
    raise_if (not (second.value == target_postage_sat)) validation
    raise_if (not (second.script_pubkey == signer.wallet.change_script_pubkey)) validation
    if length vout == num_transfers + 3
        then (do
          last ← last_output vout
          raise_if (not (last.script_pubkey == signer.wallet.change_script_pubkey)) validation)
        else ok tt
    raise_if (not (length runestone.edicts == num_transfers)) validation

  -- One turn of the loop over the edicts and the transfers, for the transfer at output
  -- `transfer_vout`. The loop's edict is not used: the body takes the first edict of the runestone.
  unfoldable pub check_transfer :
      List TxOut → Runestone → ℕ → RuneTokenToBtcTransfer → Result (Unit {0})
  check_transfer vout runestone transfer_vout transfer = do
    rune_response ← signer.wallet.get_rune transfer.rune_name
    id ← or_raise rune_response validation
    rune_id ← signer.wallet.rune_id_from_str id
    edict ← or_raise (get_elem? runestone.edicts 0) index_error
    raise_if (not (edict.amount == transfer.net_rune_amount)) validation
    raise_if (not (edict.id == rune_id)) validation
    raise_if (not (edict.output == transfer_vout)) validation
    output ← output_at vout transfer_vout
    raise_if (not (output.value == target_postage_sat)) validation
    expected_script ← signer.wallet.parse_address transfer.receiver_address
    raise_if (not (output.script_pubkey == expected_script)) validation

  abbrev pub check_transfers :
      List TxOut → Runestone → ℕ → List RuneTokenToBtcTransfer → Result (Unit {0})
  check_transfers vout runestone transfer_vout [] = ok tt
  check_transfers vout runestone transfer_vout (t ∷ ts) =
      check_transfer vout runestone transfer_vout t
      >> check_transfers vout runestone (suc transfer_vout) ts

  -- The range that the fee rate of a question has to lie in.
  abbrev pub fee_rate_min : ℕ → ℕ
  fee_rate_min expected = max (expected / 3) (get_min_fee_rate_sat_per_vbyte config)

  abbrev pub fee_rate_max : ℕ → ℕ
  fee_rate_max expected = max expected (get_min_fee_rate_sat_per_vbyte config) * 3

  -- The fee rate and the fee. The margin of 1.1 is a float in the source; the comparisons here are
  -- those with the exact eleven tenths, which differ at most where a fee meets that bound exactly.
  unfoldable pub check_fee : ℕ → Psbt → Result (Unit {0})
  check_fee fee_rate psbt = do
    expected ← signer.fee_sats_per_vb
    raise_if (ltb fee_rate (fee_rate_min expected) || ltb (fee_rate_max expected) fee_rate)
        validation
    let calculated_fee = estimate_psbt_size_vb signer psbt * fee_rate
    raise_if (leb (calculated_fee * 11 + output_value psbt * 10) (input_value psbt * 10)) validation
    raise_if (ltb (input_value psbt * 11) (calculated_fee * 10 + output_value psbt * 11)) validation

  -- The body of `answer_sign_rune_token_to_btc_transfer_question` from its list of transfers on.
  unfoldable pub answer_transfers :
      List RuneTokenToBtcTransfer → String → ℕ → Result SignRuneTokenToBtcTransferAnswer
  answer_transfers transfers unsigned_psbt_serialized fee_rate = do
    raise_if (has_duplicates transfers) validation
    check_token_deposits transfers
    unsigned_psbt ← signer.psbt_from_base64 unsigned_psbt_serialized
    deciphered ← signer.decipher unsigned_psbt.outputs
    runestone ← or_raise deciphered validation
    raise_if runestone.is_cenotaph validation
    check_outputs (length transfers) unsigned_psbt.outputs runestone
    check_transfers unsigned_psbt.outputs runestone 2 transfers
    check_fee fee_rate unsigned_psbt
    signed ← sign_psbt signer unsigned_psbt
    ok (record { signed_psbt_serialized = signed; signer_xpub = signer.signer_xpub })

  -- `answer_sign_rune_token_to_btc_transfer_question`: today's messages hold one transfer.
  unfoldable pub answer_sign_rune_token_to_btc_transfer_question :
      SignRuneTokenToBtcTransferQuestion → Result SignRuneTokenToBtcTransferAnswer
  answer_sign_rune_token_to_btc_transfer_question message =
      answer_transfers (message.transfer ∷ []) message.unsigned_psbt_serialized
        message.fee_rate_sats_per_vb
