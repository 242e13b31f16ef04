-- ===== src/Runes/ToBtc/Question.antt =====
-- The question that the leader asks the other federators about a transfer to Bitcoin, and what it
-- makes of their answers (`handle_accepted_rune_token_deposit`,
-- bridge_node/bridge/bridges/runes/service.py).
use nbte_bridge.Prelude.{ℕ, ◌*◌, ◌/◌, max, String, List, [], ◌∷◌, take, ltb}
use nbte_bridge.Result.{Result, ok, runtime, ◌>>=◌, ◌>>◌, raise_if}
use nbte_bridge.Ord.Multisig.Types.{RuneTransfer, Psbt, target_postage_sat}
use nbte_bridge.Ord.Multisig.Plan.{map_m}
use nbte_bridge.Ord.Multisig.Funding.{create_rune_psbt}
use nbte_bridge.Runes.External.{RuneBridgeServiceConfig}
use nbte_bridge.Runes.Messages.{
  RuneTokenToBtcTransfer, SignRuneTokenToBtcTransferQuestion, SignRuneTokenToBtcTransferAnswer,
}
use nbte_bridge.Runes.ToBtc.Signer.{Signer}
use nbte_bridge.Runes.ToBtc.Answer.{get_min_fee_rate_sat_per_vbyte}

-- The fee rate that the leader uses: a tenth more than expected, and not below the minimum.
-- `int(1.1 * rate)` is the rate times eleven tenths, rounded down.
unfoldable pub adjusted_fee_rate : RuneBridgeServiceConfig → ℕ → ℕ
adjusted_fee_rate config expected = max (expected * 11 / 10) (get_min_fee_rate_sat_per_vbyte config)

module _ (config : RuneBridgeServiceConfig) (signer : Signer) where
  abbrev pub transfer_of_message : RuneTokenToBtcTransfer → RuneTransfer
  transfer_of_message transfer = record {
    rune = signer.rune_of_number transfer.rune_number;
    receiver = transfer.receiver_address;
    amount = transfer.net_rune_amount;
    postage = target_postage_sat;
  }

  -- The question that the leader asks, with the transaction that it builds.
  abbrev pub build_question :
      RuneTokenToBtcTransfer → Result (Psbt × SignRuneTokenToBtcTransferQuestion)
  build_question transfer = do
    expected ← signer.fee_sats_per_vb
    raise_if (ltb config.btc_max_fee_rate_sats_per_vbyte expected) runtime
    let fee_rate = adjusted_fee_rate config expected
    unsigned_psbt ← create_rune_psbt signer.wallet (transfer_of_message transfer ∷ []) fee_rate 200
    ok (
      unsigned_psbt,
      record {
        transfer = transfer;
        unsigned_psbt_serialized = signer.psbt_to_base64 unsigned_psbt;
        fee_rate_sats_per_vb = fee_rate;
      },
    )

module _ (signer : Signer)
    (ask_signatures : SignRuneTokenToBtcTransferQuestion
      → Result (List SignRuneTokenToBtcTransferAnswer)) where
  -- All signed transactions, the leader's first, cut to the number that is required.
  abbrev pub collect_signed :
      SignRuneTokenToBtcTransferAnswer → SignRuneTokenToBtcTransferQuestion → Result (List String)
  collect_signed self_response message = do
    self_signed_psbt ← signer.signed_from_base64 self_response.signed_psbt_serialized
    responses ← ask_signatures message
    signed_psbts ←
        map_m
          (λ (r : SignRuneTokenToBtcTransferAnswer).
            signer.signed_from_base64 r.signed_psbt_serialized)
          responses
    ok (take signer.wallet.num_required_signers (self_signed_psbt ∷ signed_psbts))
