-- ===== src/Runes/ToBtc/Checked.antt =====
-- What a federator knows of a transaction that it signs
-- (`answer_sign_rune_token_to_btc_transfer_question`, bridge_node/bridge/bridges/runes/service.py).
use nbte_bridge.Prelude.{
  ◌∙◌, ap, ℕ, ◌≡◌, ◌+◌, ◌*◌, ◌≤◌, ◌<◌, some, List, [], ◌∷◌, get_elem?, keep, not, ◌==◌, ◌&&◌, ◌||◌,
  ltb, leb, nat_eq, string_eq, arith, true, false, sym, String,
}
use nbte_bridge.Result.{
  ok, validation, index_error, >>=-eq-ok, raise_if, raise_if-eq-ok, or_raise-eq-ok, or_raise, one,
}
use nbte_bridge.Ord.Names.{PyordRune, rune_from_str}
use nbte_bridge.Ord.Multisig.Types.{
  TxOut, Edict, Psbt, target_postage_sat, input_value, output_value,
}
use nbte_bridge.Runes.Models.{Rune, RuneTokenDeposit, is_token_accepted}
use nbte_bridge.Runes.External.{RuneBridgeServiceConfig}
use nbte_bridge.Runes.Messages.{
  RuneTokenToBtcTransfer, SignRuneTokenToBtcTransferQuestion, SignRuneTokenToBtcTransferAnswer,
}
use nbte_bridge.Runes.World.{Db}
use nbte_bridge.Runes.ToBtc.Signer.{Signer, Runestone, estimate_psbt_size_vb}
use nbte_bridge.Runes.ToBtc.Answer.{
  check_token_deposit, token_deposit_rune, check_outputs, check_transfer, check_fee, fee_rate_min,
  fee_rate_max, output_at, check_token_deposits, check_transfers, answer_transfers,
  answer_sign_rune_token_to_btc_transfer_question,
}

module _ (config : RuneBridgeServiceConfig) (bridge_id : ℕ) (db : Db) (signer : Signer) where
  -- The rows that a transfer is checked against.
  abbrev pub deposits_of_event : RuneTokenToBtcTransfer → List RuneTokenDeposit
  deposits_of_event t =
      keep
        (λ d.
          (d.bridge_id == bridge_id)
          && ((d.evm_tx_hash == t.event_tx_hash) && (d.evm_log_index == t.event_log_index)))
        db.token_deposits

  -- The transfer is that of the one accepted deposit of its event.
  pub record IsDeposited (t : RuneTokenToBtcTransfer) : Type 0 where
    pub deposit : RuneTokenDeposit
    pub only : one (deposits_of_event t) ≡ ok deposit
    pub accepted : is_token_accepted deposit.status ≡ true
    pub receiver : deposit.receiver_btc_address ≡ t.receiver_address
    pub amount : deposit.net_rune_amount_raw ≡ t.net_rune_amount
    pub named : PyordRune
    pub of_name : rune_from_str signer.wallet.rune_names t.rune_name ≡ ok named
    pub named_number : named.n ≡ t.rune_number
    pub rune : Rune
    pub of_deposit : token_deposit_rune db deposit ≡ ok rune
    pub number : rune.n ≡ t.rune_number

  check_token_deposit-IsDeposited :
      (t : RuneTokenToBtcTransfer)
      → check_token_deposit config bridge_id db signer t ≡ ok tt
      → IsDeposited t
  unfolding check_token_deposit
  check_token_deposit-IsDeposited t h =
      let (d, e1, h1) = >>=-eq-ok (one (deposits_of_event t)) _ h in
      let (_, e2, h2) = >>=-eq-ok (raise_if (not (is_token_accepted d.status)) validation) _ h1 in
      let (_, e3, h3) =
        >>=-eq-ok (raise_if (not (d.receiver_btc_address == t.receiver_address)) validation) _ h2 in
      let (_, e4, h4) =
        >>=-eq-ok (raise_if (not (d.net_rune_amount_raw == t.net_rune_amount)) validation) _ h3 in
      let (named, e5, h5) = >>=-eq-ok (rune_from_str signer.wallet.rune_names t.rune_name) _ h4 in
      let (rune, e6, h6) = >>=-eq-ok (token_deposit_rune db d) _ h5 in
      let (_, e7, h7) = >>=-eq-ok (raise_if (not (rune.n == named.n)) validation) _ h6 in
      record {
        deposit = d;
        only = e1;
        accepted = ground arith;
        receiver = ground (arith, string_eq.same_iff d.receiver_btc_address t.receiver_address);
        amount = ground arith;
        named = named;
        of_name = e5;
        named_number = ground arith;
        rune = rune;
        of_deposit = e6;
        number = ground arith;
      }

  -- The edict and the output of a transfer, at output k.
  pub record IsPaidBy (vout : List TxOut) (runestone : Runestone) (k : ℕ)
      (t : RuneTokenToBtcTransfer) : Type 0 where
    pub edict : Edict
    pub first : get_elem? runestone.edicts 0 ≡ some edict
    pub amount : edict.amount ≡ t.net_rune_amount
    pub entry : String
    pub known : signer.wallet.get_rune t.rune_name ≡ ok (some entry)
    pub of_rune : signer.wallet.rune_id_from_str entry ≡ ok edict.id
    pub points : edict.output ≡ k
    pub output : TxOut
    pub at : get_elem? vout k ≡ some output
    pub postage : output.value ≡ target_postage_sat
    pub receiver : signer.wallet.parse_address t.receiver_address ≡ ok output.script_pubkey

  check_transfer-IsPaidBy :
      (vout : List TxOut) (runestone : Runestone) (k : ℕ) (t : RuneTokenToBtcTransfer)
      → check_transfer config bridge_id db signer vout runestone k t ≡ ok tt
      → IsPaidBy vout runestone k t
  unfolding check_transfer
  check_transfer-IsPaidBy vout runestone k t h =
      let (response, e1, h1) = >>=-eq-ok (signer.wallet.get_rune t.rune_name) _ h in
      let (id, e2, h2) = >>=-eq-ok (or_raise response validation) _ h1 in
      let (rune_id, e3, h3) = >>=-eq-ok (signer.wallet.rune_id_from_str id) _ h2 in
      let (e, e4, h4) = >>=-eq-ok (or_raise (get_elem? runestone.edicts 0) index_error) _ h3 in
      let (_, e5, h5) =
        >>=-eq-ok (raise_if (not (e.amount == t.net_rune_amount)) validation) _ h4 in
      let (_, e6, h6) = >>=-eq-ok (raise_if (not (e.id == rune_id)) validation) _ h5 in
      let same_id : e.id ≡ rune_id = ground (
        arith,
        raise_if-eq-ok (not (e.id == rune_id)) validation e6,
        string_eq.same_iff e.id rune_id,
      ) in
      let (_, e7, h7) = >>=-eq-ok (raise_if (not (e.output == k)) validation) _ h6 in
      let (o, e8, h8) = >>=-eq-ok (output_at config bridge_id db signer vout k) _ h7 in
      let (_, e9, h9) =
        >>=-eq-ok (raise_if (not (o.value == target_postage_sat)) validation) _ h8 in
      let (script, e10, h10) = >>=-eq-ok (signer.wallet.parse_address t.receiver_address) _ h9 in
      let same = raise_if-eq-ok (not (o.script_pubkey == script)) validation h10 in
      record {
        edict = e;
        first = ground arith;
        amount = ground arith;
        entry = id;
        known = e1 ∙ ap ok (or_raise-eq-ok response validation e2);
        of_rune = e3 ∙ ap ok (sym same_id);
        points = ground arith;
        output = o;
        at = ground arith;
        postage = ground arith;
        receiver = ground (arith, string_eq.same_iff o.script_pubkey script);
      }

  -- The fee rate is within the federator's own range, and the fee that the transaction pays is less
  -- than eleven tenths and at least ten elevenths of the size times that rate.
  pub record IsFeeFair (fee_rate : ℕ) (psbt : Psbt) : Type 0 where
    pub expected : ℕ
    pub estimate : signer.fee_sats_per_vb ≡ ok expected
    pub at_least : fee_rate_min config bridge_id db signer expected ≤ fee_rate
    pub at_most : fee_rate ≤ fee_rate_max config bridge_id db signer expected
    pub not_high :
        input_value psbt * 10
        < estimate_psbt_size_vb signer psbt * fee_rate * 11 + output_value psbt * 10
    pub not_low :
        estimate_psbt_size_vb signer psbt * fee_rate * 10 + output_value psbt * 11
        ≤ input_value psbt * 11

  check_fee-IsFeeFair :
      (fee_rate : ℕ) (psbt : Psbt)
      → check_fee config bridge_id db signer fee_rate psbt ≡ ok tt
      → IsFeeFair fee_rate psbt
  unfolding check_fee
  check_fee-IsFeeFair fee_rate psbt h =
      let (expected, e1, h1) = >>=-eq-ok signer.fee_sats_per_vb _ h in
      let low = fee_rate_min config bridge_id db signer expected in
      let high = fee_rate_max config bridge_id db signer expected in
      let fee = estimate_psbt_size_vb signer psbt * fee_rate in
      let (_, e2, h2) =
        >>=-eq-ok (raise_if (ltb fee_rate low || ltb high fee_rate) validation) _ h1 in
      let (_, e3, h3) =
        >>=-eq-ok
          (raise_if (leb (fee * 11 + output_value psbt * 10) (input_value psbt * 10)) validation) _
          h2 in
      let range = raise_if-eq-ok (ltb fee_rate low || ltb high fee_rate) validation e2 in
      let over =
        raise_if-eq-ok (leb (fee * 11 + output_value psbt * 10) (input_value psbt * 10)) validation
          e3 in
      let under =
        raise_if-eq-ok (ltb (input_value psbt * 11) (fee * 10 + output_value psbt * 11)) validation
          h3 in
      record {
        expected = expected;
        estimate = e1;
        at_least = grind arith;
        at_most = grind arith;
        not_high = grind arith;
        not_low = grind arith;
      }

  -- A federator signs the transaction of a question only if the question's transfer is that of
  -- the one accepted deposit of its event, with its receiver, amount and rune; the transaction's
  -- runestone is no cenotaph and its first edict sends the amount of the rune, by ord's id of its
  -- name, to output 2, which pays the postage to the receiver's script; the outputs pass
  -- `check_outputs`; and rate and fee are fair by the federator's own estimate.
  pub answer_sign_rune_token_to_btc_transfer_question-IsDeposited :
      (message : SignRuneTokenToBtcTransferQuestion) {answer : SignRuneTokenToBtcTransferAnswer}
      → answer_sign_rune_token_to_btc_transfer_question config bridge_id db signer message
        ≡ ok answer
      → IsDeposited message.transfer
        × ((psbt : Psbt) × (runestone : Runestone) × (signer.psbt_from_base64
                message.unsigned_psbt_serialized
              ≡ ok psbt)
            × (signer.decipher psbt.outputs ≡ ok (some runestone))
            × (runestone.is_cenotaph ≡ false)
            × (check_outputs config bridge_id db signer 1 psbt.outputs runestone ≡ ok tt)
            × IsPaidBy psbt.outputs runestone 2 message.transfer
            × IsFeeFair message.fee_rate_sats_per_vb psbt)
  unfolding answer_sign_rune_token_to_btc_transfer_question answer_transfers
  answer_sign_rune_token_to_btc_transfer_question-IsDeposited message h =
      let t = message.transfer in
      let (_, e2, h2) = >>=-eq-ok (check_token_deposits config bridge_id db signer (t ∷ [])) _ h in
      let (psbt, e3, h3) =
        >>=-eq-ok (signer.psbt_from_base64 message.unsigned_psbt_serialized) _ h2 in
      let (deciphered, e4, h4) = >>=-eq-ok (signer.decipher psbt.outputs) _ h3 in
      let (runestone, e5, h5) = >>=-eq-ok (or_raise deciphered validation) _ h4 in
      let (_, e6, h6) = >>=-eq-ok (raise_if runestone.is_cenotaph validation) _ h5 in
      let (_, e7, h7) =
        >>=-eq-ok (check_outputs config bridge_id db signer 1 psbt.outputs runestone) _ h6 in
      let (_, e8, h8) =
        >>=-eq-ok (check_transfers config bridge_id db signer psbt.outputs runestone 2 (t ∷ [])) _
          h7 in
      let (_, e9, h9) =
        >>=-eq-ok (check_fee config bridge_id db signer message.fee_rate_sats_per_vb psbt) _ h8 in
      let (_, e10, _) = >>=-eq-ok (check_token_deposit config bridge_id db signer t) _ e2 in
      let (_, e11, _) =
        >>=-eq-ok (check_transfer config bridge_id db signer psbt.outputs runestone 2 t) _ e8 in
      (
        check_token_deposit-IsDeposited t e10,
        (
          psbt,
          runestone,
          e3,
          e4 ∙ ap ok (or_raise-eq-ok deciphered validation e5),
          raise_if-eq-ok runestone.is_cenotaph validation e6,
          e7,
          check_transfer-IsPaidBy psbt.outputs runestone 2 t e11,
          check_fee-IsFeeFair message.fee_rate_sats_per_vb psbt e9,
        ),
      )
