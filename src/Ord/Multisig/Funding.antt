-- ===== src/Ord/Multisig/Funding.antt =====
-- The choice of inputs that pay the fee, the change, and `create_rune_psbt` as a whole.
use nbte_bridge.Prelude.{
  ℕ, ◌+◌, ◌-◌, ◌*◌, String, Bool, true, not, ◌||◌, Option, none, some, List, [], ◌∷◌, ◌++◌, length,
  sum_by, leb, ltb, ◌==◌, nat_eq, string_eq, if◌then◌else◌,
}
use nbte_bridge.Result.{
  Result, ok, err, value_error, runtime, assertion, insufficient_btc_balance, ◌>>=◌, ◌>>◌, raise_if,
}
use nbte_bridge.Ord.Outputs.{has_rune_balances}
use nbte_bridge.Btc.Types.{Utxo}
use nbte_bridge.Ord.Multisig.Types.{
  RuneTransfer, TxOut, PsbtInput, Psbt, Wallet, Serialization, input_value, output_total,
  output_value, dust_sat,
}
use nbte_bridge.Ord.Multisig.Plan.{plan_transfers, planned_outputs, empty_plan, required_amounts}
use nbte_bridge.Ord.Multisig.Inputs.{
  Selected, add_input, none_selected, usable_script, make_input, list_utxos,
}
use nbte_bridge.Ord.Multisig.Selection.{select_runes}

-- `estimate_p2wsh_multisig_tx_virtual_size` (bridge_node/bridge/common/btc/multisig_utils.py), with
-- signatures of 71 bytes. A transaction without inputs has no witness.
unfoldable pub estimate_p2wsh_multisig_tx_virtual_size :
    Serialization → List PsbtInput → List TxOut → ℕ → String → Bool → ℕ
estimate_p2wsh_multisig_tx_virtual_size ser vin vout num_signatures redeem_script add_change_out =
    let outputs =
      if add_change_out
      then vout ++ record { value = 1; script_pubkey = ser.p2wsh_script_pubkey redeem_script } ∷ []
      else vout in
    ser.calculate_transaction_virtual_size (length vin) (sum_by ser.txin_size vin) (length outputs)
      (sum_by ser.txout_size outputs)
      (if length vin == 0 then 0 else ser.witness_size (length vin) num_signatures 71 redeem_script)

module _ (wallet : Wallet) where
  -- The fee for the inputs so far, with room for a change output.
  unfoldable pub fee_sat : ℕ → List TxOut → Selected → ℕ
  fee_sat fee_rate outputs selected =
      estimate_p2wsh_multisig_tx_virtual_size wallet.serialization selected.inputs outputs
        wallet.num_required_signers wallet.redeem_script true
      * fee_rate

  -- The two ways out of the funding loop: no change, or change that is not dust.
  abbrev pub is_funded : ℕ → List TxOut → Selected → Bool
  is_funded fee_rate outputs selected =
      let spent = output_total outputs + fee_sat fee_rate outputs selected in
      selected.input_amount_sat == spent || leb (spent + dust_sat) selected.input_amount_sat

  -- One unspent output in the search for funds.
  unfoldable pub fee_candidate : Utxo → Result (Option PsbtInput)
  fee_candidate utxo = do
    output ← wallet.get_ord_output utxo.txid utxo.vout
    if has_rune_balances output then ok none else elim (usable_script utxo) [
      | none ↦ ok none
      | some script ↦ do input ← make_input wallet utxo script; ok (some input)
    ]

  -- The loop that chooses inputs for the fee. It pops the outputs in turn; one that is passed over
  -- leaves the test as it was.
  unfoldable pub fund : ℕ → List TxOut → List Utxo → Selected → Result Selected
  fund fee_rate outputs [] selected =
      if is_funded fee_rate outputs selected then ok selected else err insufficient_btc_balance
  fund fee_rate outputs (utxo ∷ utxos) selected =
      let rest =
        (fee_candidate utxo >>= λ candidate. elim candidate [
          | none ↦ fund fee_rate outputs utxos selected
          | some input ↦ fund fee_rate outputs utxos (add_input utxo input selected)
        ]) in
      if is_funded fee_rate outputs selected then ok selected else rest

  -- The end of `create_rune_psbt`: the limit on inputs, the change, and the assertion on the fee.
  unfoldable pub finish_psbt : ℕ → ℕ → List TxOut → Selected → Result Psbt
  finish_psbt fee_rate max_num_inputs outputs selected =
      let fee = fee_sat fee_rate outputs selected in
      let spent = output_total outputs + fee in
      let change_amount_sat = selected.input_amount_sat - spent in
      let change : TxOut = record {
        value = change_amount_sat;
        script_pubkey = wallet.change_script_pubkey;
      } in
      let psbt : Psbt = record {
        inputs = selected.inputs;
        outputs = if ltb 0 change_amount_sat then outputs ++ change ∷ [] else outputs;
      } in
      do
        raise_if (ltb max_num_inputs (length selected.inputs)) runtime
        raise_if (ltb selected.input_amount_sat spent) assertion
        raise_if (not (input_value psbt == output_value psbt + fee)) assertion
        ok psbt

  -- `create_rune_psbt`. Its assertion on the required amounts holds, since every amount is positive.
  unfoldable pub create_rune_psbt : List RuneTransfer → ℕ → ℕ → Result Psbt
  create_rune_psbt transfers fee_rate max_num_inputs = do
    raise_if (length transfers == 0) value_error
    plan ← plan_transfers wallet transfers 2 empty_plan
    utxos ← list_utxos wallet
    chosen ← select_runes wallet utxos (required_amounts plan) none_selected
    funded ← fund fee_rate (planned_outputs wallet plan) utxos chosen
    finish_psbt fee_rate max_num_inputs (planned_outputs wallet plan) funded
