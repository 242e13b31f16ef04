-- ===== src/Ord/Multisig/Balance.antt =====
-- The money of a transaction that `create_rune_psbt` returns: inputs, outputs, fee and change.
use nbte_bridge.Prelude.{
  ℕ, ◌+◌, ◌-◌, ◌*◌, ◌≤◌, ◌≡◌, ◌⊎◌, true, false, List, [], ◌∷◌, ◌++◌, length, Bool-cases, inl, inr,
  arith, ltb, ◌==◌, nat_eq,
}
use nbte_bridge.Result.{ok, >>=-eq-ok, raise_if-eq-ok, raise_if, value_error}
use nbte_bridge.Btc.Types.{Utxo}
use nbte_bridge.Ord.Multisig.Types.{
  RuneTransfer, TxOut, PsbtInput, Psbt, Wallet, input_total, output_total, output_total-snoc,
  input_value, output_value, dust_sat,
}
use nbte_bridge.Ord.Multisig.Plan.{
  Plan, plan_transfers, planned_outputs, empty_plan, required_amounts,
}
use nbte_bridge.Ord.Multisig.Inputs.{Selected, none_selected, list_utxos}
use nbte_bridge.Ord.Multisig.Selection.{select_runes}
use nbte_bridge.Ord.Multisig.Funding.{
  estimate_p2wsh_multisig_tx_virtual_size, fee_sat, is_funded, fund, finish_psbt, create_rune_psbt,
}

module _ (wallet : Wallet) where
  -- The values along a successful run.
  pub record Run (transfers : List RuneTransfer) (rate limit : ℕ) (psbt : Psbt) : Type 0 where
    pub plan : Plan
    pub utxos : List Utxo
    pub chosen : Selected
    pub funded : Selected
    pub some_transfer : (length transfers == 0) ≡ false
    pub planned : plan_transfers wallet transfers 2 empty_plan ≡ ok plan
    pub listed : list_utxos wallet ≡ ok utxos
    pub selected : select_runes wallet utxos (required_amounts plan) none_selected ≡ ok chosen
    pub paid : fund wallet rate (planned_outputs wallet plan) utxos chosen ≡ ok funded
    pub finished : finish_psbt wallet rate limit (planned_outputs wallet plan) funded ≡ ok psbt

  pub create_rune_psbt-Run :
      (transfers : List RuneTransfer) (rate limit : ℕ) {psbt : Psbt}
      → create_rune_psbt wallet transfers rate limit ≡ ok psbt
      → Run transfers rate limit psbt
  unfolding create_rune_psbt
  create_rune_psbt-Run transfers rate limit {psbt} h =
      let (_, e0, h0) = >>=-eq-ok (raise_if (length transfers == 0) value_error) _ h in
      let (plan, e1, h1) = >>=-eq-ok (plan_transfers wallet transfers 2 empty_plan) _ h0 in
      let (utxos, e2, h2) = >>=-eq-ok (list_utxos wallet) _ h1 in
      let (chosen, e3, h3) =
        >>=-eq-ok (select_runes wallet utxos (required_amounts plan) none_selected) _ h2 in
      let (funded, e4, h4) =
        >>=-eq-ok (fund wallet rate (planned_outputs wallet plan) utxos chosen) _ h3 in
      record {
        plan = plan;
        utxos = utxos;
        chosen = chosen;
        funded = funded;
        some_transfer = raise_if-eq-ok _ _ e0;
        planned = e1;
        listed = e2;
        selected = e3;
        paid = e4;
        finished = h4;
      }

  -- The fee of a transaction: its estimated size with room for change, at the given rate.
  abbrev pub intended_fee : ℕ → List TxOut → List PsbtInput → ℕ
  intended_fee rate planned inputs =
      estimate_p2wsh_multisig_tx_virtual_size wallet.serialization inputs planned
        wallet.num_required_signers wallet.redeem_script true
      * rate

  abbrev pub change_output : ℕ → TxOut
  change_output change = record { value = change; script_pubkey = wallet.change_script_pubkey }

  pub record IsBalanced (rate limit : ℕ) (planned : List TxOut) (psbt : Psbt) : Type 0 where
    pub fee : input_value psbt ≡ output_value psbt + intended_fee rate planned psbt.inputs
    pub change :
        (psbt.outputs ≡ planned)
        ⊎ ((change : ℕ) × (dust_sat ≤ change)
            × (psbt.outputs ≡ planned ++ change_output change ∷ []))
    pub bounded : length psbt.inputs ≤ limit

  pub finish_psbt-IsBalanced :
      (rate limit : ℕ) (planned : List TxOut) (s : Selected) {psbt : Psbt}
      → is_funded wallet rate planned s ≡ true
      → finish_psbt wallet rate limit planned s ≡ ok psbt
      → IsBalanced rate limit planned psbt
  unfolding finish_psbt fee_sat
  finish_psbt-IsBalanced rate limit planned s {psbt} funded h =
      let spent = output_total planned + fee_sat wallet rate planned s in
      record {
        fee = ground arith;
        change = elim (Bool-cases (ltb 0 (s.input_amount_sat - spent))) [
          | inl some_change ↦ inr (s.input_amount_sat - spent, ground arith, ground arith)
          | inr no_change ↦ inl (ground arith)
        ];
        bounded = ground arith;
      }

  -- Where the node reports the amounts that the wallet listed, the end of `create_rune_psbt` raises
  -- only for too many inputs.
  pub finish_psbt-total :
      (rate limit : ℕ) (planned : List TxOut) (s : Selected)
      → is_funded wallet rate planned s ≡ true
      → input_total s.inputs ≡ s.input_amount_sat
      → length s.inputs ≤ limit
      → (psbt : Psbt) × (finish_psbt wallet rate limit planned s ≡ ok psbt)
  unfolding finish_psbt fee_sat
  finish_psbt-total rate limit planned s funded same fits =
      let spent = output_total planned + fee_sat wallet rate planned s in
      let change = s.input_amount_sat - spent in
      let extra = output_total-snoc planned (change_output change) in
      elim (Bool-cases (ltb 0 change)) [
        | inl some_change ↦ (
          record { inputs = s.inputs; outputs = planned ++ change_output change ∷ [] },
          ground (arith, extra),
        )
        | inr no_change ↦ (record { inputs = s.inputs; outputs = planned }, ground arith)
      ]

  pub finish_psbt-inputs :
      (rate limit : ℕ) (planned : List TxOut) (s : Selected) {psbt : Psbt}
      → finish_psbt wallet rate limit planned s ≡ ok psbt
      → psbt.inputs ≡ s.inputs
  unfolding finish_psbt
  finish_psbt-inputs rate limit planned s h = ground arith
