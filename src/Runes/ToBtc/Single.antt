-- ===== src/Runes/ToBtc/Single.antt =====
-- A question passes the checks of `answer_sign_rune_token_to_btc_transfer_question` with one
-- transfer only (bridge_node/bridge/bridges/runes/service.py).
use nbte_bridge.Prelude.{ℕ, String, ◌≡◌, some, List, [], ◌∷◌, length, get_elem?, nat_eq, arith, ◌≤◌}
use nbte_bridge.Result.{ok, validation, index_error, >>=-eq-ok, raise_if, or_raise}
use nbte_bridge.Ord.Multisig.Types.{TxOut, Edict}
use nbte_bridge.Runes.External.{RuneBridgeServiceConfig}
use nbte_bridge.Runes.Messages.{RuneTokenToBtcTransfer, SignRuneTokenToBtcTransferAnswer}
use nbte_bridge.Runes.World.{Db}
use nbte_bridge.Runes.ToBtc.Signer.{Signer, Runestone}
use nbte_bridge.Runes.ToBtc.Answer.{
  check_transfer, check_transfers, answer_transfers, has_duplicates, check_token_deposits,
  check_outputs,
}

module _ (config : RuneBridgeServiceConfig) (bridge_id : ℕ) (db : Db) (signer : Signer) where
  -- What a transfer that passes says of the first edict and of the transfer's output.
  check_transfer-edict :
      (vout : List TxOut) (runestone : Runestone) (k : ℕ) (t : RuneTokenToBtcTransfer)
      → check_transfer config bridge_id db signer vout runestone k t ≡ ok tt
      → (e : Edict) × (get_elem? runestone.edicts 0 ≡ some e)
        × (e.output ≡ k)
        × (e.amount ≡ t.net_rune_amount)
  unfolding check_transfer
  check_transfer-edict vout runestone k t h =
      let (response, e1, h1) = >>=-eq-ok (signer.wallet.get_rune t.rune_name) _ h in
      let (id, e2, h2) = >>=-eq-ok (or_raise response validation) _ h1 in
      let (rune_id, e3, h3) = >>=-eq-ok (signer.wallet.rune_id_from_str id) _ h2 in
      let (edict, e4, h4) = >>=-eq-ok (or_raise (get_elem? runestone.edicts 0) index_error) _ h3 in
      (edict, ground arith, ground arith, ground arith)

  -- A question with two or more transfers never passes: `answer_transfers` does not return.
  pub answer_transfers-single :
      (transfers : List RuneTokenToBtcTransfer) (s : String) (fee_rate : ℕ)
      {answer : SignRuneTokenToBtcTransferAnswer}
      → answer_transfers config bridge_id db signer transfers s fee_rate ≡ ok answer
      → length transfers ≤ 1
  unfolding answer_transfers
  answer_transfers-single [] s fee_rate h = omega arith
  answer_transfers-single (t ∷ []) s fee_rate h = omega arith
  answer_transfers-single (t ∷ u ∷ ts) s fee_rate h =
      let (_, e1, h1) = >>=-eq-ok (raise_if (has_duplicates (t ∷ u ∷ ts)) validation) _ h in
      let (_, e2, h2) =
        >>=-eq-ok (check_token_deposits config bridge_id db signer (t ∷ u ∷ ts)) _ h1 in
      let (psbt, e3, h3) = >>=-eq-ok (signer.psbt_from_base64 s) _ h2 in
      let (deciphered, e4, h4) = >>=-eq-ok (signer.decipher psbt.outputs) _ h3 in
      let (runestone, e5, h5) = >>=-eq-ok (or_raise deciphered validation) _ h4 in
      let (_, e6, h6) = >>=-eq-ok (raise_if runestone.is_cenotaph validation) _ h5 in
      let (_, e7, h7) =
        >>=-eq-ok
          (check_outputs config bridge_id db signer (length (t ∷ u ∷ ts)) psbt.outputs runestone) _
          h6 in
      let (_, e8, h8) =
        >>=-eq-ok (check_transfers config bridge_id db signer psbt.outputs runestone 2 (t ∷ u ∷ ts))
          _ h7 in
      let (_, e9, h9) =
        >>=-eq-ok (check_transfer config bridge_id db signer psbt.outputs runestone 2 t) _ e8 in
      let (_, e10, h10) =
        >>=-eq-ok (check_transfer config bridge_id db signer psbt.outputs runestone 3 u) _ h9 in
      let (a, a1, a2, _) = check_transfer-edict psbt.outputs runestone 2 t e9 in
      let (b, b1, b2, _) = check_transfer-edict psbt.outputs runestone 3 u e10 in ground arith
