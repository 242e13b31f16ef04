-- ===== src/TapRsk/TapToRsk/Signatures.antt =====
-- The signatures for a batch (bridge_node/bridge/bridges/tap_rsk/tap_to_rsk.py): the leader's checks of
-- the answers, and the arguments of the contract's calls.
use nbte_bridge.Prelude.{
  ℕ, String, Bool, true, false, not, List, [], ◌∷◌, map, length, contains, ◌==◌, nat_eq, string_eq,
  if◌then◌else◌,
}
use nbte_bridge.Result.{Result, ok, value_error, raise_if, ◌>>=◌, ◌>>◌}
use nbte_bridge.KeyValues.{put_value}
use nbte_bridge.TapRsk.Models.{TapToRskTransfer, SerializedTapToRskTransfer}
use nbte_bridge.TapRsk.External.{External, AcceptTransfer, SignTransferBatchAnswer}
use nbte_bridge.TapRsk.World.{Db}
use nbte_bridge.TapRsk.TapToRsk.Batches.{deposit_address}

-- `zip(*rows)`: as long as the shortest row.
abbrev pub zip_cons : List String → List (List String) → List (List String)
zip_cons [] columns = []
zip_cons (x ∷ xs) [] = []
zip_cons (x ∷ xs) (c ∷ cs) = (x ∷ c) ∷ zip_cons xs cs

unfoldable pub zip_rows : List (List String) → List (List String)
zip_rows [] = []
zip_rows (row ∷ []) = map (λ x. x ∷ []) row
zip_rows (row ∷ next ∷ rows) = zip_cons row (zip_rows (next ∷ rows))

module _ (ext : External) where
  abbrev pub message_hash : SerializedTapToRskTransfer → Result String
  message_hash t =
      ext.get_transfer_from_tap_message_hash t.rsk_address t.tap_address
        (ext.add_0x_prefix t.deposit_btc_tx_id) t.deposit_btc_tx_vout

  -- The loop over the transfers and the signatures of one answer.
  abbrev pub are_signed_by : String → List SerializedTapToRskTransfer → List String → Result Bool
  are_signed_by signer [] signatures = ok true
  are_signed_by signer (t ∷ ts) [] = ok true
  are_signed_by signer (t ∷ ts) (s ∷ ss) = do
    hash ← message_hash t
    recovered ← ext.recover_message hash s
    let rest = are_signed_by signer ts ss
    if recovered == signer then rest else ok false

  -- One turn of the federator's loop: it signs a transfer that the contract has not processed.
  abbrev pub sign_transfer : SerializedTapToRskTransfer → Result String
  sign_transfer t = do
    processed ← ext.is_processed (ext.add_0x_prefix t.deposit_btc_tx_id) t.deposit_btc_tx_vout
    raise_if processed value_error
    hash ← message_hash t
    ext.sign_message hash

  abbrev pub sign_transfers : List SerializedTapToRskTransfer → Result (List String)
  sign_transfers [] = ok []
  sign_transfers (t ∷ ts) = do
    signature ← sign_transfer t
    signatures ← sign_transfers ts
    ok (signature ∷ signatures)

  module _ (federators : List String) (num_transfers : ℕ)
      (transfers : List SerializedTapToRskTransfer) where
    unfoldable pub is_valid_response : SignTransferBatchAnswer → Result Bool
    is_valid_response response =
        if not (contains federators response.signer)
        then ok false
        else if not (length response.signatures == num_transfers)
        then ok false
        else are_signed_by response.signer transfers response.signatures

    abbrev pub add_response :
        SignTransferBatchAnswer → Bool → List (String × List String) → List (String × List String)
    add_response response valid signatures =
        if valid then put_value response.signer response.signatures signatures else signatures

    -- The loop over the answers.
    unfoldable pub collect_signatures :
        List SignTransferBatchAnswer
        → List (String × List String)
        → Result (List (String × List String))
    collect_signatures [] signatures = ok signatures
    collect_signatures (response ∷ responses) signatures = do
      valid ← is_valid_response response
      collect_signatures responses (add_response response valid signatures)

  module _ (db : Db) where
    -- The arguments of the calls: one for each transfer that has signatures.
    abbrev pub accept_calls :
        List TapToRskTransfer → List (List String) → Result (List AcceptTransfer)
    accept_calls [] columns = ok []
    accept_calls (t ∷ ts) [] = ok []
    accept_calls (t ∷ ts) (c ∷ cs) = do
      deposit ← deposit_address db t
      calls ← accept_calls ts cs
      ok (
          record {
            rsk_address = deposit.rsk_address;
            tap_address = deposit.tap_address;
            deposit_btc_tx_id = ext.add_0x_prefix t.deposit_btc_tx_id;
            deposit_btc_tx_vout = t.deposit_btc_tx_vout;
            signatures = c;
          }
          ∷ calls)

    abbrev pub accept_transfer_calls :
        List TapToRskTransfer → List (List String) → Result (List AcceptTransfer)
    accept_transfer_calls transfers rows = accept_calls transfers (zip_rows rows)
