-- ===== src/Runes/ToBtc/Send.antt =====
-- `OrdMultisig.send_runes` (bridge_node/bridge/common/ord/multisig.py), for a wallet with one signer.
use nbte_bridge.Prelude.{ℕ, String, not, List, length, ◌==◌, nat_eq}
use nbte_bridge.Result.{Result, ok, value_error, assertion, raise_if, ◌>>=◌, ◌>>◌}
use nbte_bridge.Ord.Multisig.Types.{RuneTransfer, Psbt}
use nbte_bridge.Ord.Multisig.Funding.{create_rune_psbt}
use nbte_bridge.Runes.ToBtc.Signer.{Signer, broadcast_psbt}

module _ (signer : Signer) (psbt_sign_final : Psbt → Result (ℕ × String)) where
  -- `sign_psbt` with `finalize=True`
  abbrev pub sign_psbt_final : Psbt → Result String
  sign_psbt_final psbt = do
    result ← psbt_sign_final psbt
    raise_if (not (result.0 == length psbt.inputs)) assertion
    ok result.1

  unfoldable pub send_runes : List RuneTransfer → ℕ → ℕ → Result String
  send_runes transfers fee_rate_sat_per_vbyte max_num_inputs = do
    raise_if (not (signer.wallet.num_required_signers == 1)) value_error
    psbt ← create_rune_psbt signer.wallet transfers fee_rate_sat_per_vbyte max_num_inputs
    signed_psbt ← sign_psbt_final psbt
    broadcast_psbt signer signed_psbt
