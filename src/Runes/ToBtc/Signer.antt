-- ===== src/Runes/ToBtc/Signer.antt =====
-- The Bitcoin side of a transfer: the wallet, and what the service asks of the Bitcoin libraries,
-- of bitcoind and of the fee estimator. A transaction that carries signatures is its serialised
-- text.
use nbte_bridge.Prelude.{ℕ, String, Bool, not, Option, List, [], ◌∷◌, ◌==◌, nat_eq, length}
use nbte_bridge.Result.{Result, ok, value_error, assertion, ◌>>=◌, ◌>>◌, raise_if, or_raise}
use nbte_bridge.Ord.Names.{PyordRune}
use nbte_bridge.Ord.Multisig.Types.{Edict, TxOut, Psbt, Wallet}
use nbte_bridge.Ord.Multisig.Funding.{estimate_p2wsh_multisig_tx_virtual_size}

-- `pyord.Runestone`, with the script that it enciphers to.
pub record Runestone : Type 0 where
  pub edicts : List Edict
  pub is_cenotaph : Bool
  pub script : String

pub record Signer : Type 0 where
  pub wallet : Wallet
  pub signer_xpub : String
  -- `pyord.Rune(n)`
  pub rune_of_number : ℕ → PyordRune
  -- `PSBT.from_base64`, `to_base64`
  pub psbt_from_base64 : String → Result Psbt
  pub psbt_to_base64 : Psbt → String
  pub signed_from_base64 : String → Result String
  -- the number of inputs that were signed, and the signed transaction
  pub psbt_sign : Psbt → Result (ℕ × String)
  pub psbt_combine : String → String → Result String
  -- whether the result is final, and the result
  pub psbt_finalize : String → Result (Bool × String)
  -- `pyord.Runestone.decipher_hex` of an unsigned transaction's outputs, and of a signed one
  pub decipher : List TxOut → Result (Option Runestone)
  pub decipher_signed : String → Result (Option Runestone)
  -- bitcoind
  pub test_mempool_accept : String → Result Bool
  pub send_raw_transaction : String → Result String
  -- `BitcoinFeeEstimator.get_fee_sats_per_vb`
  pub fee_sats_per_vb : Result ℕ

module _ (signer : Signer) where
  -- `OrdMultisig.sign_psbt` with `serialize_psbt` of its result
  unfoldable pub sign_psbt : Psbt → Result String
  sign_psbt psbt = do
    result ← signer.psbt_sign psbt
    raise_if (not (result.0 == length psbt.inputs)) assertion
    ok result.1

  -- `OrdMultisig.finalize_psbt`
  unfoldable pub finalize_psbt : String → Result String
  finalize_psbt psbt = do
    result ← signer.psbt_finalize psbt
    raise_if (not result.0) value_error
    runestone ← signer.decipher_signed result.1
    found ← or_raise runestone value_error
    raise_if found.is_cenotaph value_error
    ok result.1

  abbrev pub combine_all : String → List String → Result String
  combine_all psbt [] = ok psbt
  combine_all psbt (s ∷ ss) = do combined ← signer.psbt_combine psbt s; combine_all combined ss

  -- `OrdMultisig.combine_and_finalize_psbt`
  unfoldable pub combine_and_finalize_psbt : Psbt → List String → Result String
  combine_and_finalize_psbt initial_psbt signed_psbts = do
    combined ← combine_all (signer.psbt_to_base64 initial_psbt) signed_psbts
    finalize_psbt combined

  -- `OrdMultisig.broadcast_psbt`
  unfoldable pub broadcast_psbt : String → Result String
  broadcast_psbt psbt = do
    allowed ← signer.test_mempool_accept psbt
    raise_if (not allowed) value_error
    signer.send_raw_transaction psbt

  -- `OrdMultisig.estimate_psbt_size_vb`
  unfoldable pub estimate_psbt_size_vb : Psbt → ℕ
  estimate_psbt_size_vb psbt =
      estimate_p2wsh_multisig_tx_virtual_size signer.wallet.serialization psbt.inputs psbt.outputs
        signer.wallet.num_required_signers signer.wallet.redeem_script Bool.false
