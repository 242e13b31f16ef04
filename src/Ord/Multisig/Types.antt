-- ===== src/Ord/Multisig/Types.antt =====
-- Transfers (bridge_node/bridge/common/ord/transfers.py), unsigned transactions, and what the wallet
-- asks of bitcoind, ord and the Bitcoin libraries. Scripts and rune ids are opaque texts.
use nbte_bridge.Prelude.{
  ℕ, ◌+◌, ◌≡◌, String, Bool, not, Option, List, [], ◌∷◌, ◌++◌, ◌==◌, nat_eq, arith,
}
use nbte_bridge.Result.{Result, value_error, zero_transfer_amount, ◌>>=◌, ◌>>◌, raise_if}
use nbte_bridge.Ord.Multisig.Parsing.{Bytes, KeyParser}
use nbte_bridge.Ord.Names.{PyordRune, RuneNames}
use nbte_bridge.Ord.Outputs.{OrdOutput}
use nbte_bridge.Btc.Types.{RawUtxo}

-- `TARGET_POSTAGE_SAT`
abbrev pub target_postage_sat : ℕ
target_postage_sat = 10000

-- `OrdMultisig.DUST_SAT`
abbrev pub dust_sat : ℕ
dust_sat = 1000

-- Amounts that are not `int`s do not occur, and a negative amount is refused by the same test as 0
-- in the source; amounts here are naturals.
pub record RuneTransfer : Type 0 where
  pub rune : PyordRune
  pub receiver : String
  pub amount : ℕ
  pub postage : ℕ

pub record Edict : Type 0 where
  pub id : String
  pub amount : ℕ
  pub output : ℕ

pub record TxOut : Type 0 where
  pub value : ℕ
  pub script_pubkey : String

-- The input's outpoint, the value of the output that it spends as the spending node reports it,
-- and the script that unlocks it.
pub record PsbtInput : Type 0 where
  pub txid : String
  pub vout : ℕ
  pub value : ℕ
  pub witness_script : String
  pub derivation_map : List (String × String)

pub record Psbt : Type 0 where
  pub inputs : List PsbtInput
  pub outputs : List TxOut

unfoldable pub input_total : List PsbtInput → ℕ
input_total [] = 0
input_total (i ∷ is) = i.value + input_total is

unfoldable pub output_total : List TxOut → ℕ
output_total [] = 0
output_total (o ∷ os) = o.value + output_total os

pub input_total-append :
    (is js : List PsbtInput) → input_total (is ++ js) ≡ input_total is + input_total js
unfolding input_total
input_total-append [] js = omega arith
input_total-append (i ∷ is) js = omega (arith, input_total-append is js)

pub output_total-snoc :
    (os : List TxOut) (o : TxOut) → output_total (os ++ o ∷ []) ≡ output_total os + o.value
unfolding output_total
output_total-snoc [] o = omega arith
output_total-snoc (p ∷ os) o = omega (arith, output_total-snoc os o)

abbrev pub input_value : Psbt → ℕ
input_value psbt = input_total psbt.inputs

abbrev pub output_value : Psbt → ℕ
output_value psbt = output_total psbt.outputs

-- Sizes as the Bitcoin library serialises them, for `estimate_p2wsh_multisig_tx_virtual_size`: of
-- an input, of an output, of the witnesses of n inputs whose stacks hold an empty item, the given
-- number of signatures of the given length and the script; and the virtual size of the whole.
pub record Serialization : Type 0 where
  pub txin_size : PsbtInput → ℕ
  pub txout_size : TxOut → ℕ
  pub witness_size : ℕ → ℕ → ℕ → String → ℕ
  pub p2wsh_script_pubkey : String → String
  pub calculate_transaction_virtual_size : ℕ → ℕ → ℕ → ℕ → ℕ → ℕ

pub record Wallet : Type 0 where
  pub num_required_signers : ℕ
  pub redeem_script : String
  pub change_address : String
  pub change_script_pubkey : String
  pub master_fingerprint : Bytes
  pub min_non_change_rune_utxo_confirmations : ℕ
  -- ord
  pub get_rune : String → Result (Option String)
  pub rune_id_from_str : String → Result String
  pub get_ord_output : String → ℕ → Result OrdOutput
  pub rune_names : RuneNames
  -- bitcoind
  pub list_unspent : Result (List RawUtxo)
  pub transaction_output_value : String → ℕ → Result ℕ
  -- the Bitcoin libraries
  pub parse_address : String → Result String
  pub is_valid_script : String → Bool
  pub encipher : List Edict → ℕ → String
  pub key_parser : KeyParser
  pub serialization : Serialization

-- `RuneTransfer.assert_valid`; `CCoinAddress` raises where the receiver is no address.
unfoldable pub assert_valid : Wallet → RuneTransfer → Result (Unit {0})
assert_valid wallet transfer = do
  raise_if (transfer.postage == 0) value_error
  raise_if (transfer.amount == 0) zero_transfer_amount
  script ← wallet.parse_address transfer.receiver
  raise_if (not (wallet.is_valid_script script)) value_error
