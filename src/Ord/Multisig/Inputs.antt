-- ===== src/Ord/Multisig/Inputs.antt =====
-- Unspent outputs and the inputs made of them (`list_utxos` and `add_psbt_input` of
-- bridge_node/bridge/common/ord/multisig.py).
use nbte_bridge.Prelude.{
  ℕ, ◌+◌, String, not, Option, none, some, List, [], ◌∷◌, ◌++◌, any, sort_by, leb, ◌==◌, nat_eq,
  string_eq, if◌then◌else◌,
}
use nbte_bridge.Result.{Result, ok, value_error, ◌>>=◌, ◌>>◌, raise_if, or_raise}
use nbte_bridge.Btc.Types.{Utxo, from_rpc_response}
use nbte_bridge.Ord.Multisig.Parsing.{same_bytes, parse_p2wsh_multisig_utxo_descriptor}
use nbte_bridge.Ord.Multisig.Types.{PsbtInput, Wallet}
use nbte_bridge.Ord.Multisig.Plan.{map_m}

-- The inputs chosen so far with the sum of their amounts, and what is still to be found of each
-- rune, which is negative once there is more than enough.
pub record Selected : Type 0 where
  pub inputs : List PsbtInput
  pub input_amount_sat : ℕ

abbrev pub add_input : Utxo → PsbtInput → Selected → Selected
add_input utxo input selected = record {
  inputs = selected.inputs ++ input ∷ [];
  input_amount_sat = selected.input_amount_sat + utxo.amount_satoshi;
}

abbrev pub none_selected : Selected
none_selected = record { inputs = []; input_amount_sat = 0 }

-- `if not utxo.witness_script`: an empty script is no script.
abbrev pub usable_script : Utxo → Option String
usable_script utxo = elim utxo.witness_script [
  | none ↦ none
  | some s ↦ if s == "" then none else some s
]

module _ (wallet : Wallet) where
  -- `list_utxos`: all unspent outputs, those with the most confirmations first.
  unfoldable pub list_utxos : Result (List Utxo)
  list_utxos = do
    raw_utxos ← wallet.list_unspent
    utxos ← map_m from_rpc_response raw_utxos
    ok (sort_by (λ (a b : Utxo). leb b.confirmations a.confirmations) utxos)

  -- `add_psbt_input`
  unfoldable pub make_input : Utxo → String → Result PsbtInput
  make_input utxo witness_script = do
    value ← wallet.transaction_output_value utxo.txid utxo.vout
    desc ← or_raise utxo.desc value_error
    parsed_descriptor ← parse_p2wsh_multisig_utxo_descriptor wallet.key_parser desc
    raise_if
        (not (any (same_bytes wallet.master_fingerprint) parsed_descriptor.master_fingerprints))
        value_error
    ok (record {
      txid = utxo.txid;
      vout = utxo.vout;
      value = value;
      witness_script = witness_script;
      derivation_map = parsed_descriptor.derivation_map;
    })
