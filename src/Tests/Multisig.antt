-- ===== src/Tests/Multisig.antt =====
-- The wallet of the tests pays one transfer.
use nbte_bridge.Prelude.{ℕ, String, ◌≤◌, ◌≡◌, refl, List, sum_by, ◌∷◌}
use nbte_bridge.Prelude.Int.{◌*ℤ◌, ◌-ℤ◌}
use nbte_bridge.Result.{ok, err, value_error}
use nbte_bridge.Btc.Amounts.{to_satoshi}
use nbte_bridge.Btc.Types.{Utxo, from_rpc_response}
use nbte_bridge.Ord.Names.{rune_from_str, remove_spacers}
use nbte_bridge.Ord.Outputs.{get_rune_balance, get_normalized_rune_name}
use nbte_bridge.Ord.Multisig.Types.{
  PsbtInput, Edict, TxOut, assert_valid, input_total, output_total,
}
use nbte_bridge.Ord.Multisig.Inputs.{list_utxos, make_input}
use nbte_bridge.Ord.Multisig.Selection.{select_runes, rune_candidate}
use nbte_bridge.Ord.Multisig.Funding.{
  create_rune_psbt, estimate_p2wsh_multisig_tx_virtual_size, fee_sat, fee_candidate, fund,
  finish_psbt,
}
use nbte_bridge.Ord.Multisig.Balance.{IsBalanced}
use nbte_bridge.Ord.Multisig.Coverage.{held}
use nbte_bridge.Ord.Multisig.Parsing.{
  parse_p2wsh_multisig_utxo_descriptor, match_descriptor, parse_info,
}
use nbte_bridge.Ord.Multisig.Spends.{spends, listed, create_rune_psbt-spends}
use nbte_bridge.Ord.Multisig.Sends.{
  requested, Sends, create_rune_psbt_covers, create_rune_psbt-Sends,
}
use nbte_bridge.Tests.Wallet.{wallet, transfers, psbt}

created : create_rune_psbt wallet transfers 1 200 ≡ ok psbt
unfolding create_rune_psbt assert_valid list_utxos from_rpc_response to_satoshi ◌*ℤ◌ select_runes
    rune_candidate get_rune_balance get_normalized_rune_name rune_from_str remove_spacers make_input
    parse_p2wsh_multisig_utxo_descriptor match_descriptor parse_info fund fee_candidate fee_sat
    estimate_p2wsh_multisig_tx_virtual_size finish_psbt input_total output_total ◌-ℤ◌
created = refl

create_rune_psbt-spends_example :
    (utxos : List Utxo) × (list_utxos wallet ≡ ok utxos)
    × ((txid : String) (vout : ℕ) → spends txid vout psbt.inputs ≤ listed txid vout utxos)
create_rune_psbt-spends_example = create_rune_psbt-spends wallet transfers 1 200 created

create_rune_psbt_covers_example :
    requested "ABC" transfers
    ≤ sum_by (λ (i : PsbtInput). held wallet "ABC" i.txid i.vout) psbt.inputs
create_rune_psbt_covers_example = create_rune_psbt_covers wallet transfers 1 200 created "ABC"

create_rune_psbt-Sends_example :
    (edicts : List Edict) × (outputs : List TxOut) × Sends wallet transfers 2 edicts outputs
    × IsBalanced wallet 1 200
        (record { value = 0; script_pubkey = wallet.encipher edicts 1 }
          ∷ record { value = 10000; script_pubkey = wallet.change_script_pubkey }
          ∷ outputs)
        psbt
create_rune_psbt-Sends_example = create_rune_psbt-Sends wallet transfers 1 200 created

-- The first expression takes a comma after the last key, and the loop then meets an empty text.
comma_at_end :
    parse_p2wsh_multisig_utxo_descriptor wallet.key_parser
      "wsh(multi(1,[7f3e784c/0/0/0]02557f9ba4,))#kxmewpkl"
    ≡ err value_error
unfolding parse_p2wsh_multisig_utxo_descriptor match_descriptor parse_info
comma_at_end = refl

matched_comma :
    match_descriptor wallet.key_parser "wsh(multi(1,[7f3e784c/0/0/0]02557f9ba4,))#kxmewpkl"
    ≡ ok (1, "[7f3e784c/0/0/0]02557f9ba4,")
unfolding match_descriptor
matched_comma = refl

other_script :
    parse_p2wsh_multisig_utxo_descriptor wallet.key_parser
      "wpkh([7f3e784c/0/0/0]02557f9ba4)#kxmewpkl"
    ≡ err value_error
unfolding parse_p2wsh_multisig_utxo_descriptor match_descriptor
other_script = refl
