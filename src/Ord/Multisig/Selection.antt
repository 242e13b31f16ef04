-- ===== src/Ord/Multisig/Selection.antt =====
-- The choice of inputs that hold the runes, in `create_rune_psbt`.
use nbte_bridge.Prelude.{
  ℕ, zero, suc, String, Bool, true, false, not, ◌&&◌, ◌||◌, Option, none, some, List, [], ◌∷◌, any,
  all, ltb, ◌==◌, nat_eq, string_eq, if◌then◌else◌,
}
use nbte_bridge.Prelude.Int.{ℤ, pos, negsuc, ◌-ℤ◌}
use nbte_bridge.Result.{Result, ok, err, insufficient_rune_balance, ◌>>=◌}
use nbte_bridge.Ord.Outputs.{OrdOutput, has_rune_balances, get_rune_balance}
use nbte_bridge.Btc.Types.{Utxo}
use nbte_bridge.Ord.Multisig.Types.{PsbtInput, Wallet}
use nbte_bridge.Ord.Multisig.Plan.{map_m}
use nbte_bridge.Ord.Multisig.Inputs.{Selected, add_input, usable_script, make_input}

abbrev pub subtract_balances : List (String × ℤ) → List ℕ → List (String × ℤ)
subtract_balances [] balances = []
subtract_balances (r ∷ required) [] = r ∷ required
subtract_balances ((n, a) ∷ required) (b ∷ balances) =
    (n, a -ℤ pos b) ∷ subtract_balances required balances

-- `v <= 0`
abbrev pub is_met : String × ℤ → Bool
is_met (n, pos zero) = true
is_met (n, pos (suc a)) = false
is_met (n, negsuc a) = true

module _ (wallet : Wallet) where
  -- `utxo.address != self.change_address and utxo.confirmations < ...`
  abbrev pub is_too_young : Utxo → Bool
  is_too_young utxo =
      not (elim utxo.address [ none ↦ false | some a ↦ a == wallet.change_address ])
      && ltb utxo.confirmations wallet.min_non_change_rune_utxo_confirmations

  -- The balances of the required runes in an output, in the order of `required`.
  abbrev pub relevant_balances : OrdOutput → List (String × ℤ) → Result (List ℕ)
  relevant_balances output required =
      map_m (λ r. get_rune_balance wallet.rune_names output r.0) required

  -- One unspent output in the search for runes: `none` passes it over, else what it holds of the
  -- required runes, and the input.
  unfoldable pub rune_candidate : Utxo → List (String × ℤ) → Result (Option (List ℕ × PsbtInput))
  rune_candidate utxo required = elim (usable_script utxo) [
    | none ↦ ok none
    | some script ↦ do
      output ← wallet.get_ord_output utxo.txid utxo.vout
      if not (has_rune_balances output) || is_too_young utxo then ok none else do
        balances ← relevant_balances output required
        if not (any (λ b. ltb 0 b) balances)
            then ok none
            else do input ← make_input wallet utxo script; ok (some (balances, input))
  ]

  -- The loop that chooses inputs for the runes, with its `else`.
  unfoldable pub select_runes : List Utxo → List (String × ℤ) → Selected → Result Selected
  select_runes [] required selected = err insufficient_rune_balance
  select_runes (utxo ∷ utxos) required selected = do
    candidate ← rune_candidate utxo required
    elim candidate [
      | none ↦ select_runes utxos required selected
      | some (balances, input) ↦
          let required' = subtract_balances required balances in
          let selected' = add_input utxo input selected in
          let rest = select_runes utxos required' selected' in
          if all is_met required' then ok selected' else rest
    ]
