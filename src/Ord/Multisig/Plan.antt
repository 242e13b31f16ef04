-- ===== src/Ord/Multisig/Plan.antt =====
-- The outputs of `create_rune_psbt` and the edicts that give runes to them.
use nbte_bridge.Prelude.{
  ℕ, suc, ◌+◌, String, List, [], ◌∷◌, ◌++◌, map, ◌==◌, nat_eq, string_eq, if◌then◌else◌,
}
use nbte_bridge.Prelude.Int.{ℤ, pos}
use nbte_bridge.Result.{
  Result, ok, lookup_error, zero_transfer_amount, ◌>>=◌, ◌>>◌, raise_if, or_raise,
}
use nbte_bridge.Ord.Multisig.Types.{
  RuneTransfer, Edict, TxOut, Wallet, target_postage_sat, assert_valid,
}

abbrev pub map_m : {A B : Type 0} → (A → Result B) → List A → Result (List B)
map_m f [] = ok []
map_m f (x ∷ xs) = do y ← f x; ys ← map_m f xs; ok (y ∷ ys)

-- `required_rune_amounts[name] += amount` on a `defaultdict(int)`.
abbrev pub add_amount : String → ℕ → List (String × ℕ) → List (String × ℕ)
add_amount name amount [] = (name, amount) ∷ []
add_amount name amount ((n, a) ∷ amounts) =
    if n == name then (n, a + amount) ∷ amounts else (n, a) ∷ add_amount name amount amounts

-- What the loop over the transfers collects.
pub record Plan : Type 0 where
  pub edicts : List Edict
  pub rune_outputs : List TxOut
  pub required : List (String × ℕ)

abbrev pub empty_plan : Plan
empty_plan = record { edicts = []; rune_outputs = []; required = [] }

-- The required amounts as they stand when the search for runes begins.
abbrev pub required_amounts : Plan → List (String × ℤ)
required_amounts plan = map (λ (r : String × ℕ). (r.0, pos r.1)) plan.required

module _ (wallet : Wallet) where
  -- One transfer: its checks, its edict for the given output, and that output.
  abbrev pub plan_transfer : RuneTransfer → ℕ → Result (Edict × TxOut)
  plan_transfer transfer output_index = do
    assert_valid wallet transfer
    rune_response ← wallet.get_rune transfer.rune.name
    id ← or_raise rune_response lookup_error
    rune_id ← wallet.rune_id_from_str id
    raise_if (transfer.amount == 0) zero_transfer_amount
    script ← wallet.parse_address transfer.receiver
    ok (
      record { id = rune_id; amount = transfer.amount; output = output_index },
      record { value = transfer.postage; script_pubkey = script },
    )

  abbrev pub plan_transfers : List RuneTransfer → ℕ → Plan → Result Plan
  plan_transfers [] output_index plan = ok plan
  plan_transfers (transfer ∷ transfers) output_index plan = do
    planned ← plan_transfer transfer output_index
    plan_transfers transfers (suc output_index) (record {
      edicts = plan.edicts ++ planned.0 ∷ [];
      rune_outputs = plan.rune_outputs ++ planned.1 ∷ [];
      required = add_amount transfer.rune.name transfer.amount plan.required;
    })

  -- The outputs at indices 0 and 1, and those of the transfers.
  abbrev pub planned_outputs : Plan → List TxOut
  planned_outputs plan =
      record { value = 0; script_pubkey = wallet.encipher plan.edicts 1 }
      ∷ record { value = target_postage_sat; script_pubkey = wallet.change_script_pubkey }
      ∷ plan.rune_outputs
