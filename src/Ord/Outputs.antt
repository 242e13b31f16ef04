-- ===== src/Ord/Outputs.antt =====
-- Outputs as the ord indexer sees them (bridge_node/bridge/common/ord/utxos.py). The cache around
-- `get_ord_output` only repeats an earlier answer, so it is not modelled.
use nbte_bridge.Prelude.{
  ℕ, String, Bool, true, false, not, Option, none, some, List, [], ◌∷◌, ◌++◌, ◌==◌, string_eq,
  if◌then◌else◌, is_some,
}
use nbte_bridge.Result.{Result, ok, unindexed_output, assertion, ◌>>=◌, ◌>>◌, raise_if}
use nbte_bridge.Ord.Names.{RuneNames, rune_from_str}

-- The response of ord's `/output/<outpoint>`.
pub record OutputResponse : Type 0 where
  pub indexed : Bool
  pub transaction : String
  pub runes : List (String × ℕ)
  pub value : ℕ
  pub inscriptions : List String

pub record OrdOutput : Type 0 where
  pub txid : String
  pub vout : ℕ
  pub amount_satoshi : ℕ
  pub rune_balances : List (String × ℕ)
  pub inscriptions : List String

abbrev pub lookup : String → List (String × ℕ) → Option ℕ
lookup k [] = none
lookup k ((j, v) ∷ d) = if j == k then some v else lookup k d

abbrev pub or_zero : Option ℕ → ℕ
or_zero none = 0
or_zero (some v) = v

abbrev pub has_rune_balances : OrdOutput → Bool
has_rune_balances o = elim o.rune_balances [ [] ↦ false | _ ∷ _ ↦ true ]

module _ (names : RuneNames) where
  -- `get_normalized_rune_name` of a text; `coerce_rune` of a `Rune` or a number is `pyord`'s.
  unfoldable pub get_normalized_rune_name : String → Result String
  get_normalized_rune_name rune = do r ← rune_from_str names rune; ok r.name

  -- The loop that fills `rune_balances`; a new key goes to the end of the dictionary.
  abbrev pub normalize_balances : List (String × ℕ) → List (String × ℕ) → Result (List (String × ℕ))
  normalize_balances [] balances = ok balances
  normalize_balances ((rune_name, amount) ∷ runes) balances = do
    name ← get_normalized_rune_name rune_name
    raise_if (is_some (lookup name balances)) assertion
    normalize_balances runes (balances ++ (name, amount) ∷ [])

  -- `OrdOutputCache.get_ord_output`, from the response.
  unfoldable pub get_ord_output : String → ℕ → Result OutputResponse → Result OrdOutput
  get_ord_output txid vout answer = do
    response ← answer
    raise_if (not response.indexed) unindexed_output
    raise_if (not (response.transaction == txid)) assertion
    rune_balances ← normalize_balances response.runes []
    ok (record {
      txid = txid;
      vout = vout;
      amount_satoshi = response.value;
      rune_balances = rune_balances;
      inscriptions = response.inscriptions;
    })

  -- `OrdOutput.get_rune_balance`
  unfoldable pub get_rune_balance : OrdOutput → String → Result ℕ
  get_rune_balance output rune = do
    name ← get_normalized_rune_name rune
    ok (or_zero (lookup name output.rune_balances))
