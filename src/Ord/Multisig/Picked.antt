-- ===== src/Ord/Multisig/Picked.antt =====
-- Which unspent outputs become inputs of `create_rune_psbt`: in the order of the wallet's list, each
-- at most once, those that hold runes in the first loop and those that hold none in the second.
use nbte_bridge.Prelude.{
  ℕ, ◌+◌, ◌≡◌, refl, String, Bool, true, false, List, [], ◌∷◌, ◌++◌, sum_by, Bool-cases,
  Option-cases, inl, inr, arith, none, some, Option,
}
use mathlib.Core.List.{append-nil, append_assoc}
use nbte_bridge.Prelude.Int.{ℤ}
use nbte_bridge.Result.{Result, ok, err, ◌>>=◌}
use nbte_bridge.Btc.Types.{Utxo}
use nbte_bridge.Ord.Outputs.{has_rune_balances}
use nbte_bridge.Ord.Multisig.Types.{TxOut, PsbtInput, Wallet}
use nbte_bridge.Ord.Multisig.Inputs.{Selected, make_input, add_input, usable_script}
use nbte_bridge.Ord.Multisig.Selection.{rune_candidate}
use nbte_bridge.Ord.Multisig.Funding.{fee_candidate, is_funded, fund}

-- A way to go through a list of outputs and to pick some, each for a reason.
pub data Picked (C : Utxo → PsbtInput → Type 0) : List Utxo → List (Utxo × PsbtInput) → Type 0 where
  stop : {us : List Utxo} → Picked C us []
  skip :
      {u : Utxo} {us : List Utxo} {ps : List (Utxo × PsbtInput)}
      → Picked C us ps
      → Picked C (u ∷ us) ps
  pick :
      {u : Utxo} {i : PsbtInput} {us : List Utxo} {ps : List (Utxo × PsbtInput)}
      → C u i
      → Picked C us ps
      → Picked C (u ∷ us) ((u, i) ∷ ps)

abbrev pub add_all : List (Utxo × PsbtInput) → Selected → Selected
add_all [] s = s
add_all ((u, i) ∷ ps) s = add_all ps (add_input u i s)

abbrev pub inputs_of : List (Utxo × PsbtInput) → List PsbtInput
inputs_of [] = []
inputs_of ((u, i) ∷ ps) = i ∷ inputs_of ps

pub inputs-add_all :
    (ps : List (Utxo × PsbtInput)) (s : Selected) → (add_all ps s).inputs ≡ s.inputs ++ inputs_of ps
inputs-add_all [] s = rw append-nil
inputs-add_all ((u, i) ∷ ps) s = rw (inputs-add_all ps (add_input u i s)) (rw append_assoc)

pub amount-add_all :
    (ps : List (Utxo × PsbtInput)) (s : Selected)
    → (add_all ps s).input_amount_sat ≡ s.input_amount_sat + sum_by (λ p. p.0.amount_satoshi) ps
amount-add_all [] s = omega arith
amount-add_all ((u, i) ∷ ps) s = omega (arith, amount-add_all ps (add_input u i s))

module _ (wallet : Wallet) where
  -- The outpoint is that of the unspent output, and the value is the one that the spending node
  -- reports.
  pub record IsInputOf (u : Utxo) (i : PsbtInput) : Type 0 where
    pub same_txid : i.txid ≡ u.txid
    pub same_vout : i.vout ≡ u.vout
    pub reported : wallet.transaction_output_value u.txid u.vout ≡ ok i.value

  -- What ord says of an output's runes.
  abbrev pub holds_runes : String → ℕ → Bool
  holds_runes txid vout = elim (wallet.get_ord_output txid vout) [
    | ok o ↦ has_rune_balances o
    | err e ↦ false
  ]

  make_input-IsInputOf :
      (u : Utxo) (script : String) {i : PsbtInput}
      → make_input wallet u script ≡ ok i
      → IsInputOf u i
  unfolding make_input
  make_input-IsInputOf u script h = ground arith

  -- The reasons to pick in the two loops.
  pub record RuneInput (u : Utxo) (i : PsbtInput) : Type 0 where
    pub input : IsInputOf u i
    pub runes : holds_runes u.txid u.vout ≡ true

  pub record FeeInput (u : Utxo) (i : PsbtInput) : Type 0 where
    pub input : IsInputOf u i
    pub no_runes : holds_runes u.txid u.vout ≡ false

  pub fee_candidate-FeeInput :
      (u : Utxo) {i : PsbtInput} → fee_candidate wallet u ≡ ok (some i) → FeeInput u i
  unfolding fee_candidate
  fee_candidate-FeeInput u h = elim (Option-cases (usable_script u)) [
    | inl e ↦ ground arith
    | inr (script, e) ↦ record {
      input = grind (arith, make_input-IsInputOf u script);
      no_runes = ground arith;
    }
  ]

  pub rune_candidate-RuneInput :
      (u : Utxo) (required : List (String × ℤ)) {bs : List ℕ} {i : PsbtInput}
      → rune_candidate wallet u required ≡ ok (some (bs, i))
      → RuneInput u i
  unfolding rune_candidate
  rune_candidate-RuneInput u required {i = i} h = elim (Option-cases (usable_script u)) [
    | inl e ↦ ground arith
    | inr (script, e) ↦ record {
      input = ground (arith, make_input-IsInputOf u script {i = i});
      runes = ground arith;
    }
  ]

  -- What the funding loop has done when it ends.
  pub record Funded (rate : ℕ) (outputs : List TxOut) (us : List Utxo) (s t : Selected)
      : Type 0 where
    pub picks : List (Utxo × PsbtInput)
    pub picked : Picked FeeInput us picks
    pub added : t ≡ add_all picks s
    pub enough : is_funded wallet rate outputs t ≡ true

  module _ (rate : ℕ) (outputs : List TxOut) where
    fund_candidate :
        (u : Utxo) (us : List Utxo) (s : Selected) {t : Selected} (r : Result (Option PsbtInput))
        → fee_candidate wallet u ≡ r
        → (r >>= λ candidate. elim candidate [
          | none ↦ fund wallet rate outputs us s
          | some input ↦ fund wallet rate outputs us (add_input u input s)
        ])
          ≡ ok t
        → (fund wallet rate outputs us s ≡ ok t → Funded rate outputs us s t)
        → ((i : PsbtInput)
            → fund wallet rate outputs us (add_input u i s) ≡ ok t
            → Funded rate outputs us (add_input u i s) t)
        → Funded rate outputs (u ∷ us) s t
    fund_candidate u us s (err x) e h passed taken = cc
    fund_candidate u us s (ok none) e h passed taken =
        let rest = passed h in
        record {
          picks = rest.picks;
          picked = skip rest.picked;
          added = rest.added;
          enough = rest.enough;
        }
    fund_candidate u us s (ok (some i)) e h passed taken =
        let rest = taken i h in
        record {
          picks = (u, i) ∷ rest.picks;
          picked = pick (fee_candidate-FeeInput u e) rest.picked;
          added = rest.added;
          enough = rest.enough;
        }

    -- The funding loop only adds outputs without runes, and ends where its test passes.
    pub fund-Funded :
        (us : List Utxo) (s : Selected) {t : Selected}
        → fund wallet rate outputs us s ≡ ok t
        → Funded rate outputs us s t
    unfolding fund
    fund-Funded [] s h = record {
      picks = [];
      picked = stop;
      added = ground arith;
      enough = ground arith;
    }
    fund-Funded (u ∷ us) s {t} h = elim (Bool-cases (is_funded wallet rate outputs s)) [
      | inl done ↦ record { picks = []; picked = stop; added = ground arith; enough = ground arith }
      | inr more ↦
          fund_candidate u us s (fee_candidate wallet u) refl (rw more at h)
            (λ h. fund-Funded us s h) (λ i h. fund-Funded us (add_input u i s) h)
    ]
