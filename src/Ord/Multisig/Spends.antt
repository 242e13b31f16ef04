-- ===== src/Ord/Multisig/Spends.antt =====
-- `create_rune_psbt` spends no output more often than the wallet lists it.
use mathlib.Core.Path.{ap₂}
use nbte_bridge.Prelude.{
  ℕ, suc, ◌+◌, ◌≤◌, ◌≡◌, ◌≢◌, refl, sym, ◌∙◌, &&-true, ap, String, Bool, true, false, ◌&&◌, List,
  [], ◌∷◌, ◌++◌, ◌==◌, nat_eq, string_eq, if◌then◌else◌, Bool-cases, inl, inr, arith,
}
use nbte_bridge.Result.{ok}
use nbte_bridge.Btc.Types.{Utxo}
use nbte_bridge.Ord.Multisig.Types.{RuneTransfer, PsbtInput, Psbt, Wallet}
use nbte_bridge.Ord.Multisig.Inputs.{none_selected, list_utxos}
use nbte_bridge.Ord.Multisig.Plan.{required_amounts}
use nbte_bridge.Ord.Multisig.Funding.{create_rune_psbt}
use nbte_bridge.Ord.Multisig.Picked.{
  Picked, stop, skip, pick, inputs_of, inputs-add_all, IsInputOf, RuneInput, FeeInput, holds_runes,
  fund-Funded,
}
use nbte_bridge.Ord.Multisig.Coverage.{Covers, select_runes-Chosen}
use nbte_bridge.Ord.Multisig.Balance.{Run, create_rune_psbt-Run, finish_psbt-inputs}

abbrev pub at_outpoint : String → ℕ → String → ℕ → Bool
at_outpoint txid vout t v = (t == txid) && (v == vout)

at_outpoint_eq :
    (txid : String) (vout : ℕ) (t : String) (v : ℕ)
    → at_outpoint txid vout t v ≡ true
    → (t ≡ txid) × (v ≡ vout)
at_outpoint_eq txid vout t v h =
    let (et, ev) = &&-true (t == txid) (v == vout) h in
    ((string_eq.same_iff t txid).0 et, (nat_eq.same_iff v vout).0 ev)

-- How many inputs spend an outpoint, and how often the wallet lists it.
pub spends : String → ℕ → List PsbtInput → ℕ
spends txid vout [] = 0
spends txid vout (i ∷ is) =
    if at_outpoint txid vout i.txid i.vout then suc (spends txid vout is) else spends txid vout is

pub listed : String → ℕ → List Utxo → ℕ
listed txid vout [] = 0
listed txid vout (u ∷ us) =
    if at_outpoint txid vout u.txid u.vout then suc (listed txid vout us) else listed txid vout us

module _ (txid : String) (vout : ℕ) where
  spends-append :
      (is js : List PsbtInput)
      → spends txid vout (is ++ js) ≡ spends txid vout is + spends txid vout js
  unfolding spends
  spends-append [] js = omega arith
  spends-append (i ∷ is) js = ground (arith, spends-append is js)

  -- Where every pick is an input of the output that it was picked for.
  Picked-spends :
      (wallet : Wallet) (C : Utxo → PsbtInput → Type 0)
      → ((u : Utxo) (i : PsbtInput) → C u i → IsInputOf wallet u i)
      → {us : List Utxo} {ps : List (Utxo × PsbtInput)} → Picked C us ps
      → spends txid vout (inputs_of ps) ≤ listed txid vout us
  unfolding spends listed
  Picked-spends wallet C is_input stop = omega arith
  Picked-spends wallet C is_input (skip {u = u} p) =
      ground (arith, Picked-spends wallet C is_input p)
  Picked-spends wallet C is_input (pick {u = u} {i = i} c p) =
      ground (arith, is_input u i c, Picked-spends wallet C is_input p)

  -- An output is picked in one of the loops only.
  Picked-spends_none :
      (wallet : Wallet) (C : Utxo → PsbtInput → Type 0) (b c : Bool)
      → ((u : Utxo) (i : PsbtInput) → C u i → IsInputOf wallet u i)
      → ((u : Utxo) (i : PsbtInput) → C u i → holds_runes wallet u.txid u.vout ≡ b)
      → holds_runes wallet txid vout ≡ c
      → b ≢ c
      → {us : List Utxo} {ps : List (Utxo × PsbtInput)} → Picked C us ps
      → spends txid vout (inputs_of ps) ≡ 0
  unfolding spends
  Picked-spends_none wallet C b c is_input holds e ne stop = refl
  Picked-spends_none wallet C b c is_input holds e ne (skip p) =
      Picked-spends_none wallet C b c is_input holds e ne p
  Picked-spends_none wallet C b c is_input holds e ne (pick {u = u} {i = i} k p) =
      elim (Bool-cases (at_outpoint txid vout i.txid i.vout)) [
        | inl same ↦
            let (same_txid, same_vout) = at_outpoint_eq txid vout i.txid i.vout same in
            absurd (
              ne (
                sym (holds u i k)
                ∙ ap₂ (holds_runes wallet) (sym (is_input u i k).same_txid ∙ same_txid)
                    (sym (is_input u i k).same_vout ∙ same_vout)
                ∙ e))
        | inr other ↦ rw other (Picked-spends_none wallet C b c is_input holds e ne p)
      ]

  either_loop :
      (wallet : Wallet) {us : List Utxo} {ps qs : List (Utxo × PsbtInput)}
      → Picked (RuneInput wallet) us ps
      → Picked (FeeInput wallet) us qs
      → spends txid vout (inputs_of ps) + spends txid vout (inputs_of qs) ≤ listed txid vout us
  either_loop wallet p q = elim (Bool-cases (holds_runes wallet txid vout)) [
    | inl runes ↦
        let most = Picked-spends wallet (RuneInput wallet) (λ u i c. c.input) p in
        let rest =
          Picked-spends_none wallet (FeeInput wallet) false true (λ u i c. c.input)
            (λ u i c. c.no_runes) runes (λ e. cc e) q in
        omega (arith, most, rest)
    | inr no_runes ↦
        let most = Picked-spends wallet (FeeInput wallet) (λ u i c. c.input) q in
        let rest =
          Picked-spends_none wallet (RuneInput wallet) true false (λ u i c. c.input)
            (λ u i c. c.runes) no_runes (λ e. cc e) p in
        omega (arith, most, rest)
  ]

-- The inputs of a successful run: those of the first loop, then those of the second.
pub inputs-Picked :
    (wallet : Wallet) (transfers : List RuneTransfer) (rate limit : ℕ) {psbt : Psbt}
    (run : Run wallet transfers rate limit psbt)
    → (ps qs : List (Utxo × PsbtInput)) × Picked (RuneInput wallet) run.utxos ps
      × Picked (FeeInput wallet) run.utxos qs
      × Covers wallet (required_amounts run.plan) ps
      × (psbt.inputs ≡ inputs_of ps ++ inputs_of qs)
inputs-Picked wallet transfers rate limit run =
    let first = select_runes-Chosen wallet _ _ _ run.selected in
    let second = fund-Funded wallet _ _ _ _ run.paid in
    (
      first.picks,
      second.picks,
      first.picked,
      second.picked,
      first.covers,
      finish_psbt-inputs wallet rate limit _ _ run.finished
          ∙ ap (λ s. s.inputs) second.added
          ∙ inputs-add_all second.picks run.chosen
          ∙ ap (λ is. is ++ inputs_of second.picks)
              (ap (λ s. s.inputs) first.added ∙ inputs-add_all first.picks none_selected),
    )

-- A transaction that `create_rune_psbt` returns spends no outpoint more often than bitcoind lists it
-- as unspent: no input is used for the runes and again for the fee, and every input is one of the
-- wallet's unspent outputs.
pub create_rune_psbt-spends :
    (wallet : Wallet) (transfers : List RuneTransfer) (rate limit : ℕ) {psbt : Psbt}
    → create_rune_psbt wallet transfers rate limit ≡ ok psbt
    → (utxos : List Utxo) × (list_utxos wallet ≡ ok utxos)
      × ((txid : String) (vout : ℕ) → spends txid vout psbt.inputs ≤ listed txid vout utxos)
create_rune_psbt-spends wallet transfers rate limit {psbt} h =
    let run = create_rune_psbt-Run wallet transfers rate limit h in
    let (ps, qs, p, q, _, e) = inputs-Picked wallet transfers rate limit run in
    (
      run.utxos,
      run.listed,
      λ txid vout. omega (
        arith,
        ap (spends txid vout) e,
        spends-append txid vout (inputs_of ps) (inputs_of qs),
        either_loop txid vout wallet p q,
      ),
    )
