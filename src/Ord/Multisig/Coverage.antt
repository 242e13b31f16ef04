-- ===== src/Ord/Multisig/Coverage.antt =====
-- The inputs that the first loop of `create_rune_psbt` picks hold the runes that it was asked for.
use mathlib.Core.Path.{subst}
use nbte_bridge.Prelude.{
  if◌then◌else◌, ℕ, ◌≤◌, ◌≡◌, refl, String, true, List, [], ◌∷◌, map, sum_by, all, All, Bool-cases,
  Option-cases, inl, inr, arith, none, some, Option,
}
use nbte_bridge.Prelude.Int.{ℤ, pos, negsuc, pos_part, ◌-ℤ◌}
use nbte_bridge.Result.{Result, ok, err, >>=-eq-ok, Result-cases, ◌>>=◌}
use nbte_bridge.Btc.Types.{Utxo}
use nbte_bridge.Ord.Outputs.{OrdOutput, get_rune_balance}
use nbte_bridge.Ord.Multisig.Types.{PsbtInput, Wallet}
use nbte_bridge.Ord.Multisig.Inputs.{Selected, add_input, usable_script}
use nbte_bridge.Ord.Multisig.Selection.{
  select_runes, rune_candidate, subtract_balances, is_met, relevant_balances,
}
use nbte_bridge.Ord.Multisig.Picked.{
  Picked, stop, skip, pick, add_all, RuneInput, rune_candidate-RuneInput,
}

abbrev pub value_or_zero : Result ℕ → ℕ
value_or_zero (ok b) = b
value_or_zero (err e) = 0

module _ (wallet : Wallet) where
  -- The balance of a rune in an output, as ord reports it.
  abbrev pub held : String → String → ℕ → ℕ
  held rune txid vout =
      value_or_zero (
        wallet.get_ord_output txid vout >>= λ output.
        get_rune_balance wallet.rune_names output rune)

  abbrev pub Covers : List (String × ℤ) → List (Utxo × PsbtInput) → Type 0
  Covers required ps =
      All (λ r. pos_part r.1 ≤ sum_by (λ p. held r.0 p.0.txid p.0.vout) ps) required

  relevant_balances-held :
      (u : Utxo) (output : OrdOutput) (required : List (String × ℤ)) {bs : List ℕ}
      → wallet.get_ord_output u.txid u.vout ≡ ok output
      → relevant_balances wallet output required ≡ ok bs
      → bs ≡ map (λ r. held r.0 u.txid u.vout) required
  relevant_balances-held u output [] e h = ground arith
  relevant_balances-held u output (r ∷ required) {bs} e h =
      let (b, e1, h1) = >>=-eq-ok (get_rune_balance wallet.rune_names output r.0) _ h in
      let (rest, e2, h2) = >>=-eq-ok (relevant_balances wallet output required) _ h1 in
      let ih = relevant_balances-held u output required e e2 in ground (arith, ih)

  rune_candidate-held :
      (u : Utxo) (required : List (String × ℤ)) {bs : List ℕ} {i : PsbtInput}
      → rune_candidate wallet u required ≡ ok (some (bs, i))
      → bs ≡ map (λ r. held r.0 u.txid u.vout) required
  unfolding rune_candidate
  rune_candidate-held u required {bs} h = elim (Option-cases (usable_script u)) [
    | inl e ↦ ground arith
    | inr (script, e) ↦ elim (Result-cases (wallet.get_ord_output u.txid u.vout)) [
      | inr (x, e1) ↦ ground arith
      | inl (output, e1) ↦ elim (Result-cases (relevant_balances wallet output required)) [
        | inr (x, e2) ↦ ground arith
        | inl (held_bs, e2) ↦ ground (arith, relevant_balances-held u output required e1 e2)
      ]
    ]
  ]

  Covers-met : (required : List (String × ℤ)) → all is_met required ≡ true → Covers required []
  Covers-met [] h = tt
  Covers-met ((n, pos a) ∷ required) h = ground (arith, Covers-met required)
  Covers-met ((n, negsuc a) ∷ required) h = ground (arith, Covers-met required)

  Covers-subtract :
      (u : Utxo) (i : PsbtInput) (ps : List (Utxo × PsbtInput)) (required : List (String × ℤ))
      → Covers (subtract_balances required (map (λ r. held r.0 u.txid u.vout) required)) ps
      → Covers required ((u, i) ∷ ps)
  unfolding ◌-ℤ◌
  Covers-subtract u i ps [] h = tt
  Covers-subtract u i ps ((n, pos a) ∷ required) h =
      (ground arith, Covers-subtract u i ps required h.1)
  Covers-subtract u i ps ((n, negsuc a) ∷ required) h =
      (omega arith, Covers-subtract u i ps required h.1)

  -- What the loop over the runes has done when it ends by its `break`.
  pub record Chosen (us : List Utxo) (required : List (String × ℤ)) (s t : Selected) : Type 0 where
    pub picks : List (Utxo × PsbtInput)
    pub picked : Picked (RuneInput wallet) us picks
    pub added : t ≡ add_all picks s
    pub covers : Covers required picks

  select_candidate :
      (u : Utxo) (us : List Utxo) (required : List (String × ℤ)) (s : Selected) {t : Selected}
      (r : Result (Option (List ℕ × PsbtInput)))
      → rune_candidate wallet u required ≡ r
      → (r >>= λ candidate. elim candidate [
        | none ↦ select_runes wallet us required s
        | some (balances, input) ↦
            let required' = subtract_balances required balances in
            let selected' = add_input u input s in
            let rest = select_runes wallet us required' selected' in
            if all is_met required' then ok selected' else rest
      ])
        ≡ ok t
      → (select_runes wallet us required s ≡ ok t → Chosen us required s t)
      → ((bs : List ℕ) (i : PsbtInput)
          → select_runes wallet us (subtract_balances required bs) (add_input u i s) ≡ ok t
          → Chosen us (subtract_balances required bs) (add_input u i s) t)
      → Chosen (u ∷ us) required s t
  select_candidate u us required s (err x) e h passed taken = cc
  select_candidate u us required s (ok none) e h passed taken =
      let rest = passed h in
      record {
        picks = rest.picks;
        picked = skip rest.picked;
        added = rest.added;
        covers = rest.covers;
      }
  select_candidate u us required s {t} (ok (some (bs, i))) e h passed taken =
      elim (Bool-cases (all is_met (subtract_balances required bs))) [
        | inl met ↦ record {
          picks = (u, i) ∷ [];
          picked = pick (rune_candidate-RuneInput wallet u required e) stop;
          added = ground arith;
          covers = covered [] (Covers-met (subtract_balances required bs) met);
        }
        | inr more ↦
            let rest = taken bs i (rw more at h) in
            record {
              picks = (u, i) ∷ rest.picks;
              picked = pick (rune_candidate-RuneInput wallet u required e) rest.picked;
              added = rest.added;
              covers = covered rest.picks rest.covers;
            }
      ]
    where
      covered :
          (ps : List (Utxo × PsbtInput))
          → Covers (subtract_balances required bs) ps
          → Covers required ((u, i) ∷ ps)
      covered ps c = Covers-subtract u i ps required (
          subst (λ x. Covers (subtract_balances required x) ps) (rune_candidate-held u required e)
            c)

  -- The loop over the runes only adds outputs that hold runes, and what it adds covers what is
  -- required.
  pub select_runes-Chosen :
      (us : List Utxo) (required : List (String × ℤ)) (s : Selected) {t : Selected}
      → select_runes wallet us required s ≡ ok t
      → Chosen us required s t
  unfolding select_runes
  select_runes-Chosen [] required s h = cc
  select_runes-Chosen (u ∷ us) required s {t} h =
      select_candidate u us required s (rune_candidate wallet u required) refl h
        (λ h. select_runes-Chosen us required s h)
        (λ bs i h. select_runes-Chosen us (subtract_balances required bs) (add_input u i s) h)
