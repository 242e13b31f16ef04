-- ===== src/Ord/Multisig/Holdings.antt =====
-- What the wallet holds (bridge_node/bridge/common/ord/multisig.py): its balance of a rune, and its
-- outputs as ord sees them. The answer of ord to a repeated question may differ, so the questions for
-- an output are numbered.
use nbte_bridge.Prelude.{
  ℕ, zero, suc, ◌+◌, ◌<◌, String, ◌≡◌, refl, sym, Bool, true, Option, none, some, List, [], ◌∷◌,
  sum_by, All, if◌then◌else◌, arith,
}
use nbte_bridge.Result.{Result, ok, err, unindexed_output, ◌>>=◌}
use nbte_bridge.Btc.Types.{Utxo}
use nbte_bridge.Ord.Outputs.{OrdOutput, get_rune_balance}
use nbte_bridge.Ord.Multisig.Types.{Wallet}
use nbte_bridge.Ord.Multisig.Inputs.{list_utxos}

-- ord's answers for an output, by the number of the question.
abbrev pub OrdAnswers : Type 0
OrdAnswers = String → ℕ → ℕ → Result OrdOutput

module _ (wallet : Wallet) (ask_ord : OrdAnswers) where
  -- `get_rune_balance_at_output`
  unfoldable pub get_rune_balance_at_output : String → ℕ → String → ℕ → Result ℕ
  get_rune_balance_at_output txid vout rune_name n = do
    output ← ask_ord txid vout n
    get_rune_balance wallet.rune_names output rune_name

  -- The loop over the tries, from the `n`-th on, with `tries` left. Only an `UnindexedOutput` is caught,
  -- and it is raised again where the call is not to wait.
  abbrev pub balance_after_tries : (ℕ → Result ℕ) → Bool → ℕ → ℕ → Result ℕ
  balance_after_tries balance wait_for_indexing zero n = err unindexed_output
  balance_after_tries balance wait_for_indexing (suc tries) n =
      let rest = balance_after_tries balance wait_for_indexing tries (suc n) in
      elim (balance n) [
        | ok b ↦ ok b
        | err e ↦ elim e [
          | unindexed_output ↦ if wait_for_indexing then rest else err unindexed_output
          | other ↦ err other
        ]
      ]

  abbrev pub add_balances : String → Bool → List Utxo → Result ℕ
  add_balances rune_name wait_for_indexing [] = ok 0
  add_balances rune_name wait_for_indexing (u ∷ us) = do
    balance ←
        balance_after_tries (get_rune_balance_at_output u.txid u.vout rune_name) wait_for_indexing
          20 0
    rest ← add_balances rune_name wait_for_indexing us
    ok (balance + rest)

  -- `OrdMultisig.get_rune_balance`
  unfoldable pub wallet_rune_balance : String → Bool → Result ℕ
  wallet_rune_balance rune_name wait_for_indexing = do
    utxos ← list_utxos wallet
    add_balances rune_name wait_for_indexing utxos

  -- `list_utxos_with_ord_outputs`
  abbrev pub or_unindexed : Result OrdOutput → Result (Option OrdOutput)
  or_unindexed (ok o) = ok (some o)
  or_unindexed (err unindexed_output) = ok none
  or_unindexed (err e) = err e

  abbrev pub with_ord_outputs : List Utxo → Result (List (Utxo × Option OrdOutput))
  with_ord_outputs [] = ok []
  with_ord_outputs (u ∷ us) = do
    output ← or_unindexed (ask_ord u.txid u.vout 0)
    rest ← with_ord_outputs us
    ok ((u, output) ∷ rest)

  unfoldable pub list_utxos_with_ord_outputs : Result (List (Utxo × Option OrdOutput))
  list_utxos_with_ord_outputs = do utxos ← list_utxos wallet; with_ord_outputs utxos

  tries_lem :
      (balance : ℕ → Result ℕ) (b k tries n : ℕ)
      → k < tries
      → ((m : ℕ) → m < k → balance (n + m) ≡ err unindexed_output)
      → balance (n + k) ≡ ok b
      → balance_after_tries balance true tries n ≡ ok b
  tries_lem balance b k zero n lt failing found = absurd (omega arith)
  tries_lem balance b zero (suc tries) n lt failing found =
      let at : n + 0 ≡ n = omega arith in
      let now : balance n ≡ ok b = rw (sym at) found in ground (arith, now)
  tries_lem balance b (suc k) (suc tries) n lt failing found =
      let at : n + 0 ≡ n = omega arith in
      let now : balance n ≡ err unindexed_output = rw (sym at) (failing 0 (omega arith)) in
      let shift : (m : ℕ) → suc n + m ≡ n + suc m = λ m. omega arith in
      let rest : balance_after_tries balance true tries (suc n) ≡ ok b =
        tries_lem balance b k tries (suc n) (omega arith)
          (λ m l. rw (shift m) (failing (suc m) (omega arith))) (rw (shift k) found) in
      ground (arith, now, rest)

  -- An output that ord has indexed by the `tries`-th of the twenty questions, with this balance.
  pub record IsIndexed (rune_name : String) (balance : Utxo → ℕ) (u : Utxo) : Type 0 where
    pub tries : ℕ
    pub in_time : tries < 20
    pub unindexed :
        (m : ℕ)
        → m < tries
        → get_rune_balance_at_output u.txid u.vout rune_name m ≡ err unindexed_output
    pub indexed : get_rune_balance_at_output u.txid u.vout rune_name tries ≡ ok (balance u)

  add_balances_lem :
      (rune_name : String) (balance : Utxo → ℕ) (us : List Utxo)
      → All (IsIndexed rune_name balance) us
      → add_balances rune_name true us ≡ ok (sum_by balance us)
  add_balances_lem rune_name balance [] h = refl
  add_balances_lem rune_name balance (u ∷ us) h =
      let (i, rest) = h in
      let mine =
        tries_lem (get_rune_balance_at_output u.txid u.vout rune_name) (balance u) i.tries 20 0
          i.in_time (λ m lt. rw (zero_add m) (i.unindexed m lt))
          (rw (zero_add i.tries) i.indexed) in
      simp (mine, add_balances_lem rune_name balance us rest)
    where
      zero_add : (n : ℕ) → 0 + n ≡ n
      zero_add n = omega arith

  -- If ord has indexed every unspent output by the twentieth question about it, a call of
  -- `get_rune_balance` that waits for the index returns the sum of the rune's balances at all the
  -- unspent outputs of the wallet.
  pub wallet_rune_balance_lem :
      (rune_name : String) (balance : Utxo → ℕ) (utxos : List Utxo)
      → list_utxos wallet ≡ ok utxos
      → All (IsIndexed rune_name balance) utxos
      → wallet_rune_balance rune_name true ≡ ok (sum_by balance utxos)
  unfolding wallet_rune_balance
  wallet_rune_balance_lem rune_name balance utxos listed h =
      simp (listed, add_balances_lem rune_name balance utxos h)
