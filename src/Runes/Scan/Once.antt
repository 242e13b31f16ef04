-- ===== src/Runes/Scan/Once.antt =====
-- A scan for rune deposits sends nothing, and keeps the bounds on what the deposits allow to be sent:
-- a deposit that it adds is not sent yet, and a known one goes at most from detected to accepted.
use nbte_bridge.Prelude.{
  ℕ, String, ◌≡◌, refl, Option, none, some, List, [], ◌∷◌, arith, not, suc, ◌+◌, keep, ◌==◌,
  string_eq,
}
use nbte_bridge.Result.{or_raise, raise_if, lookup_error, runtime, one_or_none, one}
use nbte_bridge.Proc.Hoare.{Post, Post-lift, Keeps}
use nbte_bridge.Ord.Names.{PyordRune, rune_from_str}
use nbte_bridge.Runes.Models.{DepositAddress, IncomingBtcTx, Rune, RuneDeposit, RuneDepositStatus}
use nbte_bridge.Runes.External.{External, RuneBridgeServiceConfig, RuneEntry}
use nbte_bridge.Runes.World.{rune_bridge_table, World, transaction}
use nbte_bridge.KeyValues.{Value, text}
use nbte_bridge.KeyValues.{get_value}
use nbte_bridge.Runes.ToEvm.{update_deposit}
use nbte_bridge.Runes.ToEvm.Once.{status_allowance, update_deposit-IsOnce}
use nbte_bridge.Runes.Quiet.{
  IsSafe, IsQuiet, KeepsQuiet, begins-IsQuiet, transaction-IsQuiet, IsSafe-Post, change-IsQuiet,
  notify-IsQuiet, add_deposit-IsQuiet, bind-IsQuiet, lift-IsQuiet, asks-IsQuiet, gets-IsQuiet,
  pure-IsQuiet, for_each-IsQuiet, set_value-IsQuiet,
}
use nbte_bridge.Runes.Scan.Listed.{Listing, ListedOutput, Scanned, ScannedTx, list_deposits}
use nbte_bridge.Runes.Scan.Deposits.{
  runes_with_number, Found, accepted_status, fill_deposit, add_missing_rune, add_btc_tx, index_rune,
  store_btc_tx, put_btc_tx,
}
use nbte_bridge.Runes.Scan.Store.{
  put_deposit, store_deposit, store_rune_balance, store_rune_balances, store_output, store_for_user,
  store_tx, store_rows, last_block_key, same_value, block_hash, store_txs, scan_rune_deposits,
}

module _ (config : RuneBridgeServiceConfig) (bridge_id : ℕ) (ext : External) where
  accepted_status_lem :
      (tx : ScannedTx) (s : RuneDepositStatus)
      → status_allowance (accepted_status config bridge_id ext tx s) ≡ status_allowance s
  accepted_status_lem tx RuneDepositStatus.detected = ground arith
  accepted_status_lem tx _ = ground arith

  module _ {start : World} where
    add_missing_rune-IsQuiet :
        (r : PyordRune) (e : RuneEntry) (o : Option Rune)
        → KeepsQuiet start (add_missing_rune config bridge_id ext r e o)
    add_missing_rune-IsQuiet r e none = change-IsQuiet _ (λ db. refl) (λ db. refl)
    add_missing_rune-IsQuiet r e (some rune) = pure-IsQuiet tt

    index_rune-IsQuiet : (e : RuneEntry) → KeepsQuiet start (index_rune config bridge_id ext e)
    unfolding index_rune
    index_rune-IsQuiet e =
        bind-IsQuiet (lift-IsQuiet (rune_from_str ext.rune_names e.spaced_rune)) λ r.
          bind-IsQuiet (asks-IsQuiet λ w. one_or_none (runes_with_number bridge_id r.n w.db))
            (add_missing_rune-IsQuiet r e)

    add_btc_tx-IsQuiet :
        (tx : ScannedTx) (id : ℕ) → KeepsQuiet start (add_btc_tx config bridge_id ext tx id)
    add_btc_tx-IsQuiet tx id = change-IsQuiet _ (λ db. refl) (λ db. refl)

    put_btc_tx-IsQuiet :
        (tx : ScannedTx) (o : Option IncomingBtcTx)
        → KeepsQuiet start (put_btc_tx config bridge_id ext tx o)
    put_btc_tx-IsQuiet tx (some t) =
        bind-IsQuiet (change-IsQuiet _ (λ db. refl) (λ db. refl)) λ _. pure-IsQuiet t.id
    put_btc_tx-IsQuiet tx none = bind-IsQuiet (notify-IsQuiet ext _) λ _.
        bind-IsQuiet (gets-IsQuiet λ w. w.db.next_btc_tx_id)
          λ id. bind-IsQuiet (add_btc_tx-IsQuiet tx id) λ _. pure-IsQuiet id

    store_btc_tx-IsQuiet :
        (tx : ScannedTx) → KeepsQuiet start (store_btc_tx config bridge_id ext tx)
    unfolding store_btc_tx
    store_btc_tx-IsQuiet tx = bind-IsQuiet (asks-IsQuiet _) (put_btc_tx-IsQuiet tx)

    refilled-IsQuiet :
        (found : Found) (i : ℕ)
        → KeepsQuiet start (update_deposit i (fill_deposit config bridge_id ext found))
    refilled-IsQuiet found i = record {
      keeps = λ w q. record {
        safe = record {
          to_evm =
              update_deposit-IsOnce i (fill_deposit config bridge_id ext found) w (λ d. refl)
                (λ d. omega (arith, accepted_status_lem found.tx d.status)) q.safe.to_evm;
          to_btc = record { paid = λ i. q.safe.to_btc.paid i };
        };
        submitted_same = λ i. q.submitted_same i;
        broadcast_same = λ i. q.broadcast_same i;
      };
    }

    put_deposit-IsQuiet :
        (found : Found) (o : Option RuneDeposit)
        → KeepsQuiet start (put_deposit config bridge_id ext found o)
    put_deposit-IsQuiet found (some d) =
        bind-IsQuiet (lift-IsQuiet (or_raise found.tx.blockheight lookup_error))
          λ _. refilled-IsQuiet found d.id
    put_deposit-IsQuiet found none = bind-IsQuiet (notify-IsQuiet ext _) λ _.
        bind-IsQuiet (lift-IsQuiet (or_raise found.tx.blockheight lookup_error))
          λ _. add_deposit-IsQuiet _ _ (λ db. refl) (λ db. refl)

    store_deposit-IsQuiet :
        (found : Found) → KeepsQuiet start (store_deposit config bridge_id ext found)
    unfolding store_deposit
    store_deposit-IsQuiet found = bind-IsQuiet (asks-IsQuiet _) (put_deposit-IsQuiet found)

    module _ (tx : ScannedTx) (btc_tx_id user_id postage : ℕ) where
      store_rune_balance-IsQuiet :
          (r : String × (ℕ × ℕ))
          → KeepsQuiet start
              (store_rune_balance config bridge_id ext tx btc_tx_id user_id postage r)
      unfolding store_rune_balance
      store_rune_balance-IsQuiet (name, (amount, divisibility)) =
          bind-IsQuiet (lift-IsQuiet (rune_from_str ext.rune_names name)) λ r.
            bind-IsQuiet (asks-IsQuiet λ w. one (runes_with_number bridge_id r.n w.db))
              (λ rune. store_deposit-IsQuiet _)

      store_rune_balances-IsQuiet :
          (rs : List (String × (ℕ × ℕ)))
          → KeepsQuiet start
              (store_rune_balances config bridge_id ext tx btc_tx_id user_id postage rs)
      store_rune_balances-IsQuiet [] = pure-IsQuiet 0
      store_rune_balances-IsQuiet (r ∷ rs) =
          bind-IsQuiet (store_rune_balance-IsQuiet r)
            λ _. bind-IsQuiet (store_rune_balances-IsQuiet rs) λ n. pure-IsQuiet (suc n)

    store_output-IsQuiet :
        (tx : ScannedTx) (btc_tx_id user_id : ℕ) (o : Option ListedOutput)
        → KeepsQuiet start (store_output config bridge_id ext tx btc_tx_id user_id o)
    store_output-IsQuiet tx b u none = pure-IsQuiet 0
    store_output-IsQuiet tx b u (some o) = store_rune_balances-IsQuiet tx b u o.value o.runes

    store_for_user-IsQuiet :
        (tx : ScannedTx) (btc_tx_id : ℕ) (o : Option DepositAddress)
        → KeepsQuiet start (store_for_user config bridge_id ext tx btc_tx_id o)
    store_for_user-IsQuiet tx b none = pure-IsQuiet 0
    store_for_user-IsQuiet tx b (some a) =
        bind-IsQuiet (change-IsQuiet _ (λ db. refl) (λ db. refl))
          λ _. store_output-IsQuiet tx b a.user_id tx.ord_output

    store_tx-IsQuiet : (tx : ScannedTx) → KeepsQuiet start (store_tx config bridge_id ext tx)
    unfolding store_tx
    store_tx-IsQuiet tx = bind-IsQuiet (lift-IsQuiet _) λ _.
        bind-IsQuiet (store_btc_tx-IsQuiet tx) λ i.
          bind-IsQuiet
            (asks-IsQuiet
              λ w. one_or_none (keep (λ a. a.btc_address == tx.address) w.db.deposit_addresses))
            (store_for_user-IsQuiet tx i)

    store_txs-IsQuiet :
        (txs : List ScannedTx) → KeepsQuiet start (store_txs config bridge_id ext txs)
    store_txs-IsQuiet [] = pure-IsQuiet 0
    store_txs-IsQuiet (tx ∷ txs) =
        bind-IsQuiet (store_tx-IsQuiet tx)
          λ n. bind-IsQuiet (store_txs-IsQuiet txs) λ m. pure-IsQuiet (n + m)

    store_scanned-IsQuiet :
        (before : Option Value) (scanned : Scanned)
        → KeepsQuiet start (store_rows config bridge_id ext before scanned)
    store_scanned-IsQuiet before scanned =
        bind-IsQuiet (for_each-IsQuiet scanned.rune_entries index_rune-IsQuiet) λ _.
          bind-IsQuiet (store_txs-IsQuiet scanned.transactions) λ n.
            bind-IsQuiet
              (gets-IsQuiet λ w. get_value (last_block_key config bridge_id ext) none w.db)
              λ check.
                bind-IsQuiet
                  (lift-IsQuiet
                    (raise_if (not (same_value config bridge_id ext check before)) runtime))
                  λ _.
                    bind-IsQuiet
                      (set_value-IsQuiet (last_block_key config bridge_id ext)
                        (text scanned.new_last_block))
                      λ _. pure-IsQuiet n

  -- A scan for rune deposits submits and broadcasts nothing (it sends messages only) and keeps every
  -- deposit within what its status allows, whatever bitcoind and ord answer, also where it raises.
  pub scan_rune_deposits-IsQuiet :
      (listing : Listing) (w : World)
      → IsSafe w
      → Post (λ _ t. IsQuiet w t) (IsQuiet w) (scan_rune_deposits config bridge_id ext listing w)
  unfolding scan_rune_deposits transaction
  scan_rune_deposits-IsQuiet listing w h =
      let before = get_value (last_block_key config bridge_id ext) none w.db in
      Post-lift (λ _ t. IsQuiet w t) (IsQuiet w)
        (list_deposits config ext listing (block_hash config bridge_id ext before)) _ w
        (begins-IsQuiet w h)
        (λ scanned _. transaction-IsQuiet _ (λ start. store_scanned-IsQuiet before scanned) w h)

  pub scan_rune_deposits-IsSafe :
      (listing : Listing) → Keeps IsSafe (scan_rune_deposits config bridge_id ext listing)
  scan_rune_deposits-IsSafe listing = IsSafe-Post _ (scan_rune_deposits-IsQuiet listing)
