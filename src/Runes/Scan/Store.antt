-- ===== src/Runes/Scan/Store.antt =====
-- `scan_rune_deposits` from its second transaction on. The row of the user, which the code reads for
-- its log messages only, is left out.
use nbte_bridge.Prelude.{
  ℕ, suc, ◌+◌, concat, String, Bool, true, false, not, Option, none, some, List, [], ◌∷◌, ◌++◌,
  keep, ◌==◌, ◌&&◌, nat_eq, string_eq, if◌then◌else◌,
}
use nbte_bridge.Result.{assertion, runtime, lookup_error, one, one_or_none, raise_if, or_raise}
use nbte_bridge.Proc.{pure, lift, gets, asks, ◌>>=◌, ◌>>◌, for_each}
use nbte_bridge.Ord.Names.{rune_from_str, is_empty}
use nbte_bridge.Runes.Models.{DepositAddress, RuneDeposit}
use nbte_bridge.Runes.Amounts.{calculate_rune_to_evm_transfer_amounts}
use nbte_bridge.Runes.External.{External, RuneBridgeServiceConfig, Notice}
use nbte_bridge.Runes.World.{rune_bridge_table, Db, Service, transaction, change, notify}
use nbte_bridge.KeyValues.{Value, text, number}
use nbte_bridge.Rows.{update_id}
use nbte_bridge.KeyValues.{get_value, set_value}
use nbte_bridge.Runes.Scan.Listed.{Listing, ListedOutput, ScannedTx, Scanned, list_deposits}
use nbte_bridge.Runes.Scan.Deposits.{
  Found, runes_with_number, index_rune, store_btc_tx, fill_deposit, new_deposit,
}

module _ (config : RuneBridgeServiceConfig) (bridge_id : ℕ) (ext : External) where
  abbrev pub put_deposit : Found → Option RuneDeposit → Service (Unit {0})
  put_deposit found (some deposit) = do
    _ ← lift (or_raise found.tx.blockheight lookup_error)
    change λ db. record db {
      rune_deposits =
          update_id (λ d. d.id) deposit.id (fill_deposit config bridge_id ext found)
            db.rune_deposits;
    }
  put_deposit found none = do
    notify ext Notice.new_rune_deposit
    _ ← lift (or_raise found.tx.blockheight lookup_error)
    change λ db. record db {
      rune_deposits =
          db.rune_deposits
          ++ fill_deposit config bridge_id ext found
              (new_deposit config bridge_id ext found db.next_deposit_id)
            ∷ [];
      next_deposit_id = suc db.next_deposit_id;
    }

  abbrev pub deposits_at : Found → Db → List RuneDeposit
  deposits_at found db =
      keep
        (λ d.
          (d.bridge_id == bridge_id)
          && ((d.tx_id == found.tx.txid)
              && ((d.vout == found.tx.vout) && (d.rune_number == found.rune.n))))
        db.rune_deposits

  unfoldable pub store_deposit : Found → Service (Unit {0})
  store_deposit found = do
    deposit ← asks λ w. one_or_none (deposits_at found w.db)
    put_deposit found deposit

  -- One turn of the loop over `ord_output["runes"]`.
  unfoldable pub store_rune_balance : ScannedTx → ℕ → ℕ → ℕ → String × (ℕ × ℕ) → Service (Unit {0})
  store_rune_balance tx btc_tx_id user_id postage (spaced_rune_name, (amount, divisibility)) = do
    pyord_rune ← lift (rune_from_str ext.rune_names spaced_rune_name)
    rune ← asks λ w. one (runes_with_number bridge_id pyord_rune.n w.db)
    store_deposit (record {
      tx = tx;
      btc_tx_id = btc_tx_id;
      user_id = user_id;
      postage = postage;
      rune = rune;
      amounts =
          calculate_rune_to_evm_transfer_amounts config.runes_to_evm_fee_percentage_decimal amount
            divisibility;
    })

  -- The number of transfers that the loop counts.
  abbrev pub store_rune_balances : ScannedTx → ℕ → ℕ → ℕ → List (String × (ℕ × ℕ)) → Service ℕ
  store_rune_balances tx btc_tx_id user_id postage [] = pure 0
  store_rune_balances tx btc_tx_id user_id postage (r ∷ rs) = do
    store_rune_balance tx btc_tx_id user_id postage r
    n ← store_rune_balances tx btc_tx_id user_id postage rs
    pure (suc n)

  abbrev pub store_output : ScannedTx → ℕ → ℕ → Option ListedOutput → Service ℕ
  store_output tx btc_tx_id user_id none = pure 0
  store_output tx btc_tx_id user_id (some o) =
      store_rune_balances tx btc_tx_id user_id o.value o.runes

  -- A deposit's transaction, once the user's address is looked up.
  abbrev pub store_for_user : ScannedTx → ℕ → Option DepositAddress → Service ℕ
  store_for_user tx btc_tx_id none = pure 0
  store_for_user tx btc_tx_id (some address) = do
    change λ db. record db {
      incoming_btc_txs =
          update_id (λ t. t.id) btc_tx_id (λ t. record t { user_id = some address.user_id })
            db.incoming_btc_txs;
    }
    store_output tx btc_tx_id address.user_id tx.ord_output

  abbrev pub is_unindexed : Option ListedOutput → Bool
  is_unindexed none = false
  is_unindexed (some o) = not o.indexed

  -- One turn of the loop over `transactions`.
  unfoldable pub store_tx : ScannedTx → Service ℕ
  store_tx tx = do
    lift (raise_if (is_unindexed tx.ord_output) assertion)
    btc_tx_id ← store_btc_tx config bridge_id ext tx
    address ← asks λ w. one_or_none (keep (λ a. a.btc_address == tx.address) w.db.deposit_addresses)
    store_for_user tx btc_tx_id address

  abbrev pub store_txs : List ScannedTx → Service ℕ
  store_txs [] = pure 0
  store_txs (tx ∷ txs) = do n ← store_tx tx; rest ← store_txs txs; pure (n + rest)

  abbrev pub last_block_key : String
  last_block_key = concat config.bridge_name ":btc:deposits:last_scanned_block"

  -- `None` and the empty text start a scan from the beginning; a block's hash is a text.
  abbrev pub block_hash : Option Value → Option String
  block_hash (some (text s)) = if is_empty s then none else some s
  block_hash _ = none

  abbrev pub same_value : Option Value → Option Value → Bool
  same_value none none = true
  same_value (some (text a)) (some (text b)) = a == b
  same_value (some (number a)) (some (number b)) = a == b
  same_value _ _ = false

  -- The body of the second transaction.
  abbrev pub store_rows : Option Value → Scanned → Service ℕ
  store_rows last_bitcoin_block scanned = do
    for_each scanned.rune_entries (index_rune config bridge_id ext)
    num_transfers ← store_txs scanned.transactions
    check ← gets λ w. get_value last_block_key none w.db
    lift (raise_if (not (same_value check last_bitcoin_block)) runtime)
    set_value last_block_key (text scanned.new_last_block)
    pure num_transfers

  -- `scan_rune_deposits`
  unfoldable pub scan_rune_deposits : Listing → Service ℕ
  scan_rune_deposits listing = do
    last_bitcoin_block ← transaction (gets λ w. get_value last_block_key none w.db)
    scanned ← lift (list_deposits config ext listing (block_hash last_bitcoin_block))
    transaction (store_rows last_bitcoin_block scanned)
