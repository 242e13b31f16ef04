-- ===== src/Runes/Addresses/Pending.antt =====
-- `get_pending_deposits_for_evm_address` (bridge_node/bridge/bridges/runes/service.py). The amounts are
-- the Decimals whose texts the code returns; the two calls of bitcoind are numbered.
use nbte_bridge.Prelude.{
  ℕ, suc, ◌+◌, String, Bool, true, false, not, Option, none, some, List, [], ◌∷◌, ◌++◌, keep,
  sort_by, leb, ◌==◌, ◌&&◌, nat_eq, string_eq, if◌then◌else◌,
}
use nbte_bridge.Prelude.Int.{ℤ, pos, ◌-ℤ◌}
use nbte_bridge.Result.{Result, ok, err, external, lookup_error, one_or_none, or_raise, ◌>>=◌}
use nbte_bridge.Decimals.{Decimal, of_int}
use nbte_bridge.Rows.{find_id}
use nbte_bridge.Runes.Models.{
  User, DepositAddress, IncomingBtcTx, Rune, RuneDeposit, is_tx_detected, get_status_for_ui,
}
use nbte_bridge.Runes.External.{RuneBridgeServiceConfig}
use nbte_bridge.Runes.World.{Db}
use nbte_bridge.Runes.Addresses.{users_at, address_of}

-- An entry of the list; `fee_key` is the key under which its fee stands.
pub record PendingDeposit : Type 0 where
  pub btc_deposit_txid : String
  pub btc_deposit_vout : ℕ
  pub rune_name : String
  pub rune_symbol : String
  pub amount_decimal : Decimal
  pub fee_key : String
  pub fee_decimal : Decimal
  pub receive_amount_decimal : Decimal
  pub status : String
  pub evm_transfer_tx_hash : Option String

-- `rune.decimal_amount(...)`
abbrev pub decimal_amount : Rune → ℤ → Decimal
decimal_amount rune amount_raw = record { coefficient = amount_raw; places = rune.divisibility }

abbrev pub detected_entry : IncomingBtcTx → PendingDeposit
detected_entry tx = record {
  btc_deposit_txid = tx.tx_id;
  btc_deposit_vout = tx.vout;
  rune_name = "";
  rune_symbol = "";
  amount_decimal = of_int 0;
  fee_key = "fee_amount_decimal";
  fee_decimal = of_int 0;
  receive_amount_decimal = of_int 0;
  status = "detected";
  evm_transfer_tx_hash = none;
}

abbrev pub symbol_of : Rune → String
symbol_of rune = if rune.spaced_name == "POWA•RANGERS•GO" then "POWA" else rune.symbol

abbrev pub deposit_entry : RuneDeposit → Rune → PendingDeposit
deposit_entry deposit rune = record {
  btc_deposit_txid = deposit.tx_id;
  btc_deposit_vout = deposit.vout;
  rune_name = rune.spaced_name;
  rune_symbol = symbol_of rune;
  amount_decimal = decimal_amount rune (pos deposit.transfer_amount_raw);
  fee_key = "fee_decimal";
  fee_decimal = decimal_amount rune (pos deposit.transfer_amount_raw -ℤ deposit.net_amount_raw);
  receive_amount_decimal = decimal_amount rune deposit.net_amount_raw;
  status = get_status_for_ui deposit.status;
  evm_transfer_tx_hash = deposit.evm_tx_hash;
}

-- `tx.rune_deposits`
abbrev pub rune_deposits_of : IncomingBtcTx → Db → List RuneDeposit
rune_deposits_of tx db = keep (λ d. d.incoming_btc_tx_id == tx.id) db.rune_deposits

-- `rune_deposit.rune`; the foreign key is never null.
abbrev pub deposit_entries : Db → List RuneDeposit → Result (List PendingDeposit)
deposit_entries db [] = ok []
deposit_entries db (d ∷ ds) = do
  rune ← or_raise (find_id (λ (r : Rune). r.id) d.rune_id db.runes) lookup_error
  rest ← deposit_entries db ds
  ok (deposit_entry d rune ∷ rest)

abbrev pub has_none : List RuneDeposit → Bool
has_none [] = true
has_none (d ∷ ds) = false

-- One turn of the loop over the transactions.
abbrev pub tx_entries : Db → IncomingBtcTx → Result (List PendingDeposit)
tx_entries db tx =
    if is_tx_detected tx.status && has_none (rune_deposits_of tx db)
    then ok (detected_entry tx ∷ [])
    else deposit_entries db (rune_deposits_of tx db)

abbrev pub txs_entries : Db → List IncomingBtcTx → Result (List PendingDeposit)
txs_entries db [] = ok []
txs_entries db (tx ∷ txs) = do mine ← tx_entries db tx; rest ← txs_entries db txs; ok (mine ++ rest)

abbrev pub is_user : ℕ → Option ℕ → Bool
is_user user_id none = false
is_user user_id (some i) = i == user_id

abbrev pub is_of_user : ℕ → ℕ → IncomingBtcTx → Bool
is_of_user bridge_id user_id tx = (tx.bridge_id == bridge_id) && is_user user_id tx.user_id

abbrev pub pending_btc_transactions : ℕ → ℕ → ℕ → Db → List IncomingBtcTx
pending_btc_transactions bridge_id user_id block_time db =
    sort_by (λ (a b : IncomingBtcTx). leb a.time b.time)
      (keep
        (λ tx.
          is_of_user bridge_id user_id tx && (is_tx_detected tx.status && leb block_time tx.time))
        db.incoming_btc_txs)

-- A transaction without a block is not selected, since SQL's comparison with null is not true.
abbrev pub is_from_block : ℕ → Option ℕ → Bool
is_from_block block_number none = false
is_from_block block_number (some n) = leb block_number n

abbrev pub block_or_zero : Option ℕ → ℕ
block_or_zero none = 0
block_or_zero (some n) = n

abbrev pub accepted_btc_transactions : ℕ → ℕ → ℕ → Db → List IncomingBtcTx
accepted_btc_transactions bridge_id user_id block_number db =
    sort_by
      (λ (a b : IncomingBtcTx). leb (block_or_zero a.block_number) (block_or_zero b.block_number))
      (keep
        (λ tx.
          is_of_user bridge_id user_id tx
          && (not (is_tx_detected tx.status) && is_from_block block_number tx.block_number))
        db.incoming_btc_txs)

abbrev pub text_length : String → ℕ
text_length String.[] = 0
text_length (String.◌∷◌ c s) = suc (text_length s)

module _ (config : RuneBridgeServiceConfig) (bridge_id : ℕ)
    (get_block : ℕ → String → Result (ℕ × ℕ)) (db : Db) where
  abbrev pub entries_since : User → ℕ → ℕ → Result (List PendingDeposit)
  entries_since user block_time block_number = txs_entries db (
      pending_btc_transactions bridge_id user.id block_time db
      ++ accepted_btc_transactions bridge_id user.id block_number db)

  abbrev pub entries_of_address :
      User → ℕ → ℕ → Option DepositAddress → Result (List PendingDeposit)
  entries_of_address user block_time block_number none = ok []
  entries_of_address user block_time block_number (some address) =
      entries_since user block_time block_number

  -- `None + buffer` is a TypeError.
  abbrev pub entries_at_height : User → ℕ → Result (ℕ × ℕ) → Result (List PendingDeposit)
  entries_at_height user block_time (err e) = err external
  entries_at_height user block_time (ok (time, height)) =
      entries_of_address user block_time (height + config.btc_listsinceblock_buffer)
        (address_of user.id db)

  -- `_get_block_time_by_hash` and what follows; a time of 0 counts as no time.
  abbrev pub entries_at_time : User → String → Result (ℕ × ℕ) → Result (List PendingDeposit)
  entries_at_time user last_block (err e) = ok []
  entries_at_time user last_block (ok (block_time, height)) =
      if block_time == 0 then ok [] else entries_at_height user block_time (get_block 1 last_block)

  abbrev pub entries_of_user : String → Option User → Result (List PendingDeposit)
  entries_of_user last_block none = ok []
  entries_of_user last_block (some user) =
      if not (text_length last_block == 64)
      then ok []
      else entries_at_time user last_block (get_block 0 last_block)

  -- `get_pending_deposits_for_evm_address`
  unfoldable pub get_pending_deposits_for_evm_address :
      (String → Result String) → String → String → Result (List PendingDeposit)
  get_pending_deposits_for_evm_address to_checksum_address evm_address last_block = do
    checksum ← to_checksum_address evm_address
    user ← one_or_none (users_at bridge_id checksum db)
    entries_of_user last_block user
