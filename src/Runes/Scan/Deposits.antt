-- ===== src/Runes/Scan/Deposits.antt =====
-- The rows that the second transaction of `scan_rune_deposits` stores: runes, Bitcoin transactions
-- and rune deposits. A new row is added with the
-- values that the code assigns to it just after.
use nbte_bridge.Prelude.{
  ℕ, suc, Bool, Option, none, some, List, [], ◌∷◌, ◌++◌, keep, ◌==◌, ◌&&◌, nat_eq, string_eq,
  if◌then◌else◌,
}
use nbte_bridge.Prelude.Int.{pos_part}
use nbte_bridge.Decimals.{int_of_mul}
use nbte_bridge.Result.{one_or_none}
use nbte_bridge.Proc.{pure, lift, gets, asks, ◌>>=◌, ◌>>◌}
use nbte_bridge.Ord.Names.{PyordRune, rune_from_str}
use nbte_bridge.Runes.Models.{
  IncomingBtcTx, IncomingBtcTxStatus, Rune, RuneDeposit, RuneDepositStatus, is_tx_detected,
  is_detected,
}
use nbte_bridge.Runes.Amounts.{TransferAmounts}
use nbte_bridge.Runes.External.{External, RuneEntry, RuneBridgeServiceConfig, Notice}
use nbte_bridge.Runes.World.{Db, Service, change, notify}
use nbte_bridge.Rows.{update_id}
use nbte_bridge.Runes.Scan.Listed.{ScannedTx, at_least}

abbrev pub new_rune : ℕ → PyordRune → RuneEntry → ℕ → Rune
new_rune bridge_id pyord_rune entry id = record {
  id = id;
  bridge_id = bridge_id;
  n = pyord_rune.n;
  name = pyord_rune.name;
  spaced_name = entry.spaced_rune;
  symbol = entry.symbol;
  divisibility = entry.divisibility;
  turbo = entry.turbo;
}

abbrev pub add_rune : ℕ → PyordRune → RuneEntry → Service (Unit {0})
add_rune bridge_id pyord_rune entry = change λ db. record db {
  runes = db.runes ++ new_rune bridge_id pyord_rune entry db.next_rune_id ∷ [];
  next_rune_id = suc db.next_rune_id;
}

-- `query(Rune).filter_by(bridge_id=..., n=...)`
abbrev pub runes_with_number : ℕ → ℕ → Db → List Rune
runes_with_number bridge_id n db = keep (λ r. (r.bridge_id == bridge_id) && (r.n == n)) db.runes

-- What a scan knows of a deposit.
pub record Found : Type 0 where
  pub tx : ScannedTx
  pub btc_tx_id : ℕ
  pub user_id : ℕ
  pub postage : ℕ
  pub rune : Rune
  pub amounts : TransferAmounts

module _ (config : RuneBridgeServiceConfig) (bridge_id : ℕ) (ext : External) where
  abbrev pub add_missing_rune : PyordRune → RuneEntry → Option Rune → Service (Unit {0})
  add_missing_rune pyord_rune entry (some rune) = pure tt
  add_missing_rune pyord_rune entry none = add_rune bridge_id pyord_rune entry

  -- One turn of the loop over `rune_entries`.
  unfoldable pub index_rune : RuneEntry → Service (Unit {0})
  index_rune entry = do
    pyord_rune ← lift (rune_from_str ext.rune_names entry.spaced_rune)
    rune ← asks λ w. one_or_none (runes_with_number bridge_id pyord_rune.n w.db)
    add_missing_rune pyord_rune entry rune

  abbrev pub is_confirmed : ScannedTx → Bool
  is_confirmed tx = at_least tx.confirmations config.btc_min_confirmations

  -- The assignments to an `IncomingBtcTx`, before the user is known.
  abbrev pub fill_btc_tx : ScannedTx → IncomingBtcTx → IncomingBtcTx
  fill_btc_tx tx btc_tx = record btc_tx {
    status =
        if is_confirmed tx && is_tx_detected btc_tx.status
        then IncomingBtcTxStatus.accepted
        else btc_tx.status;
    block_number = tx.blockheight;
    time = tx.time;
    amount_sat = pos_part (int_of_mul tx.amount 100000000);
    address = tx.address;
  }

  abbrev pub new_btc_tx : ScannedTx → ℕ → IncomingBtcTx
  new_btc_tx tx id = record {
    id = id;
    bridge_id = bridge_id;
    tx_id = tx.txid;
    vout = tx.vout;
    block_number = none;
    time = 0;
    address = tx.address;
    amount_sat = 0;
    user_id = none;
    status = IncomingBtcTxStatus.detected;
  }

  abbrev pub add_btc_tx : ScannedTx → ℕ → Service (Unit {0})
  add_btc_tx tx id = change λ db. record db {
    incoming_btc_txs = db.incoming_btc_txs ++ fill_btc_tx tx (new_btc_tx tx id) ∷ [];
    next_btc_tx_id = suc id;
  }

  -- The id of the `IncomingBtcTx`, which is created where there is none.
  abbrev pub put_btc_tx : ScannedTx → Option IncomingBtcTx → Service ℕ
  put_btc_tx tx (some btc_tx) = do
    change λ db. record db {
      incoming_btc_txs = update_id (λ t. t.id) btc_tx.id (fill_btc_tx tx) db.incoming_btc_txs;
    }
    pure btc_tx.id
  put_btc_tx tx none = do
    notify ext Notice.new_incoming_btc_tx
    id ← gets λ w. w.db.next_btc_tx_id
    add_btc_tx tx id
    pure id

  unfoldable pub store_btc_tx : ScannedTx → Service ℕ
  store_btc_tx tx = do
    found ← asks λ w. one_or_none (
        keep (λ t. (t.bridge_id == bridge_id) && ((t.tx_id == tx.txid) && (t.vout == tx.vout)))
          w.db.incoming_btc_txs)
    put_btc_tx tx found

  abbrev pub accepted_status : ScannedTx → RuneDepositStatus → RuneDepositStatus
  accepted_status tx status =
      if is_confirmed tx && is_detected status then RuneDepositStatus.accepted else status

  abbrev pub fill_deposit : Found → RuneDeposit → RuneDeposit
  fill_deposit found deposit = record deposit {
    incoming_btc_tx_id = found.btc_tx_id;
    block_number = found.tx.blockheight;
    user_id = found.user_id;
    postage = found.postage;
    transfer_amount_raw = found.amounts.amount_raw;
    net_amount_raw = found.amounts.net_amount_raw;
    rune_id = found.rune.id;
    status = accepted_status found.tx deposit.status;
  }

  abbrev pub new_deposit : Found → ℕ → RuneDeposit
  new_deposit found id = record {
    id = id;
    bridge_id = bridge_id;
    tx_id = found.tx.txid;
    vout = found.tx.vout;
    block_number = none;
    rune_number = found.rune.n;
    rune_id = found.rune.id;
    user_id = found.user_id;
    incoming_btc_tx_id = found.btc_tx_id;
    postage = found.postage;
    transfer_amount_raw = found.amounts.amount_raw;
    net_amount_raw = found.amounts.net_amount_raw;
    evm_tx_hash = none;
    accept_transfer_message_hash = none;
    accept_transfer_signatures = [];
    accept_transfer_signers = [];
    status = RuneDepositStatus.detected;
  }
