-- ===== src/Runes/Scan/Tokens.antt =====
-- `scan_rune_token_deposits` (bridge_node/bridge/bridges/runes/service.py): the events of the bridge
-- contract become rune token deposits, all in one transaction.
use nbte_bridge.Prelude.{
  ℕ, suc, ◌-◌, String, concat, Bool, not, Option, none, some, List, [], ◌∷◌, ◌++◌, any, length,
  ◌==◌, ◌&&◌, nat_eq, string_eq, if◌then◌else◌,
}
use nbte_bridge.Result.{Result, runtime, external, one_or_none, raise_if, or_raise}
use nbte_bridge.Proc.{pure, lift, gets, asks, ◌>>=◌, ◌>>◌, for_each}
use nbte_bridge.Ord.Names.{PyordRune}
use nbte_bridge.Evm.Events.{EventData, ContractEvent}
use nbte_bridge.Evm.Scanner.{EvmEventScanner, scan_new_events}
use nbte_bridge.Runes.Models.{Rune, RuneTokenDeposit, RuneTokenDepositStatus}
use nbte_bridge.Runes.External.{External, RuneBridgeServiceConfig, Notice}
use nbte_bridge.Runes.World.{rune_bridge_table, Db, Service, transaction, change, notify}
use nbte_bridge.Runes.Scan.Deposits.{runes_with_number, new_rune, add_rune}

-- The arguments of `RuneTransferToBtc`.
pub record RuneTransferToBtc : Type 0 where
  pub rune : ℕ
  pub receiver_btc_address : String
  pub token : String
  pub net_rune_amount : ℕ
  pub transferred_token_amount : ℕ

-- What the scan asks of the node, and `pyord.Rune(n=...)`.
pub record EventSource : Type 0 where
  pub block_number : Result ℕ
  pub rune_transfer_to_btc : ContractEvent RuneTransferToBtc
  pub pyord_rune : ℕ → PyordRune

abbrev pub is_rune_transfer : EventData RuneTransferToBtc → Bool
is_rune_transfer e = e.event == "RuneTransferToBtc"

module _ (config : RuneBridgeServiceConfig) (bridge_id : ℕ) (ext : External)
    (source : EventSource) where
  -- The rune of an event, which is created where there is none.
  abbrev pub get_or_add_rune : ℕ → Option Rune → Service Rune
  get_or_add_rune n (some rune) = pure rune
  get_or_add_rune n none = do
    let pyord_rune = source.pyord_rune n
    rune_response ← lift (ext.get_rune pyord_rune.name)
    entry ← lift (or_raise rune_response runtime)
    id ← gets λ w. w.db.next_rune_id
    add_rune bridge_id pyord_rune entry
    pure (new_rune bridge_id pyord_rune entry id)

  abbrev pub new_token_deposit : EventData RuneTransferToBtc → Rune → ℕ → RuneTokenDeposit
  new_token_deposit event rune id = record {
    id = id;
    bridge_id = bridge_id;
    evm_block_number = event.block_number;
    evm_tx_hash = event.transaction_hash;
    evm_log_index = event.log_index;
    receiver_btc_address = event.args.receiver_btc_address;
    transferred_token_amount = event.args.transferred_token_amount;
    net_rune_amount_raw = event.args.net_rune_amount;
    token_address = event.args.token;
    rune_id = rune.id;
    btc_tx_id = none;
    finalized_psbt = none;
    status = RuneTokenDepositStatus.accepted;
  }

  -- The constraint `uq_rune_token_deposit_tx_hash_log_index`, by which the database refuses a row.
  abbrev pub is_stored : EventData RuneTransferToBtc → Db → Bool
  is_stored event db =
      any
        (λ (d : RuneTokenDeposit).
          (d.evm_tx_hash == event.transaction_hash) && (d.evm_log_index == event.log_index))
        db.token_deposits

  abbrev pub append_token_deposit : EventData RuneTransferToBtc → Rune → Service (Unit {0})
  append_token_deposit event rune = change λ db. record db {
    token_deposits =
        db.token_deposits ++ new_token_deposit event rune db.next_token_deposit_id ∷ [];
    next_token_deposit_id = suc db.next_token_deposit_id;
  }

  abbrev pub insert_token_deposit : EventData RuneTransferToBtc → Rune → Service (Unit {0})
  insert_token_deposit event rune = do
    stored ← gets λ w. is_stored event w.db
    lift (raise_if stored external)
    append_token_deposit event rune

  -- One turn of the callback's loop.
  unfoldable pub store_event : EventData RuneTransferToBtc → Service (Unit {0})
  store_event event = if not (is_rune_transfer event) then pure tt else do
    found ← asks λ w. one_or_none (runes_with_number bridge_id event.args.rune w.db)
    rune ← get_or_add_rune event.args.rune found
    insert_token_deposit event rune
    notify ext Notice.new_rune_token_deposit

  abbrev pub callback : List (EventData RuneTransferToBtc) → Service (Unit {0})
  callback batch = for_each batch store_event

  abbrev pub scanner : EvmEventScanner RuneTransferToBtc
  scanner = record {
    block_number = source.block_number;
    events = source.rune_transfer_to_btc ∷ [];
    block_safety_margin = config.evm_block_safety_margin;
    last_scanned_block_key = concat config.bridge_name ":evm:events:last-scanned-block";
    default_start_block = config.evm_default_start_block;
  }

  -- `num_transfers`: the rows that were added.
  unfoldable pub scan_rune_token_deposits : Service ℕ
  scan_rune_token_deposits = do
    before ← gets λ w. length w.db.token_deposits
    transaction (scan_new_events scanner callback)
    after ← gets λ w. length w.db.token_deposits
    pure (after - before)
