-- ===== src/TapRsk/Scanner.antt =====
-- `RskEventScanner` (bridge_node/bridge/bridges/tap_rsk/rsk_scanner.py): the events of the bridge
-- contract on RSK become transfers to Taproot addresses.
use nbte_bridge.Prelude.{
  ℕ, suc, concat, String, Bool, none, List, [], ◌∷◌, ◌++◌, any, ◌==◌, ◌&&◌, ◌||◌, nat_eq, string_eq,
  if◌then◌else◌,
}
use nbte_bridge.Result.{Result, external, raise_if}
use nbte_bridge.Proc.{pure, lift, gets, ◌>>=◌, ◌>>◌, for_each}
use nbte_bridge.Transactions.{change}
use nbte_bridge.Evm.Events.{EventData, ContractEvent}
use nbte_bridge.Evm.Scanner
use nbte_bridge.Evm.Scanner.{EvmEventScanner}
use nbte_bridge.TapRsk.Models.{RskToTapTransfer}
use nbte_bridge.TapRsk.World.{Db, Service, tap_rsk_table}

-- The arguments of `TransferToTap`; `sender` is `from`.
pub record TransferToTap : Type 0 where
  pub counter : ℕ
  pub sender : String
  pub tap_address : String

-- The node and the configuration.
pub record RskSource : Type 0 where
  pub block_number : Result ℕ
  pub transfer_to_tap : ContractEvent TransferToTap
  pub evm_block_safety_margin : ℕ
  pub evm_start_block : ℕ

abbrev pub new_transfer : EventData TransferToTap → ℕ → RskToTapTransfer
new_transfer event db_id = record {
  db_id = db_id;
  counter = event.args.counter;
  recipient_tap_address = event.args.tap_address;
  sender_rsk_address = event.args.sender;
  rsk_event_block_number = event.block_number;
  rsk_event_tx_hash = event.transaction_hash;
  rsk_event_tx_index = event.transaction_index;
  rsk_event_log_index = event.log_index;
  transfer_batch_id = none;
}

-- The constraints of the table: the counter is unique, and the place of the event.
abbrev pub is_event_stored : EventData TransferToTap → Db → Bool
is_event_stored event db =
    any
      (λ (t : RskToTapTransfer).
        (t.counter == event.args.counter)
        || ((t.rsk_event_tx_hash == event.transaction_hash)
            && ((t.rsk_event_tx_index == event.transaction_index)
                && (t.rsk_event_log_index == event.log_index))))
      db.rsk_to_tap_transfers

abbrev pub append_transfer : EventData TransferToTap → Service (Unit {0})
append_transfer event = change λ db. record db {
  rsk_to_tap_transfers =
      db.rsk_to_tap_transfers ++ new_transfer event db.next_rsk_to_tap_transfer_id ∷ [];
  next_rsk_to_tap_transfer_id = suc db.next_rsk_to_tap_transfer_id;
}

abbrev pub insert_transfer : EventData TransferToTap → Service (Unit {0})
insert_transfer event = do
  stored ← gets λ w. is_event_stored event w.db
  lift (raise_if stored external)
  append_transfer event

-- One turn of the loop of `_scan_events_callback`.
unfoldable pub scan_event : EventData TransferToTap → Service (Unit {0})
scan_event event = if event.event == "TransferToTap" then insert_transfer event else pure tt

abbrev pub scan_events_callback : List (EventData TransferToTap) → Service (Unit {0})
scan_events_callback events = for_each events scan_event

abbrev pub rsk_event_scanner : RskSource → EvmEventScanner TransferToTap
rsk_event_scanner source = record {
  block_number = source.block_number;
  events = source.transfer_to_tap ∷ [];
  block_safety_margin = source.evm_block_safety_margin;
  last_scanned_block_key = concat "tap_rsk_bridge" ":evm:events:last-scanned-block";
  default_start_block = source.evm_start_block;
}

-- `scan_new_events`
unfoldable pub scan_new_events : RskSource → Service (Unit {0})
scan_new_events source = Scanner.scan_new_events (rsk_event_scanner source) scan_events_callback
