-- ===== src/TapRsk/Deposits.antt =====
-- `TapDepositService` (bridge_node/bridge/bridges/tap_rsk/tap_deposits.py): deposit addresses for
-- Taproot assets, and the scan of the deposits to them. Amounts are not negative.
pub mod Assets
pub mod Known
pub mod Twice
pub mod Terms
use nbte_bridge.Prelude.{
  ℕ, suc, String, Bool, true, false, not, Option, none, some, List, [], ◌∷◌, ◌++◌, map, any, ◌==◌,
  ◌&&◌, nat_eq, string_eq, if◌then◌else◌,
}
use nbte_bridge.Result.{value_error, external, raise_if}
use nbte_bridge.Proc.{pure, lift, gets, ◌>>=◌, ◌>>◌}
use nbte_bridge.Transactions.{change}
use nbte_bridge.TapRsk.Models.{TapDepositAddress, TapToRskTransfer}
use nbte_bridge.TapRsk.External.{External, ReceiveEvent}
use nbte_bridge.TapRsk.World.{Db, Service}
use nbte_bridge.TapRsk.Outpoints.{Outpoint, same_outpoint, parse_outpoint}
use nbte_bridge.TapRsk.Deposits.Assets.{DepositTerms, deposit_terms}

-- The column `tap_address` is unique.
abbrev pub is_address_stored : String → Db → Bool
is_address_stored tap_address db =
    any (λ (a : TapDepositAddress). a.tap_address == tap_address) db.deposit_addresses

abbrev pub new_deposit_address : DepositTerms → String → ℕ → TapDepositAddress
new_deposit_address terms tap_address id = record {
  id = id;
  rsk_address = terms.rsk_address;
  tap_address = tap_address;
  tap_asset_id = terms.asset.tap_asset_id;
  rsk_token_address = terms.asset.rsk_token;
  tap_amount = terms.tap_amount;
  rsk_amount = terms.rsk_amount;
}

abbrev pub add_deposit_address : DepositTerms → String → Service (Unit {0})
add_deposit_address terms tap_address = change λ db. record db {
  deposit_addresses =
      db.deposit_addresses ++ new_deposit_address terms tap_address db.next_deposit_address_id ∷ [];
  next_deposit_address_id = suc db.next_deposit_address_id;
}

-- The constraint `uq_taprsk_tap_to_rsk_transfer_txid_vout`.
abbrev pub is_outpoint_stored : Outpoint → Db → Bool
is_outpoint_stored outpoint db =
    any
      (λ (t : TapToRskTransfer).
        same_outpoint outpoint (t.deposit_btc_tx_id, t.deposit_btc_tx_vout))
      db.tap_to_rsk_transfers

abbrev pub new_transfer : TapDepositAddress → Outpoint → ℕ → TapToRskTransfer
new_transfer deposit_address outpoint db_id = record {
  db_id = db_id;
  counter = none;
  deposit_address_id = deposit_address.id;
  deposit_btc_tx_id = outpoint.0;
  deposit_btc_tx_vout = outpoint.1;
  transfer_batch_id = none;
}

abbrev pub append_transfer : TapDepositAddress → Outpoint → Service (Unit {0})
append_transfer deposit_address outpoint = change λ db. record db {
  tap_to_rsk_transfers =
      db.tap_to_rsk_transfers
      ++ new_transfer deposit_address outpoint db.next_tap_to_rsk_transfer_id ∷ [];
  next_tap_to_rsk_transfer_id = suc db.next_tap_to_rsk_transfer_id;
}

abbrev pub insert_transfer : TapDepositAddress → Outpoint → Service (Unit {0})
insert_transfer deposit_address outpoint = do
  stored ← gets λ w. is_outpoint_stored outpoint w.db
  lift (raise_if stored external)
  append_transfer deposit_address outpoint

abbrev pub outpoints : Db → List Outpoint
outpoints db = map (λ t. (t.deposit_btc_tx_id, t.deposit_btc_tx_vout)) db.tap_to_rsk_transfers

abbrev pub is_completed : ReceiveEvent → Bool
is_completed event = event.status == "ADDR_EVENT_STATUS_COMPLETED"

-- A deposit that is new; it returns the outpoints that are known from now on.
abbrev pub store_new :
    TapDepositAddress → ReceiveEvent → Outpoint → List Outpoint → Service (List Outpoint)
store_new deposit_address event outpoint previous_outpoints = do
  lift (raise_if (not (event.encoded == deposit_address.tap_address)) value_error)
  lift (raise_if (not (is_completed event)) value_error)
  insert_transfer deposit_address outpoint
  pure (outpoint ∷ previous_outpoints)

abbrev pub store_if_new :
    TapDepositAddress → ReceiveEvent → Outpoint → List Outpoint → Service (List Outpoint)
store_if_new deposit_address event outpoint previous_outpoints =
    if any (same_outpoint outpoint) previous_outpoints
    then pure previous_outpoints
    else store_new deposit_address event outpoint previous_outpoints

-- One turn of the loop over the events.
unfoldable pub scan_event :
    TapDepositAddress → ReceiveEvent → List Outpoint → Service (List Outpoint)
scan_event deposit_address event previous_outpoints = do
  outpoint ← lift (parse_outpoint event.outpoint)
  store_if_new deposit_address event outpoint previous_outpoints

abbrev pub scan_events :
    TapDepositAddress → List ReceiveEvent → List Outpoint → Service (List Outpoint)
scan_events deposit_address [] previous_outpoints = pure previous_outpoints
scan_events deposit_address (event ∷ events) previous_outpoints = do
  known ← scan_event deposit_address event previous_outpoints
  scan_events deposit_address events known

module _ (ext : External) where
  -- `generate_deposit_address`
  unfoldable pub generate_deposit_address :
      String → Option ℕ → Option String → Option ℕ → Option String → Service TapDepositAddress
  generate_deposit_address user_rsk_address tap_amount tap_asset_id rsk_amount rsk_token_address =
      do
        terms ← lift (
            deposit_terms ext user_rsk_address tap_amount tap_asset_id rsk_amount rsk_token_address)
        tap_address ← lift (ext.create_address terms.asset.tap_asset_id terms.tap_amount)
        stored ← gets λ w. is_address_stored tap_address w.db
        lift (raise_if stored external)
        id ← gets λ w. w.db.next_deposit_address_id
        add_deposit_address terms tap_address
        pure (new_deposit_address terms tap_address id)

  abbrev pub scan_addresses : List TapDepositAddress → List Outpoint → Service (Unit {0})
  scan_addresses [] previous_outpoints = pure tt
  scan_addresses (deposit_address ∷ rest) previous_outpoints = do
    events ← lift (ext.list_receives deposit_address.tap_address)
    known ← scan_events deposit_address events previous_outpoints
    scan_addresses rest known

  -- `scan_new_deposits`
  unfoldable pub scan_new_deposits : Service (Unit {0})
  scan_new_deposits = do
    previous_outpoints ← gets λ w. outpoints w.db
    deposit_addresses ← gets λ w. w.db.deposit_addresses
    scan_addresses deposit_addresses previous_outpoints
