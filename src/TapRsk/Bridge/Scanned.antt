-- ===== src/TapRsk/Bridge/Scanned.antt =====
-- A scan of the bridge between Taproot assets and RSK pays nothing and touches no batch: it adds
-- transfers that belong to no batch yet.
use nbte_bridge.Prelude.{ℕ, refl, ◌∙◌, not, List, [], ◌∷◌, any, ltb, sort_by, string_eq, ◌==◌}
use nbte_bridge.Result.{raise_if, external, value_error}
use nbte_bridge.Proc.{pure, ◌>>◌}
use nbte_bridge.KeyValues.{number}
use nbte_bridge.Evm.Events.{EventData, collect_logs, event_le}
use nbte_bridge.Evm.Scanner
use nbte_bridge.TapRsk.Models.{TapDepositAddress}
use nbte_bridge.TapRsk.External.{External, ReceiveEvent}
use nbte_bridge.TapRsk.World.{World, Service, tap_rsk_table}
use nbte_bridge.TapRsk.Outpoints.{Outpoint, same_outpoint, parse_outpoint}
use nbte_bridge.TapRsk.Scanner.{
  RskSource, TransferToTap, is_event_stored, append_transfer, insert_transfer, scan_event,
  scan_events_callback, rsk_event_scanner, scan_new_events,
}
use nbte_bridge.TapRsk.Deposits
use nbte_bridge.TapRsk.Bridge.Scans.{
  count_refs-append, Scans, bind-Scans, lift-Scans, asks-Scans, gets-Scans, pure-Scans, if-Scans,
  for_each-Scans, set_value-Scans,
}

module _ {start : World} where
  append_event-Scans : (e : EventData TransferToTap) → Scans start (append_transfer e)
  append_event-Scans e = record {
    keeps = λ w q. record {
      rsk_batches = q.rsk_batches;
      tap_batches = q.tap_batches;
      tap_next_id = q.tap_next_id;
      effects = q.effects;
      refs = q.refs;
    };
  }

  scan_event-Scans : (e : EventData TransferToTap) → Scans start (scan_event e)
  unfolding scan_event
  scan_event-Scans e =
      if-Scans (e.event == "TransferToTap") (insert_transfer e) (pure tt)
        (bind-Scans (gets-Scans λ w. is_event_stored e w.db)
          λ stored. bind-Scans (lift-Scans (raise_if stored external)) λ _. append_event-Scans e)
        (pure-Scans tt)

  scan_range-Scans :
      (source : RskSource) (a b : ℕ)
      → Scans start (Scanner.scan_range (rsk_event_scanner source) scan_events_callback a b)
  scan_range-Scans source a b =
      bind-Scans (lift-Scans (collect_logs a b (source.transfer_to_tap ∷ []))) λ logs.
        bind-Scans (for_each-Scans (sort_by event_le logs) scan_event scan_event-Scans)
          λ _. set_value-Scans (rsk_event_scanner source).last_scanned_block_key (number b)

  pub scan_new_events-Scans : (source : RskSource) → Scans start (scan_new_events source)
  unfolding scan_new_events Scanner.scan_new_events
  scan_new_events-Scans source = bind-Scans (lift-Scans source.block_number) λ current.
      bind-Scans (asks-Scans λ w. Scanner.last_scanned_block (rsk_event_scanner source) w.db)
        λ last. if-Scans (ltb _ _) (pure tt) _ (pure-Scans tt) (scan_range-Scans source _ _)

  append_deposit-Scans :
      (a : TapDepositAddress) (o : Outpoint) → Scans start (Deposits.append_transfer a o)
  append_deposit-Scans a o = record {
    keeps = λ w q. record {
      rsk_batches = q.rsk_batches;
      tap_batches = q.tap_batches;
      tap_next_id = q.tap_next_id;
      effects = q.effects;
      refs = λ i.
          count_refs-append i w.db.tap_to_rsk_transfers
            (Deposits.new_transfer a o w.db.next_tap_to_rsk_transfer_id) refl
          ∙ q.refs i;
    };
  }

  store_new-Scans :
      (a : TapDepositAddress) (e : ReceiveEvent) (o : Outpoint) (known : List Outpoint)
      → Scans start (Deposits.store_new a e o known)
  store_new-Scans a e o known =
      bind-Scans (lift-Scans (raise_if (not (e.encoded == a.tap_address)) value_error)) λ _.
        bind-Scans (lift-Scans (raise_if (not (Deposits.is_completed e)) value_error)) λ _.
          bind-Scans
            (bind-Scans (gets-Scans λ w. Deposits.is_outpoint_stored o w.db) λ stored.
              bind-Scans (lift-Scans (raise_if stored external)) λ _. append_deposit-Scans a o)
            λ _. pure-Scans (o ∷ known)

  scan_deposit-Scans :
      (a : TapDepositAddress) (e : ReceiveEvent) (known : List Outpoint)
      → Scans start (Deposits.scan_event a e known)
  unfolding Deposits.scan_event
  scan_deposit-Scans a e known = bind-Scans (lift-Scans (parse_outpoint e.outpoint)) λ o.
      if-Scans (any (same_outpoint o) known) (pure known) (Deposits.store_new a e o known)
        (pure-Scans known) (store_new-Scans a e o known)

  scan_deposits-Scans :
      (a : TapDepositAddress) (es : List ReceiveEvent) (known : List Outpoint)
      → Scans start (Deposits.scan_events a es known)
  scan_deposits-Scans a [] known = pure-Scans known
  scan_deposits-Scans a (e ∷ es) known =
      bind-Scans (scan_deposit-Scans a e known) λ now. scan_deposits-Scans a es now

  scan_addresses-Scans :
      (ext : External) (addresses : List TapDepositAddress) (known : List Outpoint)
      → Scans start (Deposits.scan_addresses ext addresses known)
  scan_addresses-Scans ext [] known = pure-Scans tt
  scan_addresses-Scans ext (a ∷ rest) known =
      bind-Scans (lift-Scans (ext.list_receives a.tap_address)) λ events.
        bind-Scans (scan_deposits-Scans a events known) λ now. scan_addresses-Scans ext rest now

  pub scan_new_deposits-Scans : (ext : External) → Scans start (Deposits.scan_new_deposits ext)
  unfolding Deposits.scan_new_deposits
  scan_new_deposits-Scans ext = bind-Scans (gets-Scans λ w. Deposits.outpoints w.db) λ known.
      bind-Scans (gets-Scans λ w. w.db.deposit_addresses)
        λ addresses. scan_addresses-Scans ext addresses known

  pub both-Scans :
      {m : Service (Unit {0})} {k : Service (Unit {0})}
      → Scans start m
      → Scans start k
      → Scans start (m >> k)
  both-Scans h g = bind-Scans h λ _. g
