-- ===== src/Runes/Scan/TokensOnce.antt =====
-- A scan for rune token deposits sends nothing, and a deposit that it adds is not sent yet.
use nbte_bridge.Prelude.{
  ltb, sort_by, [], ◌∷◌, ℕ, refl, Option, none, some, Bool, true, false, if◌then◌else◌, not,
  string_eq,
}
use nbte_bridge.Result.{or_raise, raise_if, runtime, external, one_or_none}
use nbte_bridge.Proc.Hoare.{Post, Post-bind, Keeps}
use nbte_bridge.Proc.{pure}
use nbte_bridge.Ord.Names.{PyordRune}
use nbte_bridge.Evm.Events.{EventData, collect_logs, event_le}
use nbte_bridge.Evm.Scanner.{scan_range, scan_if_new, scan_new_events, last_scanned_block}
use nbte_bridge.Runes.Scan.Tokens.{
  RuneTransferToBtc, EventSource, get_or_add_rune, append_token_deposit, insert_token_deposit,
  store_event, callback, scanner, is_stored, scan_rune_token_deposits, is_rune_transfer,
}
use nbte_bridge.Runes.Models.{Rune}
use nbte_bridge.Runes.External.{External, RuneBridgeServiceConfig, RuneEntry, Notice}
use nbte_bridge.Runes.World.{rune_bridge_table, World, Service}
use nbte_bridge.KeyValues.{number}
use nbte_bridge.Runes.Quiet.{
  IsSafe, IsQuiet, KeepsQuiet, transaction-IsQuiet, IsSafe-Post, change-IsQuiet, notify-IsQuiet,
  add_token_deposit-IsQuiet, bind-IsQuiet, lift-IsQuiet, asks-IsQuiet, gets-IsQuiet, pure-IsQuiet,
  for_each-IsQuiet, set_value-IsQuiet,
}
use nbte_bridge.Runes.Scan.Deposits.{runes_with_number, new_rune, add_rune}

add_rune-IsQuiet :
    {start : World} (bridge_id : ℕ) (p : PyordRune) (entry : RuneEntry)
    → KeepsQuiet start (add_rune bridge_id p entry)
add_rune-IsQuiet bridge_id p entry = change-IsQuiet _ (λ db. refl) (λ db. refl)

module _ (config : RuneBridgeServiceConfig) (bridge_id : ℕ) (ext : External)
    (source : EventSource) where
  module _ {start : World} where
    get_or_add_rune-IsQuiet :
        (n : ℕ) (o : Option Rune)
        → KeepsQuiet start (get_or_add_rune config bridge_id ext source n o)
    get_or_add_rune-IsQuiet n (some rune) = pure-IsQuiet rune
    get_or_add_rune-IsQuiet n none =
        let p = source.pyord_rune n in
        bind-IsQuiet (lift-IsQuiet (ext.get_rune p.name)) λ r.
          bind-IsQuiet (lift-IsQuiet (or_raise r runtime)) λ entry.
            bind-IsQuiet (gets-IsQuiet λ w. w.db.next_rune_id) λ id.
              bind-IsQuiet (add_rune-IsQuiet bridge_id p entry)
                λ _. pure-IsQuiet (new_rune bridge_id p entry id)

    append_token_deposit-IsQuiet :
        (e : EventData RuneTransferToBtc) (r : Rune)
        → KeepsQuiet start (append_token_deposit config bridge_id ext source e r)
    append_token_deposit-IsQuiet e r = add_token_deposit-IsQuiet _ _ (λ db. refl) (λ db. refl)

    insert_token_deposit-IsQuiet :
        (e : EventData RuneTransferToBtc) (r : Rune)
        → KeepsQuiet start (insert_token_deposit config bridge_id ext source e r)
    insert_token_deposit-IsQuiet e r =
        bind-IsQuiet (gets-IsQuiet λ w. is_stored config bridge_id ext source e w.db) λ stored.
          bind-IsQuiet (lift-IsQuiet (raise_if stored external))
            λ _. append_token_deposit-IsQuiet e r

    store_event_if-IsQuiet :
        (b : Bool) (m : Service (Unit {0}))
        → KeepsQuiet start m
        → KeepsQuiet start (if b then pure tt else m)
    store_event_if-IsQuiet true m h = pure-IsQuiet tt
    store_event_if-IsQuiet false m h = h

    store_event-IsQuiet :
        (e : EventData RuneTransferToBtc)
        → KeepsQuiet start (store_event config bridge_id ext source e)
    unfolding store_event
    store_event-IsQuiet e = store_event_if-IsQuiet (not (is_rune_transfer e)) _ (
        bind-IsQuiet (asks-IsQuiet λ w. one_or_none (runes_with_number bridge_id e.args.rune w.db))
          λ found. bind-IsQuiet (get_or_add_rune-IsQuiet e.args.rune found) λ r.
            bind-IsQuiet (insert_token_deposit-IsQuiet e r)
              λ _. notify-IsQuiet ext Notice.new_rune_token_deposit)

    scan_range-IsQuiet :
        (a b : ℕ)
        → KeepsQuiet start (
            scan_range
              (scanner config bridge_id ext source)
              (callback config bridge_id ext source)
              a
              b)
    scan_range-IsQuiet a b =
        let key = (scanner config bridge_id ext source).last_scanned_block_key in
        bind-IsQuiet (lift-IsQuiet (collect_logs a b (source.rune_transfer_to_btc ∷ []))) λ logs.
          bind-IsQuiet (for_each-IsQuiet (sort_by event_le logs) store_event-IsQuiet)
            λ _. set_value-IsQuiet key (number b)

    scan_if_new-IsQuiet :
        (a b : ℕ)
        → KeepsQuiet start (
            scan_if_new
              (scanner config bridge_id ext source)
              (callback config bridge_id ext source)
              a
              b)
    scan_if_new-IsQuiet a b = store_event_if-IsQuiet (ltb b a) _ (scan_range-IsQuiet a b)

    scan_new_events-IsQuiet : KeepsQuiet start (
        scan_new_events
          (scanner config bridge_id ext source)
          (callback config bridge_id ext source))
    unfolding scan_new_events
    scan_new_events-IsQuiet = bind-IsQuiet (lift-IsQuiet source.block_number) λ current.
        bind-IsQuiet
          (asks-IsQuiet λ w. last_scanned_block (scanner config bridge_id ext source) w.db)
          λ last. scan_if_new-IsQuiet _ _

  -- A scan for rune token deposits submits and broadcasts nothing (it sends messages only) and keeps
  -- every deposit within what its status allows, whatever the node and ord answer, also where it
  -- raises.
  pub scan_rune_token_deposits-IsQuiet :
      (w : World)
      → IsSafe w
      → Post
          (λ _ t. IsQuiet w t)
          (IsQuiet w)
          (scan_rune_token_deposits config bridge_id ext source w)
  unfolding scan_rune_token_deposits
  scan_rune_token_deposits-IsQuiet w h =
      Post-bind (λ _ t. IsQuiet w t) (λ _ t. IsQuiet w t) (IsQuiet w) _ _
        (transaction-IsQuiet _ (λ start. scan_new_events-IsQuiet) w h) (λ _ t q. q)

  pub scan_rune_token_deposits-IsSafe :
      Keeps IsSafe (scan_rune_token_deposits config bridge_id ext source)
  scan_rune_token_deposits-IsSafe = IsSafe-Post _ scan_rune_token_deposits-IsQuiet
