-- ===== src/Evm/Scanner.antt =====
-- `EvmEventScanner` (bridge_node/bridge/common/evm/scanner.py): it hands the events of the blocks
-- after the last one that it scanned to a callback, within the caller's transaction.
use mathlib.Core.List.{Perm}
use nbte_bridge.Prelude.{
  ℕ, ◌+◌, ◌-◌, String, ◌≡◌, ◌<◌, Option, some, List, [], ◌∷◌, false, string_eq, arith, ltb, sort_by,
  if◌then◌else◌,
}
use nbte_bridge.Result.{Result, ok, err, external}
use nbte_bridge.Proc.{continue, pure, lift, asks, ◌>>=◌, ◌>>◌}
use nbte_bridge.Evm.Events.{EventData, ContractEvent, collect_logs, event_le}
use nbte_bridge.Evm.Order.{IsOrdered, sort-Perm, sort-IsOrdered}
use nbte_bridge.Evm.Batches.{Answers, blocks, collect_logs_lem}
use nbte_bridge.Transactions.{World, Tx}
use nbte_bridge.KeyValues.{Value, number, KeyValueTable}
use nbte_bridge.KeyValues.{get_value, set_value}

-- The arguments of the constructor, and `web3.eth.block_number`.
pub record EvmEventScanner (A : Type 0) : Type 0 where
  pub block_number : Result ℕ
  pub events : List (ContractEvent A)
  pub block_safety_margin : ℕ
  pub last_scanned_block_key : String
  pub default_start_block : ℕ

-- Python cannot add 1 to a text.
abbrev pub block_value : Option Value → Result ℕ
block_value (some (number n)) = ok n
block_value _ = err external

module _ {D A : Type 0} ⦃table : KeyValueTable D⦄ where
  module _ (scanner : EvmEventScanner A) where
    abbrev pub last_scanned_block : D → Result ℕ
    last_scanned_block db =
        block_value
          (get_value scanner.last_scanned_block_key (some (number scanner.default_start_block)) db)

    module _ {E : Type 0} (callback : List (EventData A) → Tx D E (Unit {0})) where
      abbrev pub scan_range : ℕ → ℕ → Tx D E (Unit {0})
      scan_range from_block to_block = do
        all_event_logs ← lift (collect_logs from_block to_block scanner.events)
        callback (sort_by event_le all_event_logs)
        set_value scanner.last_scanned_block_key (number to_block)

      abbrev pub scan_if_new : ℕ → ℕ → Tx D E (Unit {0})
      scan_if_new from_block to_block =
          if ltb to_block from_block then pure tt else scan_range from_block to_block

      -- `scan_new_events`. A `to_block` below 0 is 0 here: both are below `from_block`.
      unfoldable pub scan_new_events : Tx D E (Unit {0})
      scan_new_events = do
        current_block ← lift scanner.block_number
        last_scanned ← asks λ w. last_scanned_block w.db
        scan_if_new (last_scanned + 1) (current_block - scanner.block_safety_margin)

      module _ (chain : ℕ → List (EventData A)) (event : ContractEvent A)
          (answers : Answers chain 10 event) (one_event : scanner.events ≡ event ∷ [])
          (current last : ℕ) (w : World D E) (current_block : scanner.block_number ≡ ok current)
          (last_block : last_scanned_block w.db ≡ ok last) where
        -- With one kind of event, a node that answers each range within the eleven calls, and a block
        -- to scan: `scan_new_events` calls the callback once, with the events of exactly the blocks
        -- after the last one that it scanned, up to the safety margin below the current block, each
        -- as often as it is there, in their order on the chain (by block, then by transaction, then by
        -- log), and stores the last of these blocks.
        pub scan_new_events_lem :
            last < current - scanner.block_safety_margin
            → (events : List (EventData A)) × Perm events
                (blocks chain (last + 1) (current - scanner.block_safety_margin - last))
              × IsOrdered events
              × (scan_new_events w
                  ≡ continue (callback events w) (λ _.
                    set_value scanner.last_scanned_block_key
                      (number (current - scanner.block_safety_margin))))
        unfolding scan_new_events
        scan_new_events_lem h =
            let to_block = current - scanner.block_safety_margin in
            let guard : ltb to_block (last + 1) ≡ false = grind arith in
            let logs = collect_logs_lem chain event answers last to_block h in
            let found = blocks chain (last + 1) (to_block - last) in
            (
              sort_by event_le found,
              sort-Perm found,
              sort-IsOrdered found,
              simp (current_block, last_block, guard, one_event, logs),
            )
