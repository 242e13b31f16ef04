-- ===== src/TapRsk/Bridge.antt =====
-- An iteration of the bridge between Taproot assets and RSK
-- (bridge_node/bridge/bridges/tap_rsk/bridge.py).
pub mod Scans
pub mod Scanned
pub mod Advances
pub mod Safe
use nbte_bridge.Prelude.{List, [], ◌∷◌, not, if◌then◌else◌}
use nbte_bridge.Result.{Error}
use nbte_bridge.Proc.{pure, ◌>>◌}
use nbte_bridge.Transactions.{transaction, try_except_else}
use nbte_bridge.TapRsk.External.{External}
use nbte_bridge.TapRsk.World.{World, Service}
use nbte_bridge.TapRsk.Scanner.{RskSource, scan_new_events}
use nbte_bridge.TapRsk.Deposits.{scan_new_deposits}
use nbte_bridge.TapRsk.RskToTap
use nbte_bridge.TapRsk.TapToRsk

-- `except Exception`: the exception is logged.
abbrev pub caught : Service (Unit {0}) → Service (Unit {0})
caught m = try_except_else m (λ (e : Error). pure tt) (λ _. pure tt)

-- What the other programs and nodes answer during an iteration.
pub record Answers : Type 0 where
  pub ext : External
  pub source : RskSource

module _ (a : Answers) where
  abbrev pub scan : Service (Unit {0})
  scan = transaction do scan_new_events a.source; scan_new_deposits a.ext

  abbrev pub lead : Service (Unit {0})
  lead = do
    caught (RskToTap.process_current_transfer_batch a.ext)
    caught (TapToRsk.process_current_transfer_batch a.ext)

  -- `run_iteration`
  unfoldable pub run_iteration : Service (Unit {0})
  run_iteration = do scan; if not a.ext.is_leader then pure tt else lead

-- The world after iterations, whatever each of them answers; an iteration that raises ends there.
unfoldable pub run_iterations : List Answers → World → World
run_iterations [] w = w
run_iterations (a ∷ rest) w = run_iterations rest (run_iteration a w).1
