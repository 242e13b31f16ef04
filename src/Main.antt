-- ===== src/Main.antt =====
-- `MainBridge` (bridge_node/bridge/main_bridge.py): the bridges of a node in one loop. The tables of the
-- bridge between Taproot assets and RSK and those of the two rune bridges are different tables of the
-- one database.
pub mod Safe
use nbte_bridge.Prelude.{
  ℕ, suc, String, Bool, Option, some, is_some, ◌&&◌, List, [], ◌∷◌, ◌++◌, contains, string_eq, ◌||◌,
  if◌then◌else◌,
}
use nbte_bridge.Result.{Result, ok, err, lookup_error}
use nbte_bridge.Proc.{Proc, pure, lift, gets, modify, ◌>>=◌, ◌>>◌}
use nbte_bridge.Runes.External.{RuneBridgeServiceConfig}
use nbte_bridge.Runes.World as Runes
use nbte_bridge.Runes.Bridge as RuneBridge
use nbte_bridge.TapRsk.World as Tap
use nbte_bridge.TapRsk.Bridge as TapRskBridge

-- The bridges in the order in which the loop calls them.
pub data BridgeName : Type 0 where
  taprsk runesrsk runesbob : BridgeName

pub record Node : Type 0 where
  pub tap : Tap.World
  pub runes : Runes.World
  pub pong_nonce : ℕ

-- The configuration: the enabled names, and each rune bridge with the id of its row.
pub record Settings : Type 0 where
  pub enabled_bridge_names : List String
  pub runesrsk_config : RuneBridgeServiceConfig
  pub runesrsk_id : ℕ
  pub runesbob_config : RuneBridgeServiceConfig
  pub runesbob_id : ℕ

-- What a pong carries under the keys that are read of it.
pub record Pong : Type 0 where
  pub nonce : Option ℕ
  pub sender : Option String

-- What the other programs and nodes answer during an iteration.
pub record Answers : Type 0 where
  pub is_leader : Bool
  pub pongs : ℕ → Result (List Pong)
  pub tap_rsk : TapRskBridge.Answers
  pub runes_rsk : RuneBridge.Answers
  pub runes_bob : RuneBridge.Answers

abbrev pub enabled : List String → String → BridgeName → List BridgeName
enabled names name bridge = if contains names name || contains names "all" then bridge ∷ [] else []

unfoldable pub bridges : List String → List BridgeName
bridges names =
    enabled names "taprsk" BridgeName.taprsk
    ++ enabled names "runesrsk" BridgeName.runesrsk
    ++ enabled names "runesbob" BridgeName.runesbob

-- `_answer_pong`
abbrev pub answer_pong : String → ℕ → Pong
answer_pong node_id nonce = record { nonce = some nonce; sender = some node_id }

-- The loop that logs the pongs: it reads both keys of each.
abbrev pub log_pongs : List Pong → Result (Unit {0})
log_pongs [] = ok tt
log_pongs (answer ∷ answers) =
    let rest = log_pongs answers in
    if is_some answer.nonce && is_some answer.sender then rest else err lookup_error

module _ (settings : Settings) (a : Answers) where
  -- `ping`: the pongs are logged after the nonce is raised.
  abbrev pub ping : Proc Node (Unit {0})
  ping = do
    nonce ← gets λ n. n.pong_nonce
    answers ← lift (a.pongs nonce)
    modify λ n. record n { pong_nonce = suc n.pong_nonce }
    lift (log_pongs answers)

  -- The node after `bridge.run_iteration()`, whose exception is logged.
  abbrev pub run_bridge : BridgeName → Node → Node
  run_bridge BridgeName.taprsk n = record n { tap = (TapRskBridge.run_iteration a.tap_rsk n.tap).1 }
  run_bridge BridgeName.runesrsk n = record n {
    runes =
        (RuneBridge.run_iteration settings.runesrsk_config settings.runesrsk_id a.runes_rsk
          n.runes).1;
  }
  run_bridge BridgeName.runesbob n = record n {
    runes =
        (RuneBridge.run_iteration settings.runesbob_config settings.runesbob_id a.runes_bob
          n.runes).1;
  }

  abbrev pub run_bridges : List BridgeName → Node → Node
  run_bridges [] n = n
  run_bridges (b ∷ bs) n = run_bridges bs (run_bridge b n)

  -- `run_iteration`
  unfoldable pub run_iteration : Proc Node (Unit {0})
  run_iteration = do
    if a.is_leader then ping else pure tt
    modify (run_bridges (bridges settings.enabled_bridge_names))

-- `enter_main_loop` for a number of iterations, each with its own answers; an exception is logged.
unfoldable pub enter_main_loop : Settings → List Answers → Node → Node
enter_main_loop settings [] n = n
enter_main_loop settings (a ∷ answers) n =
    enter_main_loop settings answers (run_iteration settings a n).1
