-- ===== src/Tests/Main.antt =====
-- Iterations of the main loop with all bridges, on the worlds of the other tests.
use nbte_bridge.Prelude.{◌≤◌, true, some, [], ◌∷◌}
use nbte_bridge.Result.{ok}
use nbte_bridge.Runes.ToEvm.Once.{submissions}
use nbte_bridge.Runes.ToBtc.Once.{broadcasts}
use nbte_bridge.TapRsk.Payments.{assets_payments, rsk_payments}
use nbte_bridge.TapRsk.TapToRsk.Batches.{batch_limit}
use nbte_bridge.Main.{Node, Settings, Answers, enter_main_loop}
use nbte_bridge.Main.Safe.{enter_main_loop_once}
use nbte_bridge.Tests.Service as Service
use nbte_bridge.Tests.Once as Once
use nbte_bridge.Tests.Bridge as Bridge
use nbte_bridge.Tests.Tap as Tap

abbrev node : Node
node = record { tap = Tap.world; runes = Service.world; pong_nonce = 0 }

abbrev settings : Settings
settings = record {
  enabled_bridge_names = "all" ∷ [];
  runesrsk_config = Service.config;
  runesrsk_id = 1;
  runesbob_config = Service.config;
  runesbob_id = 2;
}

abbrev answers : Answers
answers = record {
  is_leader = true;
  pongs = λ nonce. ok (record { nonce = some nonce; sender = some "b" } ∷ []);
  tap_rsk = Tap.answers;
  runes_rsk = Bridge.answers;
  runes_bob = Bridge.answers;
}

enter_main_loop_once_example :
    let after = enter_main_loop settings (answers ∷ answers ∷ []) node in
    (submissions 1 after.runes.effects ≤ 1)
    × (broadcasts 1 after.runes.effects ≤ 1)
    × (assets_payments 1 after.tap.effects ≤ 1)
    × (rsk_payments 1 after.tap.effects ≤ batch_limit)
enter_main_loop_once_example =
    enter_main_loop_once settings (answers ∷ answers ∷ []) node
      (record { runes = Once.world-IsSafe; tap = Tap.world-IsSafe }) 1
