-- ===== src/Main/Safe.antt =====
-- What the bridges of a node pay over the iterations of the main loop.
use nbte_bridge.Prelude.{ℕ, ◌≤◌, Bool, true, false, List, [], ◌∷◌, if◌then◌else◌}
use nbte_bridge.Proc.{pure}
use nbte_bridge.Proc.Hoare.{Post-bind, Post-lift, Keeps, Keeps-lift, Keeps_state}
use nbte_bridge.Runes.Quiet as Quiet
use nbte_bridge.Runes.ToEvm.Once.{submissions}
use nbte_bridge.Runes.ToBtc.Once.{broadcasts}
use nbte_bridge.Runes.Bridge.Safe.{run_iteration-IsSafe, run_iterations_once}
use nbte_bridge.TapRsk.Payments.{assets_payments, rsk_payments}
use nbte_bridge.TapRsk.TapToRsk.Batches.{batch_limit}
use nbte_bridge.TapRsk.Bridge as TapRskBridge
use nbte_bridge.TapRsk.Bridge.Advances as Advances
use nbte_bridge.TapRsk.Bridge.Safe.{run_iterations-Advances, run_iterations_bounded}
use nbte_bridge.Main.{
  BridgeName, Node, Settings, Answers, bridges, ping, log_pongs, run_bridge, run_bridges,
  run_iteration, enter_main_loop,
}

-- Nothing is sent beyond what the statuses allow, by any bridge, and the rows of the batches are tidy.
pub record IsSafe (n : Node) : Type 0 where
  pub runes : Quiet.IsSafe n.runes
  pub tap : Advances.IsSafe n.tap

module _ (settings : Settings) (a : Answers) where
  run_bridge-IsSafe : (b : BridgeName) (n : Node) → IsSafe n → IsSafe (run_bridge settings a b n)
  unfolding TapRskBridge.run_iterations
  run_bridge-IsSafe BridgeName.taprsk n h = record {
    runes = h.runes;
    tap = Advances.Advances-IsSafe (run_iterations-Advances (a.tap_rsk ∷ []) n.tap h.tap) h.tap;
  }
  run_bridge-IsSafe BridgeName.runesrsk n h = record {
    runes = Keeps_state Quiet.IsSafe _ (
        run_iteration-IsSafe settings.runesrsk_config settings.runesrsk_id a.runes_rsk n.runes
          h.runes);
    tap = h.tap;
  }
  run_bridge-IsSafe BridgeName.runesbob n h = record {
    runes = Keeps_state Quiet.IsSafe _ (
        run_iteration-IsSafe settings.runesbob_config settings.runesbob_id a.runes_bob n.runes
          h.runes);
    tap = h.tap;
  }

  run_bridges-IsSafe :
      (bs : List BridgeName) (n : Node) → IsSafe n → IsSafe (run_bridges settings a bs n)
  run_bridges-IsSafe [] n h = h
  run_bridges-IsSafe (b ∷ bs) n h =
      run_bridges-IsSafe bs (run_bridge settings a b n) (run_bridge-IsSafe b n h)

  ping-IsSafe : Keeps IsSafe (ping settings a)
  ping-IsSafe n h =
      Post-lift (λ _ t. IsSafe t) IsSafe (a.pongs n.pong_nonce) _ n h
        λ answers _.
          Keeps-lift IsSafe (log_pongs answers) _ (record { runes = h.runes; tap = h.tap })

  ping_if-IsSafe : (b : Bool) → Keeps IsSafe (if b then ping settings a else pure tt)
  ping_if-IsSafe true n h = ping-IsSafe n h
  ping_if-IsSafe false n h = h

  iteration-IsSafe : Keeps IsSafe (run_iteration settings a)
  unfolding run_iteration
  iteration-IsSafe n h =
      Post-bind (λ _ t. IsSafe t) (λ _ t. IsSafe t) IsSafe _ _ (ping_if-IsSafe a.is_leader n h)
        λ _ t k. run_bridges-IsSafe (bridges settings.enabled_bridge_names) t k

module _ (settings : Settings) where
  enter_main_loop-IsSafe :
      (answers : List Answers) (n : Node) → IsSafe n → IsSafe (enter_main_loop settings answers n)
  unfolding enter_main_loop
  enter_main_loop-IsSafe [] n h = h
  enter_main_loop-IsSafe (a ∷ answers) n h =
      enter_main_loop-IsSafe answers _
        (Keeps_state IsSafe (run_iteration settings a n) (iteration-IsSafe settings a n h))

  -- From a node on which nothing is sent beyond what the statuses allow, the ids of the batches
  -- from Taproot assets to RSK are distinct and below the next one, and at most ten transfers
  -- refer to one of them and none to an id that is not given out, any number of iterations of the
  -- main loop, with any bridges enabled and any answers of the other programs and nodes, and
  -- whatever raises, submits every rune deposit at most once to its EVM chain, broadcasts at most
  -- one transaction for every rune token deposit, pays every batch at most once by the Taproot
  -- Assets daemon, and hands the RSK node at most ten transactions for a batch.
  pub enter_main_loop_once :
      (answers : List Answers) (n : Node)
      → IsSafe n
      → (i : ℕ)
      → let after = enter_main_loop settings answers n in
        (submissions i after.runes.effects ≤ 1)
        × (broadcasts i after.runes.effects ≤ 1)
        × (assets_payments i after.tap.effects ≤ 1)
        × (rsk_payments i after.tap.effects ≤ batch_limit)
  unfolding TapRskBridge.run_iterations
  enter_main_loop_once answers n h i =
      let after = enter_main_loop settings answers n in
      let safe = enter_main_loop-IsSafe answers n h in
      let runes =
        run_iterations_once settings.runesrsk_config settings.runesrsk_id [] after.runes safe.runes
          i in
      let tap = run_iterations_bounded [] after.tap safe.tap i in (runes.0, runes.1, tap.0, tap.1)
