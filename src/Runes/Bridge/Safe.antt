-- ===== src/Runes/Bridge/Safe.antt =====
-- No iteration of the bridge sends a deposit twice, in either direction.
use nbte_bridge.Prelude.{ℕ, ◌≤◌, not, List, [], ◌∷◌, arith, nat_eq}
use nbte_bridge.Proc.Hoare.{Post-bind, Post-lift, Keeps, Keeps-for_each, Keeps_state}
use nbte_bridge.Runes.External.{RuneBridgeServiceConfig}
use nbte_bridge.Runes.World.{World, transaction}
use nbte_bridge.Runes.Quiet.{IsSafe}
use nbte_bridge.Runes.ToEvm.{
  get_accepted_rune_deposit_ids, confirm_sent_rune_deposit, confirm_sent_rune_deposits,
}
use nbte_bridge.Runes.ToEvm.Once.{submissions, deposit_at, allowance_le}
use nbte_bridge.Runes.ToBtc.Once.{broadcasts, token_deposit_at, token_allowance_le}
use nbte_bridge.Runes.ToEvm.Leaves.{confirm_sent_rune_deposit-IsSafe}
use nbte_bridge.Runes.ToBtc.Handle.{
  get_accepted_rune_token_deposit_ids, handle_accepted_rune_token_deposit,
}
use nbte_bridge.Runes.ToBtc.Leaves.{handle_accepted_rune_token_deposit-IsSafe}
use nbte_bridge.Runes.Scan.Once.{scan_rune_deposits-IsSafe}
use nbte_bridge.Runes.Scan.TokensOnce.{scan_rune_token_deposits-IsSafe}
use nbte_bridge.Runes.Bridge.Turn.{caught-IsSafe, if-IsSafe, handle_rune_transfer-IsSafe}
use nbte_bridge.Runes.Bridge.{
  Answers, caught, handle_rune_transfer, handle_rune_transfers_to_evm,
  handle_rune_token_transfers_to_btc, lead, run_iteration,
}

module _ (config : RuneBridgeServiceConfig) (bridge_id : ℕ) (a : Answers) where
  handle_rune_transfers_to_evm-IsSafe :
      Keeps IsSafe (handle_rune_transfers_to_evm config bridge_id a)
  unfolding get_accepted_rune_deposit_ids transaction
  handle_rune_transfers_to_evm-IsSafe w h =
      Keeps-for_each IsSafe _ (λ i. caught (handle_rune_transfer config bridge_id a i))
        (λ i. caught-IsSafe _ (handle_rune_transfer-IsSafe config bridge_id a i)) w h

  handle_rune_token_transfers_to_btc-IsSafe :
      Keeps IsSafe (handle_rune_token_transfers_to_btc config bridge_id a)
  unfolding get_accepted_rune_token_deposit_ids transaction
  handle_rune_token_transfers_to_btc-IsSafe w h =
      Keeps-for_each IsSafe _
        (λ i.
          caught (handle_accepted_rune_token_deposit config bridge_id a.ext a.signer a.ask_btc i))
        (λ i.
          caught-IsSafe _
            (handle_accepted_rune_token_deposit-IsSafe config bridge_id a.ext a.signer a.ask_btc i))
        w h

  lead-IsSafe : Keeps IsSafe (lead config bridge_id a)
  lead-IsSafe w h =
      Post-lift (λ _ t. IsSafe t) IsSafe a.ext.frozen _ w h
        λ frozen _.
          if-IsSafe frozen _ _ (λ v k. k)
            (λ v k.
              Post-bind (λ _ t. IsSafe t) (λ _ t. IsSafe t) IsSafe _ _
                (handle_rune_transfers_to_evm-IsSafe v k)
                (λ _ u l. handle_rune_token_transfers_to_btc-IsSafe u l))
            w h

  confirmed-IsSafe : Keeps IsSafe (confirm_sent_rune_deposits bridge_id a.ext)
  unfolding confirm_sent_rune_deposits transaction
  confirmed-IsSafe w h =
      Keeps-for_each IsSafe _ (λ i. confirm_sent_rune_deposit bridge_id i a.ext)
        (λ i. confirm_sent_rune_deposit-IsSafe bridge_id i a.ext) w h

  -- An iteration of the bridge keeps every deposit, in both directions, within what its status allows
  -- to be sent, whatever the other programs and nodes answer, also where the iteration raises.
  pub run_iteration-IsSafe : Keeps IsSafe (run_iteration config bridge_id a)
  unfolding run_iteration
  run_iteration-IsSafe w h =
      Post-lift (λ _ t. IsSafe t) IsSafe a.check _ w h
        λ _ _.
          Post-bind (λ _ t. IsSafe t) (λ _ t. IsSafe t) IsSafe _ _
            (scan_rune_deposits-IsSafe config bridge_id a.ext a.listing w h)
            λ _ u k.
              Post-bind (λ _ t. IsSafe t) (λ _ t. IsSafe t) IsSafe _ _
                (scan_rune_token_deposits-IsSafe config bridge_id a.ext a.source u k)
                λ _ v l.
                  Post-bind (λ _ t. IsSafe t) (λ _ t. IsSafe t) IsSafe _ _ (confirmed-IsSafe v l)
                    λ _ t m. if-IsSafe (not a.is_leader) _ _ (λ s n. n) lead-IsSafe t m

module _ (config : RuneBridgeServiceConfig) (bridge_id : ℕ) where
  -- The states after iterations, each with its own answers; an iteration that raises is logged.
  abbrev pub run_iterations : List Answers → World → World
  run_iterations [] w = w
  run_iterations (a ∷ answers) w = run_iterations answers (run_iteration config bridge_id a w).1

  run_iterations-IsSafe :
      (answers : List Answers) (w : World) → IsSafe w → IsSafe (run_iterations answers w)
  run_iterations-IsSafe [] w h = h
  run_iterations-IsSafe (a ∷ answers) w h = run_iterations-IsSafe answers _ (
      Keeps_state IsSafe (run_iteration config bridge_id a w)
        (run_iteration-IsSafe config bridge_id a w h))

  -- From a state in which nothing is sent beyond what the statuses allow, any number of iterations,
  -- with any answers of the other programs and nodes, submits every rune deposit at most once to the
  -- EVM chain, and broadcasts at most one transaction for every rune token deposit.
  pub run_iterations_once :
      (answers : List Answers) (w : World)
      → IsSafe w
      → (i : ℕ)
      → (submissions i (run_iterations answers w).effects ≤ 1)
        × (broadcasts i (run_iterations answers w).effects ≤ 1)
  run_iterations_once answers w h i =
      let safe = run_iterations-IsSafe answers w h in
      let t = run_iterations answers w in
      (
        omega (arith, safe.to_evm.once i, allowance_le (deposit_at i t)),
        omega (arith, safe.to_btc.paid i, token_allowance_le (token_deposit_at i t)),
      )
