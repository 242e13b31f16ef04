-- ===== src/Runes/Bridge.antt =====
-- An iteration of the rune bridge (bridge_node/bridge/bridges/runes/bridge.py). `is_leader` and the
-- two `ask`s are the network's; an exception that a loop catches ends the turn for one deposit.
pub mod Turn
pub mod Safe
use nbte_bridge.Prelude.{ℕ, Bool, List, ◌∷◌, not, if◌then◌else◌}
use nbte_bridge.Result.{Error, Result}
use nbte_bridge.Proc.{pure, lift, ◌>>=◌, ◌>>◌, for_each}
use nbte_bridge.Runes.External.{External, RuneBridgeServiceConfig}
use nbte_bridge.Runes.Messages.{
  RuneToEvmTransfer, SignRuneToEvmTransferAnswer, SignRuneTokenToBtcTransferQuestion,
  SignRuneTokenToBtcTransferAnswer,
}
use nbte_bridge.Runes.Signing.{answer_sign_rune_to_evm_transfer_question}
use nbte_bridge.Runes.World.{Service, try_except_else}
use nbte_bridge.Runes.ToEvm.{
  get_accepted_rune_deposit_ids, validate_rune_deposit_for_sending,
  get_sign_rune_to_evm_transfer_question, update_rune_deposit_signatures, send_rune_deposit_to_evm,
  confirm_sent_rune_deposits,
}
use nbte_bridge.Runes.ToBtc.Signer.{Signer}
use nbte_bridge.Runes.ToBtc.Handle.{
  get_accepted_rune_token_deposit_ids, handle_accepted_rune_token_deposit,
}
use nbte_bridge.Runes.Scan.Listed.{Listing}
use nbte_bridge.Runes.Scan.Store.{scan_rune_deposits}
use nbte_bridge.Runes.Scan.Tokens.{EventSource, scan_rune_token_deposits}

-- What the other programs and nodes answer during an iteration.
pub record Answers : Type 0 where
  pub ext : External
  pub listing : Listing
  pub source : EventSource
  pub signer : Signer
  pub is_leader : Bool
  pub check : Result (Unit {0})
  pub ask_evm : RuneToEvmTransfer → Result (List SignRuneToEvmTransferAnswer)
  pub ask_btc : SignRuneTokenToBtcTransferQuestion → Result (List SignRuneTokenToBtcTransferAnswer)

-- `except Exception`: the exception is logged.
abbrev pub logged : Error → Service (Unit {0})
logged e = pure tt

abbrev pub caught : Service (Unit {0}) → Service (Unit {0})
caught m = try_except_else m logged (λ _. pure tt)

module _ (config : RuneBridgeServiceConfig) (bridge_id : ℕ) (a : Answers) where
  abbrev pub send_if_ready : ℕ → Bool → Service (Unit {0})
  send_if_ready deposit_id ready =
      if ready then send_rune_deposit_to_evm bridge_id deposit_id a.ext else pure tt

  -- From the question on.
  abbrev pub collect_signatures : ℕ → Service (Unit {0})
  collect_signatures deposit_id = do
    message ← get_sign_rune_to_evm_transfer_question bridge_id deposit_id
    self_response ← lift (answer_sign_rune_to_evm_transfer_question config a.ext message)
    responses ← lift (a.ask_evm message)
    ready_to_send ←
        update_rune_deposit_signatures bridge_id deposit_id a.ext self_response.message_hash
          (self_response ∷ responses)
    send_if_ready deposit_id ready_to_send

  abbrev pub collect_if_valid : ℕ → Bool → Service (Unit {0})
  collect_if_valid deposit_id valid = if valid then collect_signatures deposit_id else pure tt

  -- The body of the `try` of `_handle_rune_transfers_to_evm`.
  unfoldable pub handle_rune_transfer : ℕ → Service (Unit {0})
  handle_rune_transfer deposit_id = do
    valid ← validate_rune_deposit_for_sending bridge_id deposit_id config a.ext
    collect_if_valid deposit_id valid

  abbrev pub handle_rune_transfers_to_evm : Service (Unit {0})
  handle_rune_transfers_to_evm = do
    ids ← get_accepted_rune_deposit_ids bridge_id
    for_each ids (λ deposit_id. caught (handle_rune_transfer deposit_id))

  abbrev pub handle_rune_token_transfers_to_btc : Service (Unit {0})
  handle_rune_token_transfers_to_btc = do
    ids ← get_accepted_rune_token_deposit_ids bridge_id
    for_each ids (λ deposit_id.
        caught
          (handle_accepted_rune_token_deposit config bridge_id a.ext a.signer a.ask_btc deposit_id))

  abbrev pub handle_transfers : Bool → Service (Unit {0})
  handle_transfers frozen =
      if frozen
      then pure tt
      else do handle_rune_transfers_to_evm; handle_rune_token_transfers_to_btc

  abbrev pub lead : Service (Unit {0})
  lead = do frozen ← lift a.ext.frozen; handle_transfers frozen

  -- `run_iteration`; `service.check` is the wallet's.
  unfoldable pub run_iteration : Service (Unit {0})
  run_iteration = do
    lift a.check
    _ ← scan_rune_deposits config bridge_id a.ext a.listing
    _ ← scan_rune_token_deposits config bridge_id a.ext a.source
    confirm_sent_rune_deposits bridge_id a.ext
    if not a.is_leader then pure tt else lead
