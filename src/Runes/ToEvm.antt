-- ===== src/Runes/ToEvm.antt =====
-- Rune deposits on their way to the EVM chain, from acceptance to confirmation
-- (bridge_node/bridge/bridges/runes/service.py).
pub mod Once
pub mod Leaves
pub mod Outcomes
use nbte_bridge.Prelude.{
  ℕ, ◌*◌, ◌-◌, String, Bool, true, false, not, Option, none, some, List, [], ◌∷◌, ◌++◌, map, keep,
  take, sort_by, length, contains, ltb, leb, ◌==◌, ◌&&◌, nat_eq, string_eq, if◌then◌else◌,
}
use nbte_bridge.Result.{
  Error, validation, runtime, assertion, lookup_error, one, or_raise, raise_if,
}
use nbte_bridge.Proc.{pure, raise, lift, gets, asks, ◌>>=◌, ◌>>◌, for_each}
use nbte_bridge.Runes.Models.{
  User, Rune, RuneDeposit, RuneDepositStatus, is_accepted, is_sent_to_evm,
}
use nbte_bridge.Decimals.{of_int, div_ten_pow}
use nbte_bridge.Runes.External.{External, RuneBridgeServiceConfig, AcceptTransfer, Notice}
use nbte_bridge.Runes.Messages.{RuneToEvmTransfer, SignRuneToEvmTransferAnswer}
use nbte_bridge.Runes.Signing.{prune_invalid_sign_rune_to_evm_transfer_answers}
use nbte_bridge.Runes.World.{
  Db, World, Service, transaction, change, emit, notify, submitted, try_except_else,
}
use nbte_bridge.Rows.{find_id, with_id, update_id}

module _ (bridge_id : ℕ) where
  -- The query of `get_accepted_rune_deposit_ids`.
  unfoldable pub get_accepted_rune_deposit_ids : Service (List ℕ)
  get_accepted_rune_deposit_ids = transaction (
      gets λ w.
        map (λ d. d.id)
          (sort_by (λ (c d : RuneDeposit). leb c.id d.id)
            (keep (λ d. (d.bridge_id == bridge_id) && is_accepted d.status) w.db.rune_deposits)))

  -- `query(RuneDeposit).filter_by(bridge_id=..., id=...).one()`
  abbrev pub query_deposit : ℕ → Service RuneDeposit
  query_deposit deposit_id = asks λ w.
      one (keep (λ d. d.bridge_id == bridge_id) (with_id (λ d. d.id) deposit_id w.db.rune_deposits))

-- `deposit.user` and `deposit.rune`: the rows that the foreign keys name.
abbrev pub deposit_user : RuneDeposit → Service User
deposit_user d = asks λ w. or_raise (find_id (λ (u : User). u.id) d.user_id w.db.users) lookup_error

abbrev pub deposit_rune : RuneDeposit → Service Rune
deposit_rune d = asks λ w. or_raise (find_id (λ (r : Rune). r.id) d.rune_id w.db.runes) lookup_error

-- Assignments to a deposit that the session holds.
abbrev pub update_deposit : ℕ → (RuneDeposit → RuneDeposit) → Service (Unit {0})
update_deposit deposit_id f =
    change λ db. record db { rune_deposits = update_id (λ d. d.id) deposit_id f db.rune_deposits }

module _ (bridge_id deposit_id : ℕ) where
  -- `get_sign_rune_to_evm_transfer_question`
  unfoldable pub get_sign_rune_to_evm_transfer_question : Service RuneToEvmTransfer
  get_sign_rune_to_evm_transfer_question = transaction do
    deposit ← query_deposit bridge_id deposit_id
    lift (raise_if (not (is_accepted deposit.status)) validation)
    user ← deposit_user deposit
    rune ← deposit_rune deposit
    pure (record {
      evm_address = user.evm_address;
      amount_raw = deposit.transfer_amount_raw;
      amount_decimal = div_ten_pow (of_int deposit.transfer_amount_raw) rune.divisibility;
      net_amount_raw = deposit.net_amount_raw;
      txid = deposit.tx_id;
      vout = deposit.vout;
      rune_name = rune.name;
      rune_number = rune.n;
    })

  -- The part of `validate_rune_deposit_for_sending` that reads the database: `none` where the
  -- status is wrong, else the number of the rune and the postage.
  abbrev pub deposit_to_validate : Service (Option (ℕ × ℕ))
  deposit_to_validate = transaction do
    deposit ← query_deposit bridge_id deposit_id
    if is_accepted deposit.status
        then (do rune ← deposit_rune deposit; pure (some (rune.n, deposit.postage)))
        else pure none

  -- The part that asks the contract.
  abbrev pub validate_rune : RuneBridgeServiceConfig → External → Option (ℕ × ℕ) → Service Bool
  validate_rune config ext none = pure false
  validate_rune config ext (some (rune_number, postage)) = do
    registered ← lift (ext.is_rune_registered rune_number)
    if not registered then pure false else do
      paused ← lift (ext.is_rune_paused rune_number)
      pure
          (if paused then false else if ltb postage config.btc_min_postage_sat then false else true)

  -- `validate_rune_deposit_for_sending`
  unfoldable pub validate_rune_deposit_for_sending :
      RuneBridgeServiceConfig → External → Service Bool
  validate_rune_deposit_for_sending config ext = do
    found ← deposit_to_validate
    validate_rune config ext found

-- The loop that stores the signatures of the signers that have not signed yet.
abbrev pub add_answers :
    List SignRuneToEvmTransferAnswer → List String × List String → List String × List String
add_answers [] stored = stored
add_answers (answer ∷ answers) (signers, signatures) = add_answers answers (
    if contains signers answer.signer
    then (signers, signatures)
    else (signers ++ answer.signer ∷ [], signatures ++ answer.signature ∷ []))

abbrev pub with_answers : String → List SignRuneToEvmTransferAnswer → RuneDeposit → RuneDeposit
with_answers message_hash answers d =
    let (signers, signatures) =
      add_answers answers (d.accept_transfer_signers, d.accept_transfer_signatures) in
    record d {
      accept_transfer_message_hash = some message_hash;
      accept_transfer_signers = signers;
      accept_transfer_signatures = signatures;
    }

module _ (bridge_id deposit_id : ℕ) (ext : External) where
  -- `update_rune_deposit_signatures`
  unfoldable pub update_rune_deposit_signatures :
      String → List SignRuneToEvmTransferAnswer → Service Bool
  update_rune_deposit_signatures message_hash answers = transaction do
    deposit ← query_deposit bridge_id deposit_id
    lift (raise_if (not (is_accepted deposit.status)) validation)
    valid ← lift (prune_invalid_sign_rune_to_evm_transfer_answers ext message_hash answers)
    update_deposit deposit_id (with_answers message_hash valid)
    num_required ← lift ext.num_required_federators
    pure (
        leb num_required
          (length (with_answers message_hash valid deposit).accept_transfer_signatures))

  -- `_confirm_sent_rune_deposit`: first the read, then the receipt, then the write.
  abbrev pub get_deposit : Service RuneDeposit
  get_deposit = asks λ w. or_raise (find_id (λ d. d.id) deposit_id w.db.rune_deposits) lookup_error

  abbrev pub get_own_deposit : Service RuneDeposit
  get_own_deposit = do
    deposit ← get_deposit
    lift (raise_if (not (deposit.bridge_id == bridge_id)) assertion)
    pure deposit

  abbrev pub updated_status : Option Bool → Service (Option RuneDepositStatus)
  updated_status none = pure none
  updated_status (some true) = do
    notify ext Notice.rune_to_evm_confirmed
    pure (some RuneDepositStatus.confirmed_in_evm)
  updated_status (some false) = do
    notify ext Notice.rune_to_evm_failed
    pure (some RuneDepositStatus.evm_transaction_failed)

  abbrev pub write_updated_status : Option RuneDepositStatus → Service (Unit {0})
  write_updated_status none = pure tt
  write_updated_status (some status) = transaction do
    deposit ← get_deposit
    lift (raise_if (not (is_sent_to_evm deposit.status)) assertion)
    update_deposit deposit_id (λ d. record d { status = status })

  abbrev pub apply_receipt : Option Bool → Service (Unit {0})
  apply_receipt receipt = do status ← updated_status receipt; write_updated_status status

  -- The hash is there whenever the status is SENT_TO_EVM; without one web3 raises.
  unfoldable pub confirm_sent_rune_deposit : Service (Unit {0})
  confirm_sent_rune_deposit = do
    deposit ← transaction get_own_deposit
    if not (is_sent_to_evm deposit.status) then pure tt else do
      tx_hash ← lift (or_raise deposit.evm_tx_hash Error.external)
      receipt ← lift (ext.transaction_receipt tx_hash)
      apply_receipt receipt

  -- The first transaction of `send_rune_deposit_to_evm`: `none` where signatures are missing.
  abbrev pub start_sending : ℕ → Service (Option AcceptTransfer)
  start_sending num_required_signers = transaction do
    deposit ← query_deposit bridge_id deposit_id
    lift (raise_if (not (is_accepted deposit.status)) validation)
    if ltb (length deposit.accept_transfer_signatures) num_required_signers then pure none else do
      update_deposit deposit_id (λ d. record d { status = RuneDepositStatus.sending_to_evm })
      user ← deposit_user deposit
      rune ← deposit_rune deposit
      pure (
          some (record {
            evm_address = user.evm_address;
            rune_number = deposit.rune_number;
            net_rune_amount = deposit.net_amount_raw;
            btc_txid = ext.add_0x_prefix deposit.tx_id;
            btc_vout = deposit.vout;
            signatures = take num_required_signers deposit.accept_transfer_signatures;
          }))

  -- The checks of the EVM account. `int(1.2 * 250_000 * gas_price)` is the exact product while it
  -- is below 2 ^ 53.
  abbrev pub check_account : Service (Unit {0})
  check_account = do
    tx_gas_price ← lift ext.gas_price
    balance_wei ← lift ext.balance_wei
    lift (raise_if (ltb balance_wei (300000 * tx_gas_price)) runtime)
    nonce ← lift ext.pending_nonce
    latest ← lift ext.latest_nonce
    lift (raise_if (leb 4 (nonce - latest)) runtime)

  -- The body of the `try`: the transaction, and the message about it.
  abbrev pub submit : AcceptTransfer → Service String
  submit transfer = do
    tx_hash ← lift (ext.accept_transfer_from_btc transfer)
    emit (submitted deposit_id transfer)
    notify ext Notice.rune_to_evm_sent
    pure tx_hash

  abbrev pub store_outcome : (RuneDeposit → RuneDeposit) → Service (Unit {0})
  store_outcome f = transaction do _ ← get_own_deposit; update_deposit deposit_id f

  abbrev pub sending_failed : Error → Service (Unit {0})
  sending_failed e = do
    store_outcome (λ d. record d { status = RuneDepositStatus.sending_to_evm_failed })
    notify ext Notice.rune_to_evm_sending_failed
    raise e

  abbrev pub sending_done : String → Service (Unit {0})
  sending_done tx_hash =
      store_outcome
        (λ d. record d { status = RuneDepositStatus.sent_to_evm; evm_tx_hash = some tx_hash })

  abbrev pub send_checked : AcceptTransfer → Service (Unit {0})
  send_checked transfer = do
    try_except_else (submit transfer) sending_failed sending_done
    confirm_sent_rune_deposit

  abbrev pub send_started : Option AcceptTransfer → Service (Unit {0})
  send_started none = pure tt
  send_started (some transfer) = do check_account; send_checked transfer

  abbrev pub start_and_send : ℕ → Service (Unit {0})
  start_and_send num_required_signers = do
    started ← start_sending num_required_signers
    send_started started

  abbrev pub unless_frozen : Bool → Service (Unit {0})
  unless_frozen frozen = if frozen then pure tt else do
    num_required_signers ← lift ext.num_required_federators
    start_and_send num_required_signers

  -- `send_rune_deposit_to_evm`
  unfoldable pub send_rune_deposit_to_evm : Service (Unit {0})
  send_rune_deposit_to_evm = do frozen ← lift ext.frozen; unless_frozen frozen

-- `confirm_sent_rune_deposits`
unfoldable pub confirm_sent_rune_deposits : ℕ → External → Service (Unit {0})
confirm_sent_rune_deposits bridge_id ext = do
  ids ← transaction (
      gets λ w.
        map (λ d. d.id)
          (keep (λ d. (d.bridge_id == bridge_id) && is_sent_to_evm d.status) w.db.rune_deposits))
  for_each ids (λ deposit_id. confirm_sent_rune_deposit bridge_id deposit_id ext)
