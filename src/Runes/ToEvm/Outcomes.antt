-- ===== src/Runes/ToEvm/Outcomes.antt =====
-- How `send_rune_deposit_to_evm` ends (bridge_node/bridge/bridges/runes/service.py).
use nbte_bridge.Prelude.{
  ◌⊎◌, ℕ, suc, ◌*◌, ◌-◌, ◌≤◌, ◌<◌, ◌≡◌, refl, String, true, false, some, none, ◌∷◌, length, take,
  ltb, leb, nat_eq, ◌==◌, Bool-cases, inl, inr, arith, beq_refl,
}
use nbte_bridge.Result.{Error, ok, err, validation, runtime, no_result, Result-cases}
use nbte_bridge.Runes.Models.{User, Rune, RuneDeposit, RuneDepositStatus, is_accepted}
use nbte_bridge.Runes.External.{External, AcceptTransfer, Notice}
use nbte_bridge.Runes.World.{World, transaction, submitted, notified}
use nbte_bridge.Rows.{find_id, find_id-update_id}
use nbte_bridge.Runes.ToEvm.{
  check_account, start_sending, start_and_send, send_rune_deposit_to_evm, update_deposit,
  confirm_sent_rune_deposit,
}
use nbte_bridge.Runes.ToEvm.Once.{deposit_at, submissions}

-- The start of the sending of a deposit that is not accepted.
not_started :
    (bridge_id i n : ℕ) (ext : External) (d : RuneDeposit) (w : World)
    → deposit_at i w ≡ some d
    → is_accepted d.status ≡ false
    → (e : Error) × (start_and_send bridge_id i ext n w ≡ (err e, w))
unfolding transaction
not_started bridge_id i n ext d w found status = elim (Bool-cases (d.bridge_id == bridge_id)) [
  | inl own ↦ (validation, ground (arith, found, own, status))
  | inr other ↦ (no_result, ground (arith, found, other))
]

-- A deposit that is not accepted is never sent, whatever the contract and the node answer: the call
-- returns where the bridge is frozen and raises otherwise, and in both cases nothing is sent and
-- nothing is written.
pub send_rune_deposit_to_evm_refused :
    (bridge_id i : ℕ) (ext : External) (d : RuneDeposit) (w : World)
    → deposit_at i w ≡ some d
    → is_accepted d.status ≡ false
    → ((ext.frozen ≡ ok true) × (send_rune_deposit_to_evm bridge_id i ext w ≡ (ok tt, w)))
      ⊎ ((e : Error) × (send_rune_deposit_to_evm bridge_id i ext w ≡ (err e, w)))
unfolding send_rune_deposit_to_evm
send_rune_deposit_to_evm_refused bridge_id i ext d w found status = elim (Result-cases ext.frozen) [
  | inr (e, f) ↦ inr (e, ground (arith, f))
  | inl (true, f) ↦ inl (f, ground (arith, f))
  | inl (false, f) ↦ elim (Result-cases ext.num_required_federators) [
    | inr (e, r) ↦ inr (e, ground (arith, f, r))
    | inl (n, r) ↦
        let (e, raised) = not_started bridge_id i n ext d w found status in
        inr (e, ground (arith, f, r, raised))
  ]
]

-- The found deposit after an update of it.
updated :
    (i : ℕ) (f : RuneDeposit → RuneDeposit) (d : RuneDeposit) (w : World)
    → ((d : RuneDeposit) → (f d).id ≡ d.id)
    → deposit_at i w ≡ some d
    → deposit_at i (update_deposit i f w).1 ≡ some (f d)
updated i f d w same found = ground (
  arith,
  find_id-update_id (λ (d : RuneDeposit). d.id) i i f same w.db.rune_deposits,
  beq_refl i,
  found,
)

abbrev pub as_sending : RuneDeposit → RuneDeposit
as_sending d = record d { status = RuneDepositStatus.sending_to_evm }

abbrev pub as_sent : String → RuneDeposit → RuneDeposit
as_sent tx_hash d = record d { status = RuneDepositStatus.sent_to_evm; evm_tx_hash = some tx_hash }

module _ (bridge_id i : ℕ) (ext : External) (n : ℕ) (d : RuneDeposit) (user : User) (rune : Rune)
    (w : World) (active : ext.frozen ≡ ok false) (required : ext.num_required_federators ≡ ok n)
    (found : deposit_at i w ≡ some d) (own : d.bridge_id ≡ bridge_id)
    (status : is_accepted d.status ≡ true) (enough : n ≤ length d.accept_transfer_signatures)
    (has_user : find_id (λ (u : User). u.id) d.user_id w.db.users ≡ some user)
    (has_rune : find_id (λ (r : Rune). r.id) d.rune_id w.db.runes ≡ some rune) where
  abbrev pub transfer_of_deposit : AcceptTransfer
  transfer_of_deposit = record {
    evm_address = user.evm_address;
    rune_number = d.rune_number;
    net_rune_amount = d.net_amount_raw;
    btc_txid = ext.add_0x_prefix d.tx_id;
    btc_vout = d.vout;
    signatures = take n d.accept_transfer_signatures;
  }

  started :
      start_sending bridge_id i ext n w
      ≡ (ok (some transfer_of_deposit), (update_deposit i as_sending w).1)
  unfolding transaction
  started =
      let guard : ltb (length d.accept_transfer_signatures) n ≡ false = grind arith in
      ground (arith, required, found, own, beq_refl bridge_id, status, guard, has_user, has_rune)

  -- An accepted deposit with enough signatures, where the account cannot pay for the gas: the call
  -- raises, nothing is sent, and the deposit is left with the status SENDING_TO_EVM.
  pub send_rune_deposit_to_evm_unfunded :
      (gas_price balance : ℕ)
      → ext.gas_price ≡ ok gas_price
      → ext.balance_wei ≡ ok balance
      → balance < 300000 * gas_price
      → (send_rune_deposit_to_evm bridge_id i ext w
          ≡ (err runtime, (update_deposit i as_sending w).1))
        × (deposit_at i (update_deposit i as_sending w).1 ≡ some (as_sending d))
  unfolding send_rune_deposit_to_evm
  send_rune_deposit_to_evm_unfunded gas_price balance e b low =
      let guard : ltb balance (300000 * gas_price) ≡ true = grind arith in
      (
        ground (arith, active, required, started, e, b, guard),
        updated i as_sending d w (λ d. refl) found,
      )

  module _ (gas_price balance pending latest : ℕ) (tx_hash : String)
      (price : ext.gas_price ≡ ok gas_price) (funds : ext.balance_wei ≡ ok balance)
      (funded : 300000 * gas_price ≤ balance) (pending_nonce : ext.pending_nonce ≡ ok pending)
      (latest_nonce : ext.latest_nonce ≡ ok latest) (few : pending - latest < 4)
      (taken : ext.accept_transfer_from_btc transfer_of_deposit ≡ ok tx_hash) where
    checked : (v : World) → check_account bridge_id i ext v ≡ (ok tt, v)
    checked v =
        let guard : ltb balance (300000 * gas_price) ≡ false = grind arith in
        let room : leb 4 (pending - latest) ≡ false = grind arith in
        ground (arith, price, funds, guard, pending_nonce, latest_nonce, room)

    -- The state after a submission whose message is sent.
    abbrev pub sent_world : World
    sent_world =
        (update_deposit i (as_sent tx_hash) (record {
          db = (update_deposit i as_sending w).1.db;
          effects = notified Notice.rune_to_evm_sent ∷ submitted i transfer_of_deposit ∷ w.effects;
        })).1

    -- An accepted deposit with enough signatures, where the account has funds and fewer than four
    -- pending transactions, the node takes the transaction, the message is sent, and no receipt is
    -- there yet: the call returns, it submits once, with the deposit's own data and the required
    -- number of signatures, and the deposit is SENT_TO_EVM with the transaction's hash.
    pub send_rune_deposit_to_evm_sent :
        ext.send_message Notice.rune_to_evm_sent ≡ ok tt
        → ext.transaction_receipt tx_hash ≡ ok none
        → (send_rune_deposit_to_evm bridge_id i ext w ≡ (ok tt, sent_world))
          × (deposit_at i sent_world ≡ some (as_sent tx_hash (as_sending d)))
          × (submissions i sent_world.effects ≡ suc (submissions i w.effects))
    unfolding send_rune_deposit_to_evm confirm_sent_rune_deposit transaction
    send_rune_deposit_to_evm_sent message receipt =
        let first = updated i as_sending d w (λ d. refl) found in
        let v : World = record {
          db = (update_deposit i as_sending w).1.db;
          effects = notified Notice.rune_to_evm_sent ∷ submitted i transfer_of_deposit ∷ w.effects;
        } in
        let second = updated i (as_sent tx_hash) (as_sending d) v (λ d. refl) first in
        let account = checked (update_deposit i as_sending w).1 in
        (
          ground (
            arith,
            active,
            required,
            started,
            account,
            taken,
            message,
            first,
            second,
            own,
            beq_refl bridge_id,
            receipt,
          ),
          second,
          ground (arith, beq_refl i),
        )
