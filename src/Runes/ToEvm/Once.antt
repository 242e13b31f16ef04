-- ===== src/Runes/ToEvm/Once.antt =====
-- No rune deposit is sent to the EVM chain twice. The status of a deposit says how often it can
-- have been submitted, and every method of the service keeps to that, whatever the other programs
-- answer and wherever it raises.
use nbte_bridge.Prelude.{
  ℕ, suc, String, ◌≤◌, ◌≡◌, refl, Bool, true, false, Option, none, some, List, [], ◌∷◌, ◌==◌,
  nat_eq, Option-cases, inl, inr, beq_refl, arith, if◌then◌else◌,
}
use nbte_bridge.Result.{Error, Result, ok, err}
use nbte_bridge.Proc.{continue}
use nbte_bridge.Proc.Hoare.{Post, Post-bind, Keeps}
use nbte_bridge.Runes.Models.{RuneDeposit, RuneDepositStatus, is_accepted}
use nbte_bridge.Runes.External.{External, AcceptTransfer, Notice}
use nbte_bridge.Runes.World.{
  World, Effect, submitted, broadcast, notified, transaction, emit, after_try,
}
use nbte_bridge.Rows.{find_id, find_id-update_id}
use nbte_bridge.Runes.ToEvm.{
  start_sending, update_deposit, updated_status, write_updated_status, apply_receipt,
  confirm_sent_rune_deposit, submit, store_outcome, sending_failed, sending_done, send_checked,
  send_started, start_and_send, unless_frozen, send_rune_deposit_to_evm,
}

-- How often a deposit was submitted.
abbrev pub submissions : ℕ → List Effect → ℕ
submissions i [] = 0
submissions i (submitted j t ∷ es) = if j == i then suc (submissions i es) else submissions i es
submissions i (broadcast j t ∷ es) = submissions i es
submissions i (notified n ∷ es) = submissions i es

abbrev pub status_allowance : RuneDepositStatus → ℕ
status_allowance RuneDepositStatus.detected = 0
status_allowance RuneDepositStatus.accepted = 0
status_allowance RuneDepositStatus.rejected = 0
status_allowance _ = 1

abbrev pub allowance : Option RuneDeposit → ℕ
allowance none = 0
allowance (some d) = status_allowance d.status

abbrev pub deposit_at : ℕ → World → Option RuneDeposit
deposit_at i w = find_id (λ d. d.id) i w.db.rune_deposits

pub record IsOnce (w : World) : Type 0 where
  pub once : (i : ℕ) → submissions i w.effects ≤ allowance (deposit_at i w)

-- The state of the `try` of `send_rune_deposit_to_evm`: nothing was submitted yet.
record IsReady (i : ℕ) (w : World) : Type 0 where
  safe : IsOnce w
  fresh : submissions i w.effects ≡ 0
  sending : allowance (deposit_at i w) ≡ 1

abbrev Started : ℕ → Option AcceptTransfer → World → Type 0
Started i none w = IsOnce w
Started i (some t) w = IsReady i w

-- A new status that allows one submission keeps the invariant.
pub update_deposit-IsOnce :
    (i : ℕ) (f : RuneDeposit → RuneDeposit) (w : World)
    → ((d : RuneDeposit) → (f d).id ≡ d.id)
    → ((d : RuneDeposit) → status_allowance d.status ≤ status_allowance (f d).status)
    → IsOnce w
    → IsOnce (update_deposit i f w).1
update_deposit-IsOnce i f w same more h = record {
  once = λ j. grind (
    arith,
    h.once j,
    find_id-update_id (λ (d : RuneDeposit). d.id) i j f same w.db.rune_deposits,
    more,
  );
}

-- The state after the first transaction of `send_rune_deposit_to_evm`.
marked-IsReady :
    (i : ℕ) (d : RuneDeposit) (w : World)
    → IsOnce w
    → deposit_at i w ≡ some d
    → is_accepted d.status ≡ true
    → IsReady i (update_deposit i (λ d. record d { status = RuneDepositStatus.sending_to_evm }) w).1
marked-IsReady i d w h at status =
    let f : RuneDeposit → RuneDeposit =
      λ d. record d { status = RuneDepositStatus.sending_to_evm } in
    let found =
      find_id-update_id (λ (d : RuneDeposit). d.id) i i f (λ d. refl) w.db.rune_deposits in
    record {
      safe = update_deposit-IsOnce i f w (λ d. refl) (λ d. ground arith) h;
      fresh = ground (arith, h.once i);
      sending = ground (arith, found, beq_refl i);
    }

start_sending-Started :
    (bridge_id i : ℕ) (ext : External) (n : ℕ) (w : World)
    → IsOnce w
    → Post (Started i) IsOnce (start_sending bridge_id i ext n w)
unfolding transaction
start_sending-Started b i ext n w h = elim (Option-cases (deposit_at i w)) [
  | inl e ↦ ground arith
  | inr (d, e) ↦ ground (arith, marked-IsReady i d w h e)
]

-- A message changes no count.
notified-IsOnce : (n : Notice) (w : World) → IsOnce w → IsOnce (emit (notified n) w).1
notified-IsOnce n w h = record { once = λ j. h.once j }

status_allowance_le : (s : RuneDepositStatus) → status_allowance s ≤ 1
status_allowance_le RuneDepositStatus.detected = omega arith
status_allowance_le _ = omega arith

-- An update that leaves the deposit in a status which allows one submission.
spent-IsOnce :
    (i : ℕ) (f : RuneDeposit → RuneDeposit) (w : World)
    → ((d : RuneDeposit) → (f d).id ≡ d.id)
    → ((d : RuneDeposit) → status_allowance (f d).status ≡ 1)
    → IsOnce w
    → IsOnce (update_deposit i f w).1
spent-IsOnce i f w same one_left h =
    update_deposit-IsOnce i f w same (λ d. omega (arith, one_left d, status_allowance_le d.status))
      h

pub allowance_le : (o : Option RuneDeposit) → allowance o ≤ 1
allowance_le none = omega arith
allowance_le (some d) = status_allowance_le d.status

abbrev IsSpentStatus : Option RuneDepositStatus → Type 0
IsSpentStatus none = Unit
IsSpentStatus (some s) = status_allowance s ≡ 1

module _ (bridge_id i : ℕ) (ext : External) where
  updated_status-IsOnce :
      (receipt : Option Bool) (w : World)
      → IsOnce w
      → Post (λ o t. IsOnce t × IsSpentStatus o) IsOnce (updated_status bridge_id i ext receipt w)
  updated_status-IsOnce none w h = (h, tt)
  updated_status-IsOnce (some true) w h =
      ground (arith, notified-IsOnce Notice.rune_to_evm_confirmed w h)
  updated_status-IsOnce (some false) w h =
      ground (arith, notified-IsOnce Notice.rune_to_evm_failed w h)

  write_updated_status-IsOnce :
      (o : Option RuneDepositStatus) (w : World)
      → IsOnce w
      → IsSpentStatus o
      → Post (λ _ t. IsOnce t) IsOnce (write_updated_status bridge_id i ext o w)
  unfolding transaction
  write_updated_status-IsOnce none w h s = h
  write_updated_status-IsOnce (some status) w h s =
      ground (arith, spent-IsOnce i (λ d. record d { status = status }) w (λ d. refl) (λ d. s) h)

  apply_receipt-IsOnce :
      (receipt : Option Bool) → Keeps IsOnce (apply_receipt bridge_id i ext receipt)
  apply_receipt-IsOnce receipt w h =
      Post-bind (λ o t. IsOnce t × IsSpentStatus o) (λ _ t. IsOnce t) IsOnce
        (updated_status bridge_id i ext receipt w) (write_updated_status bridge_id i ext)
        (updated_status-IsOnce receipt w h) (λ o t k. write_updated_status-IsOnce o t k.0 k.1)

  answered-IsOnce :
      (r : Result (Option Bool)) (w : World)
      → IsOnce w
      → Post (λ _ t. IsOnce t) IsOnce (continue (r, w) (apply_receipt bridge_id i ext))
  answered-IsOnce (ok receipt) w h = apply_receipt-IsOnce receipt w h
  answered-IsOnce (err e) w h = h

  -- The methods that confirm a deposit keep the invariant.
  pub confirm_sent_rune_deposit-IsOnce : Keeps IsOnce (confirm_sent_rune_deposit bridge_id i ext)
  unfolding confirm_sent_rune_deposit transaction
  confirm_sent_rune_deposit-IsOnce w h = grind (arith, answered-IsOnce)

  -- A submission uses up what the status allows.
  submitted-IsOnce :
      (t : AcceptTransfer) (w : World) → IsReady i w → IsOnce (emit (submitted i t) w).1
  submitted-IsOnce t w h = record {
    once = λ j. ground (arith, h.safe.once j, h.fresh, h.sending, (nat_eq.same_iff i j).0);
  }

  submit-IsOnce :
      (t : AcceptTransfer) (w : World)
      → IsReady i w
      → Post (λ _ u. IsOnce u) IsOnce (submit bridge_id i ext t w)
  submit-IsOnce t w h = ground (
    arith,
    submitted-IsOnce t w h,
    notified-IsOnce Notice.rune_to_evm_sent (emit (submitted i t) w).1,
    h.safe,
  )

  store_outcome-IsOnce :
      (f : RuneDeposit → RuneDeposit)
      → ((d : RuneDeposit) → (f d).id ≡ d.id)
      → ((d : RuneDeposit) → status_allowance (f d).status ≡ 1)
      → Keeps IsOnce (store_outcome bridge_id i ext f)
  unfolding transaction
  store_outcome-IsOnce f same one_left w h = ground (arith, spent-IsOnce i f w same one_left h)

  sending_failed-IsOnce : (e : Error) → Keeps IsOnce (sending_failed bridge_id i ext e)
  sending_failed-IsOnce e w h =
      let f : RuneDeposit → RuneDeposit =
        λ d. record d { status = RuneDepositStatus.sending_to_evm_failed } in
      Post-bind (λ _ t. IsOnce t) (λ _ t. IsOnce t) IsOnce (store_outcome bridge_id i ext f w) _
        (store_outcome-IsOnce f (λ d. refl) (λ d. refl) w h)
        λ _ t k. ground (arith, notified-IsOnce Notice.rune_to_evm_sending_failed t k)

  sending_done-IsOnce : (tx_hash : String) → Keeps IsOnce (sending_done bridge_id i ext tx_hash)
  sending_done-IsOnce tx_hash = store_outcome-IsOnce _ (λ d. refl) (λ d. refl)

  tried-IsOnce :
      (out : Result String × World)
      → Post (λ _ t. IsOnce t) IsOnce out
      → Post
          (λ _ t. IsOnce t)
          IsOnce
          (after_try out (sending_failed bridge_id i ext) (sending_done bridge_id i ext))
  tried-IsOnce (ok tx_hash, w) h = sending_done-IsOnce tx_hash w h
  tried-IsOnce (err e, w) h = sending_failed-IsOnce e w h

  checked-IsOnce :
      (t : AcceptTransfer) (w : World)
      → IsReady i w
      → Post (λ _ u. IsOnce u) IsOnce (send_checked bridge_id i ext t w)
  checked-IsOnce t w h =
      Post-bind (λ _ t. IsOnce t) (λ _ t. IsOnce t) IsOnce _
        (λ _. confirm_sent_rune_deposit bridge_id i ext)
        (tried-IsOnce (submit bridge_id i ext t w) (submit-IsOnce t w h))
        (λ _ u k. confirm_sent_rune_deposit-IsOnce u k)

  send_started-IsOnce :
      (o : Option AcceptTransfer) (w : World)
      → Started i o w
      → Post (λ _ u. IsOnce u) IsOnce (send_started bridge_id i ext o w)
  send_started-IsOnce none w h = h
  send_started-IsOnce (some t) w h = ground (arith, checked-IsOnce t w h, h.safe)

  started-IsOnce :
      (r : Result ℕ) (w : World)
      → IsOnce w
      → Post (λ _ u. IsOnce u) IsOnce (continue (r, w) (start_and_send bridge_id i ext))
  started-IsOnce (err e) w h = h
  started-IsOnce (ok n) w h =
      Post-bind (Started i) (λ _ t. IsOnce t) IsOnce (start_sending bridge_id i ext n w)
        (send_started bridge_id i ext) (start_sending-Started bridge_id i ext n w h)
        (λ o u k. send_started-IsOnce o u k)

  unfrozen-IsOnce : (frozen : Bool) → Keeps IsOnce (unless_frozen bridge_id i ext frozen)
  unfrozen-IsOnce true w h = h
  unfrozen-IsOnce false w h = started-IsOnce ext.num_required_federators w h

  asked-IsOnce :
      (r : Result Bool) (w : World)
      → IsOnce w
      → Post (λ _ u. IsOnce u) IsOnce (continue (r, w) (unless_frozen bridge_id i ext))
  asked-IsOnce (ok frozen) w h = unfrozen-IsOnce frozen w h
  asked-IsOnce (err e) w h = h

  -- Whatever the other programs answer, a call of `send_rune_deposit_to_evm` keeps every deposit
  -- within the one submission that its status allows, also where the call raises.
  pub send_rune_deposit_to_evm-IsOnce : Keeps IsOnce (send_rune_deposit_to_evm bridge_id i ext)
  unfolding send_rune_deposit_to_evm
  send_rune_deposit_to_evm-IsOnce w h = asked-IsOnce ext.frozen w h
