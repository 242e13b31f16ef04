-- ===== src/Runes/ToEvm/Leaves.antt =====
-- Sending and confirming a rune deposit leaves the rune token deposits and their broadcasts alone.
use nbte_bridge.Prelude.{
  ℕ, ◌*◌, ◌-◌, refl, Bool, true, false, not, Option, some, none, length, take, ltb, leb, ◌==◌,
  nat_eq,
}
use nbte_bridge.Result.{Error, Result, ok, err, runtime, assertion, validation, or_raise, raise_if}
use nbte_bridge.Proc.Hoare.{Post, Keeps}
use nbte_bridge.Runes.Models.{
  User, Rune, RuneDeposit, RuneDepositStatus, is_accepted, is_sent_to_evm,
}
use nbte_bridge.Runes.External.{External, AcceptTransfer, Notice}
use nbte_bridge.Runes.World.{World, Service, submitted}
use nbte_bridge.Runes.Quiet.{IsSafe}
use nbte_bridge.Runes.ToEvm.Once.{
  IsOnce, send_rune_deposit_to_evm-IsOnce, confirm_sent_rune_deposit-IsOnce,
}
use nbte_bridge.Runes.Frame.{
  IsSame, KeepsSame, bind-KeepsSame, lift-KeepsSame, asks-KeepsSame, pure-KeepsSame,
  raise-KeepsSame, change-KeepsSame, emit-KeepsSame, notify-KeepsSame, transaction-KeepsSame,
  try-KeepsSame, if-KeepsSame,
}
use nbte_bridge.Runes.ToBtc.Once.{broadcasts}
use nbte_bridge.Runes.ToEvm.{
  deposit_user, deposit_rune, update_deposit, get_deposit, get_own_deposit, updated_status,
  write_updated_status, confirm_sent_rune_deposit, start_sending, check_account, submit,
  store_outcome, sending_failed, sending_done, send_started, send_rune_deposit_to_evm,
}

-- A method that leaves the rune token deposits alone.
abbrev pub LeavesTokens : World → {A : Type 0} → Service A → Type 0
LeavesTokens start m = KeepsSame (λ db. db.token_deposits) broadcasts (λ j n es. refl) start m

module _ (bridge_id i : ℕ) (ext : External) {start : World} where
  update_deposit-LeavesTokens :
      (f : RuneDeposit → RuneDeposit) → LeavesTokens start (update_deposit i f)
  update_deposit-LeavesTokens f = change-KeepsSame _ (λ db. refl)

  get_deposit-LeavesTokens : LeavesTokens start (get_deposit bridge_id i ext)
  get_deposit-LeavesTokens = asks-KeepsSame _

  get_own_deposit-LeavesTokens : LeavesTokens start (get_own_deposit bridge_id i ext)
  get_own_deposit-LeavesTokens = bind-KeepsSame get_deposit-LeavesTokens λ d.
      bind-KeepsSame (lift-KeepsSame (raise_if (not (d.bridge_id == bridge_id)) assertion))
        λ _. pure-KeepsSame d

  updated_status-LeavesTokens :
      (receipt : Option Bool) → LeavesTokens start (updated_status bridge_id i ext receipt)
  updated_status-LeavesTokens none = pure-KeepsSame none
  updated_status-LeavesTokens (some true) =
      bind-KeepsSame (notify-KeepsSame ext Notice.rune_to_evm_confirmed)
        λ _. pure-KeepsSame (some RuneDepositStatus.confirmed_in_evm)
  updated_status-LeavesTokens (some false) =
      bind-KeepsSame (notify-KeepsSame ext Notice.rune_to_evm_failed)
        λ _. pure-KeepsSame (some RuneDepositStatus.evm_transaction_failed)

  write_updated_status-LeavesTokens :
      (o : Option RuneDepositStatus) → LeavesTokens start (write_updated_status bridge_id i ext o)
  write_updated_status-LeavesTokens none = pure-KeepsSame tt
  write_updated_status-LeavesTokens (some s) = transaction-KeepsSame _ (
      bind-KeepsSame get_deposit-LeavesTokens λ d.
        bind-KeepsSame (lift-KeepsSame (raise_if (not (is_sent_to_evm d.status)) assertion))
          λ _. update_deposit-LeavesTokens (λ d. record d { status = s }))

  confirm_sent_rune_deposit-LeavesTokens :
      LeavesTokens start (confirm_sent_rune_deposit bridge_id i ext)
  unfolding confirm_sent_rune_deposit
  confirm_sent_rune_deposit-LeavesTokens =
      bind-KeepsSame (transaction-KeepsSame _ get_own_deposit-LeavesTokens) λ d.
        if-KeepsSame (not (is_sent_to_evm d.status)) _ _ (pure-KeepsSame tt) (
          bind-KeepsSame (lift-KeepsSame (or_raise d.evm_tx_hash Error.external)) λ h.
            bind-KeepsSame (lift-KeepsSame (ext.transaction_receipt h)) λ receipt.
              bind-KeepsSame (updated_status-LeavesTokens receipt)
                write_updated_status-LeavesTokens)

  deposit_user-LeavesTokens : (d : RuneDeposit) → LeavesTokens start (deposit_user d)
  deposit_user-LeavesTokens d = asks-KeepsSame _

  deposit_rune-LeavesTokens : (d : RuneDeposit) → LeavesTokens start (deposit_rune d)
  deposit_rune-LeavesTokens d = asks-KeepsSame _

  start_sending-LeavesTokens : (n : ℕ) → LeavesTokens start (start_sending bridge_id i ext n)
  start_sending-LeavesTokens n = transaction-KeepsSame _ (
      bind-KeepsSame (asks-KeepsSame _) λ (d : RuneDeposit).
        bind-KeepsSame (lift-KeepsSame (raise_if (not (is_accepted d.status)) validation)) λ _.
          if-KeepsSame (ltb (length d.accept_transfer_signatures) n) _ _ (pure-KeepsSame none) (
            bind-KeepsSame
              (update_deposit-LeavesTokens
                (λ d. record d { status = RuneDepositStatus.sending_to_evm }))
              λ _. bind-KeepsSame (deposit_user-LeavesTokens d) λ (user : User).
                bind-KeepsSame (deposit_rune-LeavesTokens d) λ (rune : Rune). pure-KeepsSame (
                  some (record {
                    evm_address = user.evm_address;
                    rune_number = d.rune_number;
                    net_rune_amount = d.net_amount_raw;
                    btc_txid = ext.add_0x_prefix d.tx_id;
                    btc_vout = d.vout;
                    signatures = take n d.accept_transfer_signatures;
                  }))))

  check_account-LeavesTokens : LeavesTokens start (check_account bridge_id i ext)
  check_account-LeavesTokens = bind-KeepsSame (lift-KeepsSame ext.gas_price) λ g.
      bind-KeepsSame (lift-KeepsSame ext.balance_wei) λ b.
        bind-KeepsSame (lift-KeepsSame (raise_if (ltb b (300000 * g)) runtime)) λ _.
          bind-KeepsSame (lift-KeepsSame ext.pending_nonce) λ n.
            bind-KeepsSame (lift-KeepsSame ext.latest_nonce)
              λ l. lift-KeepsSame (raise_if (leb 4 (n - l)) runtime)

  submit-LeavesTokens : (t : AcceptTransfer) → LeavesTokens start (submit bridge_id i ext t)
  submit-LeavesTokens t = bind-KeepsSame (lift-KeepsSame (ext.accept_transfer_from_btc t)) λ h.
      bind-KeepsSame (emit-KeepsSame (submitted i t) (λ j es. refl))
        λ _. bind-KeepsSame (notify-KeepsSame ext Notice.rune_to_evm_sent) λ _. pure-KeepsSame h

  store_outcome-LeavesTokens :
      (f : RuneDeposit → RuneDeposit) → LeavesTokens start (store_outcome bridge_id i ext f)
  store_outcome-LeavesTokens f =
      transaction-KeepsSame _
        (bind-KeepsSame get_own_deposit-LeavesTokens λ _. update_deposit-LeavesTokens f)

  sending_failed-LeavesTokens : (e : Error) → LeavesTokens start (sending_failed bridge_id i ext e)
  sending_failed-LeavesTokens e = bind-KeepsSame (store_outcome-LeavesTokens _) λ _.
      bind-KeepsSame (notify-KeepsSame ext Notice.rune_to_evm_sending_failed) λ _. raise-KeepsSame e

  send_started-LeavesTokens :
      (o : Option AcceptTransfer) → LeavesTokens start (send_started bridge_id i ext o)
  send_started-LeavesTokens none = pure-KeepsSame tt
  send_started-LeavesTokens (some t) = bind-KeepsSame check_account-LeavesTokens λ _.
      bind-KeepsSame
        (try-KeepsSame (submit bridge_id i ext t) (sending_failed bridge_id i ext)
          (sending_done bridge_id i ext) (submit-LeavesTokens t) sending_failed-LeavesTokens
          (λ h. store_outcome-LeavesTokens _))
        λ _. confirm_sent_rune_deposit-LeavesTokens

  send_rune_deposit_to_evm-LeavesTokens :
      LeavesTokens start (send_rune_deposit_to_evm bridge_id i ext)
  unfolding send_rune_deposit_to_evm
  send_rune_deposit_to_evm-LeavesTokens = bind-KeepsSame (lift-KeepsSame ext.frozen) λ frozen.
      if-KeepsSame frozen _ _ (pure-KeepsSame tt) (
        bind-KeepsSame (lift-KeepsSame ext.num_required_federators)
          λ n. bind-KeepsSame (start_sending-LeavesTokens n) send_started-LeavesTokens)

-- Both directions stay safe.
pub LeavesTokens-IsSafe :
    {A : Type 0} (m : Service A) (w : World)
    → LeavesTokens w m
    → Post (λ _ t. IsOnce t) IsOnce (m w)
    → IsSafe w
    → Post (λ _ t. IsSafe t) IsSafe (m w)
LeavesTokens-IsSafe {A} m w leaves once h =
    go (m w) (leaves.keeps w (record { same_rows = refl; same_count = λ j. refl })) once
  where
    carry :
        (t : World)
        → IsSame (λ db. db.token_deposits) broadcasts (λ j n es. refl) w t
        → IsOnce t
        → IsSafe t
    carry t same o = record {
      to_evm = o;
      to_btc = record { paid = λ i. rw (same.same_count i, same.same_rows) (h.to_btc.paid i) };
    }

    go :
        (out : Result A × World)
        → Post
            (λ _ t. IsSame (λ db. db.token_deposits) broadcasts (λ j n es. refl) w t)
            (IsSame (λ db. db.token_deposits) broadcasts (λ j n es. refl) w)
            out
        → Post (λ _ t. IsOnce t) IsOnce out
        → Post (λ _ t. IsSafe t) IsSafe out
    go (ok a, t) same o = carry t same o
    go (err e, t) same o = carry t same o

module _ (bridge_id i : ℕ) (ext : External) where
  pub send_rune_deposit_to_evm-IsSafe : Keeps IsSafe (send_rune_deposit_to_evm bridge_id i ext)
  send_rune_deposit_to_evm-IsSafe w h =
      LeavesTokens-IsSafe _ w (send_rune_deposit_to_evm-LeavesTokens bridge_id i ext)
        (send_rune_deposit_to_evm-IsOnce bridge_id i ext w h.to_evm) h

  pub confirm_sent_rune_deposit-IsSafe : Keeps IsSafe (confirm_sent_rune_deposit bridge_id i ext)
  confirm_sent_rune_deposit-IsSafe w h =
      LeavesTokens-IsSafe _ w (confirm_sent_rune_deposit-LeavesTokens bridge_id i ext)
        (confirm_sent_rune_deposit-IsOnce bridge_id i ext w h.to_evm) h
