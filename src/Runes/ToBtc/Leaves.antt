-- ===== src/Runes/ToBtc/Leaves.antt =====
-- Handling a rune token deposit leaves the rune deposits and their submissions alone.
use nbte_bridge.Prelude.{ℕ, refl, String, not, List, keep, length, ltb, ◌==◌, nat_eq}
use nbte_bridge.Result.{Error, Result, ok, err, assertion, validation, raise_if, one}
use nbte_bridge.Proc.Hoare.{Post, Keeps}
use nbte_bridge.Ord.Multisig.Types.{Psbt}
use nbte_bridge.Runes.Models.{
  Rune, RuneTokenDeposit, RuneTokenDepositStatus, is_token_accepted, is_token_sending,
}
use nbte_bridge.Runes.External.{External, RuneBridgeServiceConfig, Notice}
use nbte_bridge.Runes.Messages.{
  SignRuneTokenToBtcTransferQuestion, SignRuneTokenToBtcTransferAnswer,
}
use nbte_bridge.Rows.{with_id}
use nbte_bridge.Runes.World.{World, Service, broadcast}
use nbte_bridge.Runes.Frame.{
  IsSame, KeepsSame, bind-KeepsSame, lift-KeepsSame, asks-KeepsSame, pure-KeepsSame,
  raise-KeepsSame, change-KeepsSame, emit-KeepsSame, notify-KeepsSame, transaction-KeepsSame,
  try-KeepsSame, if-KeepsSame,
}
use nbte_bridge.Runes.Quiet.{IsSafe}
use nbte_bridge.Runes.ToEvm.Once.{submissions}
use nbte_bridge.Runes.ToBtc.Once.{IsPaidOnce, handle_accepted_rune_token_deposit-IsPaidOnce}
use nbte_bridge.Runes.ToBtc.Signer.{Signer, combine_and_finalize_psbt, broadcast_psbt}
use nbte_bridge.Runes.ToBtc.Answer.{
  answer_sign_rune_token_to_btc_transfer_question, token_deposit_rune,
}
use nbte_bridge.Runes.ToBtc.Question.{build_question, collect_signed}
use nbte_bridge.Runes.ToBtc.Handle.{
  update_token_deposit, read_transfer, get_token_deposit, start_broadcast, send_psbt,
  broadcast_failed, broadcast_done, finish_transfer, sign_and_finish,
  handle_accepted_rune_token_deposit,
}

-- A method that leaves the rune deposits alone.
abbrev LeavesDeposits : World → {A : Type 0} → Service A → Type 0
LeavesDeposits start m = KeepsSame (λ db. db.rune_deposits) submissions (λ j n es. refl) start m

module _ (config : RuneBridgeServiceConfig) (bridge_id : ℕ) (ext : External) (signer : Signer)
    (ask_signatures : SignRuneTokenToBtcTransferQuestion
      → Result (List SignRuneTokenToBtcTransferAnswer))
    (i : ℕ) where
  module _ {start : World} where
    update_token_deposit-LeavesDeposits :
        (f : RuneTokenDeposit → RuneTokenDeposit) → LeavesDeposits start (update_token_deposit i f)
    update_token_deposit-LeavesDeposits f = change-KeepsSame _ (λ db. refl)

    get_token_deposit-LeavesDeposits :
        LeavesDeposits start (get_token_deposit config bridge_id ext signer ask_signatures i)
    get_token_deposit-LeavesDeposits = asks-KeepsSame _

    start_broadcast-LeavesDeposits :
        (p : String)
        → LeavesDeposits start (start_broadcast config bridge_id ext signer ask_signatures i p)
    start_broadcast-LeavesDeposits p = transaction-KeepsSame _ (
        bind-KeepsSame get_token_deposit-LeavesDeposits λ d.
          bind-KeepsSame (lift-KeepsSame (raise_if (not (is_token_accepted d.status)) assertion))
            λ _. update_token_deposit-LeavesDeposits _)

    send_psbt-LeavesDeposits :
        (p : String)
        → LeavesDeposits start (send_psbt config bridge_id ext signer ask_signatures i p)
    send_psbt-LeavesDeposits p = bind-KeepsSame (lift-KeepsSame (broadcast_psbt signer p)) λ txid.
        bind-KeepsSame (emit-KeepsSame (broadcast i p) (λ j es. refl)) λ _. pure-KeepsSame txid

    broadcast_failed-LeavesDeposits :
        (e : Error)
        → LeavesDeposits start (broadcast_failed config bridge_id ext signer ask_signatures i e)
    broadcast_failed-LeavesDeposits e =
        bind-KeepsSame
          (transaction-KeepsSame _ (
            bind-KeepsSame get_token_deposit-LeavesDeposits λ d.
              bind-KeepsSame
                (update_token_deposit-LeavesDeposits
                  (λ d. record d { status = RuneTokenDepositStatus.sending_to_btc_failed }))
                λ _. notify-KeepsSame ext Notice.psbt_broadcast_failed))
          λ _. raise-KeepsSame e

    broadcast_done-LeavesDeposits :
        (txid : String)
        → LeavesDeposits start (broadcast_done config bridge_id ext signer ask_signatures i txid)
    broadcast_done-LeavesDeposits txid =
        bind-KeepsSame (notify-KeepsSame ext Notice.psbt_broadcast) λ _. transaction-KeepsSame _ (
          bind-KeepsSame get_token_deposit-LeavesDeposits λ d.
            bind-KeepsSame (lift-KeepsSame (raise_if (not (is_token_sending d.status)) assertion))
              λ _. update_token_deposit-LeavesDeposits _)

    finish_transfer-LeavesDeposits :
        (u : Psbt) (ps : List String)
        → LeavesDeposits start (finish_transfer config bridge_id ext signer ask_signatures i u ps)
    finish_transfer-LeavesDeposits u ps =
        if-KeepsSame (ltb (length ps) signer.wallet.num_required_signers) _ _ (pure-KeepsSame tt) (
          bind-KeepsSame (lift-KeepsSame (combine_and_finalize_psbt signer u ps)) λ p.
            bind-KeepsSame (start_broadcast-LeavesDeposits p) λ _.
              try-KeepsSame (send_psbt config bridge_id ext signer ask_signatures i p)
                (broadcast_failed config bridge_id ext signer ask_signatures i)
                (broadcast_done config bridge_id ext signer ask_signatures i)
                (send_psbt-LeavesDeposits p) broadcast_failed-LeavesDeposits
                broadcast_done-LeavesDeposits)

    sign_and_finish-LeavesDeposits :
        (q : Psbt × SignRuneTokenToBtcTransferQuestion)
        → LeavesDeposits start (sign_and_finish config bridge_id ext signer ask_signatures i q)
    sign_and_finish-LeavesDeposits (u, m) =
        bind-KeepsSame
          (asks-KeepsSame
            λ w. answer_sign_rune_token_to_btc_transfer_question config bridge_id w.db signer m)
          λ a.
            bind-KeepsSame (lift-KeepsSame (collect_signed signer ask_signatures a m))
              λ ps. finish_transfer-LeavesDeposits u ps

    read_transfer-LeavesDeposits :
        LeavesDeposits start (read_transfer config bridge_id ext signer ask_signatures i)
    read_transfer-LeavesDeposits = transaction-KeepsSame _ (
        bind-KeepsSame
          (asks-KeepsSame λ w. one (
            keep (λ d. d.bridge_id == bridge_id)
              (with_id (λ (d : RuneTokenDeposit). d.id) i w.db.token_deposits)))
          λ (d : RuneTokenDeposit).
            bind-KeepsSame (lift-KeepsSame (raise_if (not (is_token_accepted d.status)) validation))
              λ _.
                bind-KeepsSame (lift-KeepsSame (raise_if (d.net_rune_amount_raw == 0) validation))
                  λ _. bind-KeepsSame (asks-KeepsSame λ w. token_deposit_rune w.db d) λ (r : Rune).
                    pure-KeepsSame (record {
                      receiver_address = d.receiver_btc_address;
                      rune_number = r.n;
                      rune_name = r.name;
                      token_address = d.token_address;
                      net_rune_amount = d.net_rune_amount_raw;
                      event_tx_hash = d.evm_tx_hash;
                      event_log_index = d.evm_log_index;
                    }))

    handle_accepted_rune_token_deposit-LeavesDeposits :
        LeavesDeposits start
          (handle_accepted_rune_token_deposit config bridge_id ext signer ask_signatures i)
    unfolding handle_accepted_rune_token_deposit
    handle_accepted_rune_token_deposit-LeavesDeposits =
        bind-KeepsSame read_transfer-LeavesDeposits λ t.
          bind-KeepsSame (lift-KeepsSame (build_question config signer t))
            sign_and_finish-LeavesDeposits

  pub handle_accepted_rune_token_deposit-IsSafe :
      Keeps IsSafe (handle_accepted_rune_token_deposit config bridge_id ext signer ask_signatures i)
  handle_accepted_rune_token_deposit-IsSafe w h =
      go _
        (handle_accepted_rune_token_deposit-LeavesDeposits.keeps w
          (record { same_rows = refl; same_count = λ j. refl }))
        (handle_accepted_rune_token_deposit-IsPaidOnce config bridge_id ext signer ask_signatures i
          w h.to_btc)
    where
      carry :
          (t : World)
          → IsSame (λ db. db.rune_deposits) submissions (λ j n es. refl) w t
          → IsPaidOnce t
          → IsSafe t
      carry t same o = record {
        to_btc = o;
        to_evm = record { once = λ j. rw (same.same_count j, same.same_rows) (h.to_evm.once j) };
      }

      go :
          (out : Result (Unit {0}) × World)
          → Post
              (λ _ t. IsSame (λ db. db.rune_deposits) submissions (λ j n es. refl) w t)
              (IsSame (λ db. db.rune_deposits) submissions (λ j n es. refl) w)
              out
          → Post (λ _ t. IsPaidOnce t) IsPaidOnce out
          → Post (λ _ t. IsSafe t) IsSafe out
      go (ok a, t) same o = carry t same o
      go (err e, t) same o = carry t same o
