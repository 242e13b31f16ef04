-- ===== src/Runes/ToBtc/Once.antt =====
-- No rune token deposit is paid twice. The status of a rune token deposit says how many of its
-- transactions can have been broadcast, and `handle_accepted_rune_token_deposit` keeps to that,
-- whatever the other programs answer and wherever it raises.
use nbte_bridge.Prelude.{
  ℕ, suc, String, ◌≤◌, ◌≡◌, refl, true, Option, none, some, List, [], ◌∷◌, ltb, length, ◌==◌,
  nat_eq, Option-cases, inl, inr, beq_refl, arith, if◌then◌else◌,
}
use nbte_bridge.Result.{Error, Result, ok, err}
use nbte_bridge.Proc.Hoare.{Post, Post-bind, Post-lift, Post-if, Keeps}
use nbte_bridge.Ord.Multisig.Types.{Psbt}
use nbte_bridge.Runes.Models.{RuneTokenDeposit, RuneTokenDepositStatus, is_token_accepted}
use nbte_bridge.Runes.External.{External, RuneBridgeServiceConfig, Notice}
use nbte_bridge.Runes.Messages.{
  SignRuneTokenToBtcTransferQuestion, SignRuneTokenToBtcTransferAnswer,
}
use nbte_bridge.Runes.World.{
  World, Effect, submitted, broadcast, notified, transaction, emit, after_try,
}
use nbte_bridge.Rows.{find_id, find_id-update_id}
use nbte_bridge.Runes.ToBtc.Signer.{Signer, combine_and_finalize_psbt}
use nbte_bridge.Runes.ToBtc.Answer.{answer_sign_rune_token_to_btc_transfer_question}
use nbte_bridge.Runes.ToBtc.Question.{build_question, collect_signed}
use nbte_bridge.Runes.ToBtc.Handle.{
  update_token_deposit, read_transfer, start_broadcast, send_psbt, broadcast_failed, broadcast_done,
  broadcast_finalized, finish_transfer, sign_and_finish, handle_accepted_rune_token_deposit,
}

-- How many transactions were broadcast for a rune token deposit.
abbrev pub broadcasts : ℕ → List Effect → ℕ
broadcasts i [] = 0
broadcasts i (broadcast j t ∷ es) = if j == i then suc (broadcasts i es) else broadcasts i es
broadcasts i (submitted j t ∷ es) = broadcasts i es
broadcasts i (notified n ∷ es) = broadcasts i es

abbrev pub token_status_allowance : RuneTokenDepositStatus → ℕ
token_status_allowance RuneTokenDepositStatus.detected = 0
token_status_allowance RuneTokenDepositStatus.accepted = 0
token_status_allowance RuneTokenDepositStatus.rejected = 0
token_status_allowance _ = 1

abbrev pub token_allowance : Option RuneTokenDeposit → ℕ
token_allowance none = 0
token_allowance (some d) = token_status_allowance d.status

abbrev pub token_deposit_at : ℕ → World → Option RuneTokenDeposit
token_deposit_at i w = find_id (λ d. d.id) i w.db.token_deposits

pub record IsPaidOnce (w : World) : Type 0 where
  pub paid : (i : ℕ) → broadcasts i w.effects ≤ token_allowance (token_deposit_at i w)

-- The state of the `try` of the broadcast: nothing was broadcast yet.
record IsPaymentReady (i : ℕ) (w : World) : Type 0 where
  safe : IsPaidOnce w
  fresh : broadcasts i w.effects ≡ 0
  sending : token_allowance (token_deposit_at i w) ≡ 1

update_token_deposit-IsPaidOnce :
    (i : ℕ) (f : RuneTokenDeposit → RuneTokenDeposit) (w : World)
    → ((d : RuneTokenDeposit) → (f d).id ≡ d.id)
    → ((d : RuneTokenDeposit)
        → token_status_allowance d.status ≤ token_status_allowance (f d).status)
    → IsPaidOnce w
    → IsPaidOnce (update_token_deposit i f w).1
update_token_deposit-IsPaidOnce i f w same more h = record {
  paid = λ j. grind (
    arith,
    h.paid j,
    find_id-update_id (λ (d : RuneTokenDeposit). d.id) i j f same w.db.token_deposits,
    more,
  );
}

token_status_allowance_le : (s : RuneTokenDepositStatus) → token_status_allowance s ≤ 1
token_status_allowance_le RuneTokenDepositStatus.detected = omega arith
token_status_allowance_le _ = omega arith

pub token_allowance_le : (o : Option RuneTokenDeposit) → token_allowance o ≤ 1
token_allowance_le none = omega arith
token_allowance_le (some d) = token_status_allowance_le d.status

-- An update that leaves the deposit in a status which allows one broadcast.
spent-IsPaidOnce :
    (i : ℕ) (f : RuneTokenDeposit → RuneTokenDeposit) (w : World)
    → ((d : RuneTokenDeposit) → (f d).id ≡ d.id)
    → ((d : RuneTokenDeposit) → token_status_allowance (f d).status ≡ 1)
    → IsPaidOnce w
    → IsPaidOnce (update_token_deposit i f w).1
spent-IsPaidOnce i f w same one_left h =
    update_token_deposit-IsPaidOnce i f w same
      (λ d. omega (arith, one_left d, token_status_allowance_le d.status)) h

-- The state after the transaction before the broadcast.
marked-IsPaymentReady :
    (i : ℕ) (d : RuneTokenDeposit) (f : RuneTokenDeposit → RuneTokenDeposit) (w : World)
    → ((d : RuneTokenDeposit) → (f d).id ≡ d.id)
    → ((d : RuneTokenDeposit) → token_status_allowance (f d).status ≡ 1)
    → IsPaidOnce w
    → token_deposit_at i w ≡ some d
    → is_token_accepted d.status ≡ true
    → IsPaymentReady i (update_token_deposit i f w).1
marked-IsPaymentReady i d f w same one_left h at status =
    let found = find_id-update_id (λ (d : RuneTokenDeposit). d.id) i i f same w.db.token_deposits in
    record {
      safe = spent-IsPaidOnce i f w same one_left h;
      fresh = ground (arith, h.paid i);
      sending = ground (arith, found, beq_refl i, one_left d);
    }

module _ (config : RuneBridgeServiceConfig) (bridge_id : ℕ) (ext : External) (signer : Signer)
    (ask_signatures : SignRuneTokenToBtcTransferQuestion
      → Result (List SignRuneTokenToBtcTransferAnswer))
    (i : ℕ) where
  start_broadcast-IsPaymentReady :
      (p : String) (w : World)
      → IsPaidOnce w
      → Post
          (λ _ t. IsPaymentReady i t)
          IsPaidOnce
          (start_broadcast config bridge_id ext signer ask_signatures i p w)
  unfolding transaction
  start_broadcast-IsPaymentReady p w h =
      let f : RuneTokenDeposit → RuneTokenDeposit =
        λ d. record d { status = RuneTokenDepositStatus.sending_to_btc; finalized_psbt = some p } in
      elim (Option-cases (token_deposit_at i w)) [
        | inl e ↦ ground arith
        | inr (d, e) ↦ ground (arith, marked-IsPaymentReady i d f w (λ d. refl) (λ d. refl) h e)
      ]

  broadcast-IsPaidOnce :
      (p : String) (w : World) → IsPaymentReady i w → IsPaidOnce (emit (broadcast i p) w).1
  broadcast-IsPaidOnce p w h = record {
    paid = λ j. ground (arith, h.safe.paid j, h.fresh, h.sending, (nat_eq.same_iff i j).0);
  }

  notified-IsPaidOnce : (n : Notice) (w : World) → IsPaidOnce w → IsPaidOnce (emit (notified n) w).1
  notified-IsPaidOnce n w h = record { paid = λ j. h.paid j }

  store-IsPaidOnce :
      (f : RuneTokenDeposit → RuneTokenDeposit) (w : World)
      → ((d : RuneTokenDeposit) → (f d).id ≡ d.id)
      → ((d : RuneTokenDeposit) → token_status_allowance (f d).status ≡ 1)
      → IsPaidOnce w
      → IsPaidOnce (update_token_deposit i f w).1
  store-IsPaidOnce f w same one_left h = spent-IsPaidOnce i f w same one_left h

  send_psbt-IsPaidOnce :
      (p : String) (w : World)
      → IsPaymentReady i w
      → Post
          (λ _ t. IsPaidOnce t)
          IsPaidOnce
          (send_psbt config bridge_id ext signer ask_signatures i p w)
  send_psbt-IsPaidOnce p w h = ground (arith, broadcast-IsPaidOnce p w h, h.safe)

  broadcast_failed-IsPaidOnce :
      (e : Error)
      → Keeps IsPaidOnce (broadcast_failed config bridge_id ext signer ask_signatures i e)
  unfolding transaction
  broadcast_failed-IsPaidOnce e w h =
      let f : RuneTokenDeposit → RuneTokenDeposit =
        λ d. record d { status = RuneTokenDepositStatus.sending_to_btc_failed } in
      let stored = store-IsPaidOnce f w (λ d. refl) (λ d. refl) h in
      ground (
        arith,
        notified-IsPaidOnce Notice.psbt_broadcast_failed w h,
        notified-IsPaidOnce Notice.psbt_broadcast_failed (update_token_deposit i f w).1 stored,
      )

  sent-IsPaidOnce :
      (txid : String) (w : World)
      → IsPaidOnce w
      → IsPaidOnce
          (update_token_deposit i
            (λ d. record d { status = RuneTokenDepositStatus.sent_to_btc; btc_tx_id = some txid })
            w).1
  sent-IsPaidOnce txid w h = store-IsPaidOnce _ w (λ d. refl) (λ d. refl) h

  broadcast_done-IsPaidOnce :
      (txid : String)
      → Keeps IsPaidOnce (broadcast_done config bridge_id ext signer ask_signatures i txid)
  unfolding transaction
  broadcast_done-IsPaidOnce txid w h =
      let noted = notified-IsPaidOnce Notice.psbt_broadcast w h in
      ground (arith, noted, sent-IsPaidOnce txid (emit (notified Notice.psbt_broadcast) w).1 noted)

  tried-IsPaidOnce :
      (out : Result String × World)
      → Post (λ _ t. IsPaidOnce t) IsPaidOnce out
      → Post
          (λ _ t. IsPaidOnce t)
          IsPaidOnce
          (after_try out
            (broadcast_failed config bridge_id ext signer ask_signatures i)
            (broadcast_done config bridge_id ext signer ask_signatures i))
  tried-IsPaidOnce (ok txid, w) h = broadcast_done-IsPaidOnce txid w h
  tried-IsPaidOnce (err e, w) h = broadcast_failed-IsPaidOnce e w h

  broadcast_finalized-IsPaidOnce :
      (p : String)
      → Keeps IsPaidOnce (broadcast_finalized config bridge_id ext signer ask_signatures i p)
  broadcast_finalized-IsPaidOnce p w h =
      Post-bind (λ _ t. IsPaymentReady i t) (λ _ t. IsPaidOnce t) IsPaidOnce
        (start_broadcast config bridge_id ext signer ask_signatures i p w) _
        (start_broadcast-IsPaymentReady p w h)
        (λ _ u k. tried-IsPaidOnce _ (send_psbt-IsPaidOnce p u k))

  finish_transfer-IsPaidOnce :
      (u : Psbt) (ps : List String)
      → Keeps IsPaidOnce (finish_transfer config bridge_id ext signer ask_signatures i u ps)
  finish_transfer-IsPaidOnce u ps w h =
      Post-if (λ _ t. IsPaidOnce t) IsPaidOnce (ltb (length ps) signer.wallet.num_required_signers)
        _ _ w (λ _. h)
        (λ _.
          Post-lift (λ _ t. IsPaidOnce t) IsPaidOnce (combine_and_finalize_psbt signer u ps) _ w h
            (λ p _. broadcast_finalized-IsPaidOnce p w h))

  sign_and_finish-IsPaidOnce :
      (q : Psbt × SignRuneTokenToBtcTransferQuestion)
      → Keeps IsPaidOnce (sign_and_finish config bridge_id ext signer ask_signatures i q)
  sign_and_finish-IsPaidOnce (u, m) w h =
      Post-lift (λ _ t. IsPaidOnce t) IsPaidOnce
        (answer_sign_rune_token_to_btc_transfer_question config bridge_id w.db signer m) _ w h
        (λ a _.
          Post-lift (λ _ t. IsPaidOnce t) IsPaidOnce (collect_signed signer ask_signatures a m) _ w
            h (λ ps _. finish_transfer-IsPaidOnce u ps w h))

  read_transfer-IsPaidOnce :
      Keeps IsPaidOnce (read_transfer config bridge_id ext signer ask_signatures i)
  unfolding transaction
  read_transfer-IsPaidOnce w h = ground arith

  -- Whatever the other programs and the other nodes answer, a call of
  -- `handle_accepted_rune_token_deposit` keeps every rune token deposit within the one broadcast
  -- that its status allows, also where the call raises.
  pub handle_accepted_rune_token_deposit-IsPaidOnce :
      Keeps IsPaidOnce
        (handle_accepted_rune_token_deposit config bridge_id ext signer ask_signatures i)
  unfolding handle_accepted_rune_token_deposit
  handle_accepted_rune_token_deposit-IsPaidOnce w h =
      Post-bind (λ _ t. IsPaidOnce t) (λ _ t. IsPaidOnce t) IsPaidOnce
        (read_transfer config bridge_id ext signer ask_signatures i w) _
        (read_transfer-IsPaidOnce w h)
        (λ transfer u k.
          Post-lift (λ _ t. IsPaidOnce t) IsPaidOnce (build_question config signer transfer) _ u k
            (λ q _. sign_and_finish-IsPaidOnce q u k))
