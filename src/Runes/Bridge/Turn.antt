-- ===== src/Runes/Bridge/Turn.antt =====
-- A turn of the leader's loop over the rune deposits keeps the bounds on what is sent.
use nbte_bridge.Prelude.{
  ℕ, String, Bool, true, false, not, Option, some, none, List, ◌∷◌, refl, arith, leb, length,
  nat_eq, if◌then◌else◌,
}
use nbte_bridge.Result.{Result, ok, err, validation, raise_if}
use nbte_bridge.Proc.{pure}
use nbte_bridge.Proc.Hoare.{Post, Post-bind, Post-lift, Keeps}
use nbte_bridge.Decimals.{of_int, div_ten_pow}
use nbte_bridge.Runes.Models.{RuneDeposit, is_accepted}
use nbte_bridge.Runes.External.{RuneBridgeServiceConfig}
use nbte_bridge.Runes.Messages.{SignRuneToEvmTransferAnswer}
use nbte_bridge.Runes.Signing.{
  answer_sign_rune_to_evm_transfer_question, prune_invalid_sign_rune_to_evm_transfer_answers,
}
use nbte_bridge.Runes.World.{World, Service, after_try}
use nbte_bridge.Runes.Quiet.{
  IsSafe, KeepsQuiet, transaction-IsSafe, bind-IsQuiet, lift-IsQuiet, asks-IsQuiet, pure-IsQuiet,
}
use nbte_bridge.Runes.ToEvm.{
  deposit_user, deposit_rune, update_deposit, with_answers, query_deposit,
  get_sign_rune_to_evm_transfer_question, update_rune_deposit_signatures, deposit_to_validate,
  validate_rune, validate_rune_deposit_for_sending,
}
use nbte_bridge.Runes.ToEvm.Once.{update_deposit-IsOnce}
use nbte_bridge.Runes.ToEvm.Leaves.{send_rune_deposit_to_evm-IsSafe}
use nbte_bridge.Runes.Bridge.{
  Answers, caught, send_if_ready, collect_signatures, handle_rune_transfer,
}

-- A caught exception keeps what the method kept.
pub caught-IsSafe : (m : Service (Unit {0})) → Keeps IsSafe m → Keeps IsSafe (caught m)
caught-IsSafe m h w q = go (m w) (h w q)
  where
    go :
        (out : Result (Unit {0}) × World)
        → Post (λ _ t. IsSafe t) IsSafe out
        → Post (λ _ t. IsSafe t) IsSafe (after_try out (λ e. pure tt) (λ _. pure tt))
    go (ok a, t) k = k
    go (err e, t) k = k

pub if-IsSafe :
    {A : Type 0} (b : Bool) (m n : Service A)
    → Keeps IsSafe m
    → Keeps IsSafe n
    → Keeps IsSafe (if b then m else n)
if-IsSafe true m n hm hn = hm
if-IsSafe false m n hm hn = hn

module _ (config : RuneBridgeServiceConfig) (bridge_id : ℕ) (a : Answers) where
  stored-IsQuiet :
      (i : ℕ) (h : String) (answers : List SignRuneToEvmTransferAnswer) {start : World}
      → KeepsQuiet start (update_deposit i (with_answers h answers))
  stored-IsQuiet i h answers = record {
    keeps = λ w q. record {
      safe = record {
        to_evm =
            update_deposit-IsOnce i (with_answers h answers) w (λ d. refl) (λ d. omega arith)
              q.safe.to_evm;
        to_btc = record { paid = λ i. q.safe.to_btc.paid i };
      };
      submitted_same = λ i. q.submitted_same i;
      broadcast_same = λ i. q.broadcast_same i;
    };
  }

  query_deposit-IsQuiet : (i : ℕ) {start : World} → KeepsQuiet start (query_deposit bridge_id i)
  query_deposit-IsQuiet i = asks-IsQuiet _

  deposit_user-IsQuiet : (d : RuneDeposit) {start : World} → KeepsQuiet start (deposit_user d)
  deposit_user-IsQuiet d = asks-IsQuiet _

  deposit_rune-IsQuiet : (d : RuneDeposit) {start : World} → KeepsQuiet start (deposit_rune d)
  deposit_rune-IsQuiet d = asks-IsQuiet _

  question-IsSafe : (i : ℕ) → Keeps IsSafe (get_sign_rune_to_evm_transfer_question bridge_id i)
  unfolding get_sign_rune_to_evm_transfer_question
  question-IsSafe i = transaction-IsSafe _ λ start. bind-IsQuiet (query_deposit-IsQuiet i) λ d.
      bind-IsQuiet (lift-IsQuiet (raise_if (not (is_accepted d.status)) validation)) λ _.
        bind-IsQuiet (deposit_user-IsQuiet d) λ user. bind-IsQuiet (deposit_rune-IsQuiet d) λ rune.
          pure-IsQuiet (record {
            evm_address = user.evm_address;
            amount_raw = d.transfer_amount_raw;
            amount_decimal = div_ten_pow (of_int d.transfer_amount_raw) rune.divisibility;
            net_amount_raw = d.net_amount_raw;
            txid = d.tx_id;
            vout = d.vout;
            rune_name = rune.name;
            rune_number = rune.n;
          })

  signatures-IsSafe :
      (i : ℕ) (h : String) (answers : List SignRuneToEvmTransferAnswer)
      → Keeps IsSafe (update_rune_deposit_signatures bridge_id i a.ext h answers)
  unfolding update_rune_deposit_signatures
  signatures-IsSafe i h answers = transaction-IsSafe _ λ start.
      bind-IsQuiet (query_deposit-IsQuiet i) λ d.
        bind-IsQuiet (lift-IsQuiet (raise_if (not (is_accepted d.status)) validation)) λ _.
          bind-IsQuiet
            (lift-IsQuiet (prune_invalid_sign_rune_to_evm_transfer_answers a.ext h answers))
            λ valid. bind-IsQuiet (stored-IsQuiet i h valid) λ _.
              bind-IsQuiet (lift-IsQuiet a.ext.num_required_federators) λ n.
                pure-IsQuiet (leb n (length (with_answers h valid d).accept_transfer_signatures))

  if-IsQuiet :
      {A : Type 0} {start : World} (b : Bool) (m n : Service A)
      → KeepsQuiet start m
      → KeepsQuiet start n
      → KeepsQuiet start (if b then m else n)
  if-IsQuiet true m n hm hn = hm
  if-IsQuiet false m n hm hn = hn

  deposit_to_validate-IsSafe : (i : ℕ) → Keeps IsSafe (deposit_to_validate bridge_id i)
  deposit_to_validate-IsSafe i = transaction-IsSafe _ λ start.
      bind-IsQuiet (query_deposit-IsQuiet i) λ d.
        if-IsQuiet (is_accepted d.status) _ _
          (bind-IsQuiet (deposit_rune-IsQuiet d) λ rune. pure-IsQuiet (some (rune.n, d.postage)))
          (pure-IsQuiet none)

  validate_rune-IsSafe :
      (i : ℕ) (o : Option (ℕ × ℕ)) → Keeps IsSafe (validate_rune bridge_id i config a.ext o)
  validate_rune-IsSafe i none w h = h
  validate_rune-IsSafe i (some (n, postage)) w h =
      Post-lift (λ _ t. IsSafe t) IsSafe (a.ext.is_rune_registered n) _ w h
        λ registered _.
          if-IsSafe (not registered) _ _ (λ v k. k)
            (λ v k.
              Post-lift (λ _ t. IsSafe t) IsSafe (a.ext.is_rune_paused n) _ v k (λ paused _. k))
            w h

  send_if_ready-IsSafe :
      (i : ℕ) (ready : Bool) → Keeps IsSafe (send_if_ready config bridge_id a i ready)
  send_if_ready-IsSafe i ready =
      if-IsSafe ready _ _ (send_rune_deposit_to_evm-IsSafe bridge_id i a.ext) (λ w h. h)

  collect_signatures-IsSafe : (i : ℕ) → Keeps IsSafe (collect_signatures config bridge_id a i)
  collect_signatures-IsSafe i w h =
      Post-bind (λ _ t. IsSafe t) (λ _ t. IsSafe t) IsSafe _ _ (question-IsSafe i w h)
        λ m u k.
          Post-lift (λ _ t. IsSafe t) IsSafe
            (answer_sign_rune_to_evm_transfer_question config a.ext m) _ u k
            λ self _.
              Post-lift (λ _ t. IsSafe t) IsSafe (a.ask_evm m) _ u k
                λ responses _.
                  Post-bind (λ _ t. IsSafe t) (λ _ t. IsSafe t) IsSafe _ _
                    (signatures-IsSafe i self.message_hash (self ∷ responses) u k)
                    λ ready v l. send_if_ready-IsSafe i ready v l

  -- A turn of the loop over the rune deposits.
  pub handle_rune_transfer-IsSafe :
      (i : ℕ) → Keeps IsSafe (handle_rune_transfer config bridge_id a i)
  unfolding handle_rune_transfer validate_rune_deposit_for_sending
  handle_rune_transfer-IsSafe i w h =
      Post-bind (λ _ t. IsSafe t) (λ _ t. IsSafe t) IsSafe
        (validate_rune_deposit_for_sending bridge_id i config a.ext w) _
        (Post-bind (λ _ t. IsSafe t) (λ _ t. IsSafe t) IsSafe (deposit_to_validate bridge_id i w) _
          (deposit_to_validate-IsSafe i w h) (λ o u k. validate_rune-IsSafe i o u k))
        (λ valid u k. if-IsSafe valid _ _ (collect_signatures-IsSafe i) (λ v l. l) u k)
