-- ===== src/TapRsk/RskToTap/Refines.antt =====
-- `process_current_transfer_batch` implements the promise of a batch with one payment, whatever the
-- Taproot Assets daemon answers and wherever it raises.
use nbte_bridge.Prelude.{
  ℕ, String, ◌≡◌, refl, true, Option, none, some, List, [], ◌∷◌, nat_eq, Option-cases, inl, inr,
  arith, take,
}
use nbte_bridge.Result.{Result}
use nbte_bridge.Proc.{◌>>=◌, ◌>>◌}
use nbte_bridge.Proc.Hoare.{Post, Post-bind, Post-map}
use nbte_bridge.Transactions.{transaction}
use nbte_bridge.TapRsk.Models.{RskToTapTransferBatch, RskToTapTransferBatchStatus, RskToTapTransfer}
use nbte_bridge.TapRsk.External.{External}
use nbte_bridge.TapRsk.World.{World}
use nbte_bridge.TapRsk.Machine.{Phase, completing, closing}
use nbte_bridge.TapRsk.RskToTap.{
  current_batch, waiting_transfers, batch_limit, create_batch, existing_or_created,
  get_or_create_current_batch, start_sending, check_sending, send, is_sending, is_sent, mark_sent,
  mark_finalized, process_status, process_batch, process_current_transfer_batch,
}
use nbte_bridge.TapRsk.RskToTap.Steps.{
  batch_at, view, IsPaidOnce, Follows, Follows-refl, Follows-trans, Follows-IsPaidOnce,
  update_batch-Follows, add_batch-Follows, is_sending-phase, is_sent-phase, started, paid-Follows,
}

create_batch-Follows :
    (ts : List RskToTapTransfer) (w : World)
    → Post (λ _ t. Follows w t) (Follows w) (create_batch ts w)
create_batch-Follows [] w = Follows-refl w
create_batch-Follows (t ∷ ts) w = add_batch-Follows (t ∷ ts) w

existing_or_created-Follows :
    (found : Option RskToTapTransferBatch) (w : World)
    → Post (λ _ t. Follows w t) (Follows w) (existing_or_created found w)
existing_or_created-Follows none w =
    create_batch-Follows (take batch_limit (waiting_transfers w.db)) w
existing_or_created-Follows (some b) w = Follows-refl w

get_current-Follows :
    (w : World) → Post (λ _ t. Follows w t) (Follows w) (transaction get_or_create_current_batch w)
unfolding get_or_create_current_batch transaction
get_current-Follows w =
    ground (arith, existing_or_created-Follows (current_batch w.db) w, Follows-refl w)

start_sending-Follows :
    (i : ℕ) (w : World)
    → IsPaidOnce w
    → Post
        (λ _ t. Follows w t × (view i t ≡ record { phase = some Phase.sending; payments = 0 }))
        (Follows w)
        (start_sending i w)
unfolding transaction
start_sending-Follows i w h = elim (Option-cases (batch_at i w)) [
  | inl e ↦ ground (arith, Follows-refl w)
  | inr (b, e) ↦ ground (arith, Follows-refl w, started i b w h e)
]

check_sending-same : (i : ℕ) (w : World) → Post (λ _ t. t ≡ w) (λ t. t ≡ w) (check_sending i w)
unfolding transaction
check_sending-same i w = ground arith

mark_sent-Follows :
    (i : ℕ) (result : String) (w : World)
    → Post (λ _ t. Follows w t) (Follows w) (mark_sent i result w)
unfolding transaction
mark_sent-Follows i result w =
    let f : RskToTapTransferBatch → RskToTapTransferBatch = λ b. record b {
      status = RskToTapTransferBatchStatus.sent_to_tap;
      sending_result = some result;
    } in
    elim (Option-cases (batch_at i w)) [
      | inl e ↦ ground (arith, Follows-refl w)
      | inr (b, e) ↦ ground (
        arith,
        Follows-refl w,
        λ (s : is_sending b.status ≡ true).
            update_batch-Follows i f w (λ b. refl) b e
              (completing (let p = is_sending-phase b.status s in ground arith) refl),
      )
    ]

mark_finalized-Follows :
    (i : ℕ) (w : World) → Post (λ _ t. Follows w t) (Follows w) (mark_finalized i w)
unfolding transaction
mark_finalized-Follows i w =
    let f : RskToTapTransferBatch → RskToTapTransferBatch =
      λ b. record b { status = RskToTapTransferBatchStatus.finalized } in
    elim (Option-cases (batch_at i w)) [
      | inl e ↦ ground (arith, Follows-refl w)
      | inr (b, e) ↦ ground (
        arith,
        Follows-refl w,
        λ (s : is_sent b.status ≡ true).
            update_batch-Follows i f w (λ b. refl) b e
              (closing (let p = is_sent-phase b.status s in ground arith) refl),
      )
    ]

-- A step of the method after others.
then-Follows :
    {A : Type 0} {start : World} (w : World) (out : Result A × World)
    → Follows start w
    → Post (λ _ t. Follows w t) (Follows w) out
    → Post (λ _ t. Follows start t) (Follows start) out
then-Follows w out f h =
    Post-map _ _ _ _ out h (λ _ t g. Follows-trans f g) (λ t g. Follows-trans f g)

module _ (ext : External) (i : ℕ) where
  finish-Follows :
      (result : String) (start w : World)
      → Follows start w
      → Post (λ _ t. Follows start t) (Follows start) ((mark_sent i result >> mark_finalized i) w)
  finish-Follows result start w f =
      Post-bind (λ _ t. Follows start t) (λ _ t. Follows start t) (Follows start) _ _
        (then-Follows w _ f (mark_sent-Follows i result w))
        (λ _ t g. then-Follows t _ g (mark_finalized-Follows i t))

  send-Follows :
      (recipients : List String) (w : World)
      → view i w ≡ record { phase = some Phase.sending; payments = 0 }
      → Post (λ _ t. Follows w t) (Follows w) (send ext i recipients w)
  send-Follows recipients w e = ground (arith, Follows-refl w, paid-Follows i recipients w e)

  pay-Follows :
      (recipients : List String) (start w : World)
      → Follows start w
      → view i w ≡ record { phase = some Phase.sending; payments = 0 }
      → Post
          (λ _ t. Follows start t)
          (Follows start)
          ((do
            check_sending i
            result ← send ext i recipients
            mark_sent i result
            mark_finalized i)
            w)
  pay-Follows recipients start w f e =
      Post-bind (λ _ t. t ≡ w) (λ _ t. Follows start t) (Follows start) (check_sending i w) _
        (Post-map _ _ _ _ (check_sending i w) (check_sending-same i w) (λ _ t k. k) (λ t k. rw k f))
        (λ _ t k. rw k (
          Post-bind (λ _ t. Follows start t) (λ _ t. Follows start t) (Follows start)
            (send ext i recipients w) _ (then-Follows w _ f (send-Follows recipients w e))
            (λ result t g. finish-Follows result start t g)))

  process_status-Follows :
      (s : RskToTapTransferBatchStatus) (w : World)
      → IsPaidOnce w
      → Post (λ _ t. Follows w t) (Follows w) (process_status ext i s w)
  process_status-Follows RskToTapTransferBatchStatus.created w h =
      Post-bind _ (λ _ t. Follows w t) (Follows w) (start_sending i w) _
        (start_sending-Follows i w h) (λ recipients t k. pay-Follows recipients w t k.0 k.1)
  process_status-Follows RskToTapTransferBatchStatus.sending_to_tap w h = Follows-refl w
  process_status-Follows RskToTapTransferBatchStatus.sent_to_tap w h = mark_finalized-Follows i w
  process_status-Follows RskToTapTransferBatchStatus.finalized w h = Follows-refl w

module _ (ext : External) where
  process_batch-Follows :
      (b : Option RskToTapTransferBatch) (w : World)
      → IsPaidOnce w
      → Post (λ _ t. Follows w t) (Follows w) (process_batch ext b w)
  process_batch-Follows none w h = Follows-refl w
  process_batch-Follows (some b) w h = process_status-Follows ext b.id b.status w h

  -- From a world in which every batch is within what its phase allows, a call of
  -- `process_current_transfer_batch` takes every batch through steps of the machine with one payment
  -- only, whatever the Taproot Assets daemon answers, returning or raising.
  pub process_current_transfer_batch-Follows :
      (w : World)
      → IsPaidOnce w
      → Post (λ _ t. Follows w t) (Follows w) (process_current_transfer_batch ext w)
  unfolding process_current_transfer_batch
  process_current_transfer_batch-Follows w h =
      Post-bind (λ _ t. Follows w t) (λ _ t. Follows w t) (Follows w)
        (transaction get_or_create_current_batch w) _ (get_current-Follows w)
        (λ b t f. then-Follows t _ f (process_batch-Follows b t (Follows-IsPaidOnce f h)))
