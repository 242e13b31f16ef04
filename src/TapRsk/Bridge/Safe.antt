-- ===== src/TapRsk/Bridge/Safe.antt =====
-- The batches of both directions over the iterations of the bridge between Taproot assets and RSK.
use nbte_bridge.Prelude.{ℕ, ◌≤◌, ◌≡◌, refl, Bool, true, false, not, List, [], ◌∷◌, if◌then◌else◌}
use nbte_bridge.Result.{Error, Result, ok, err}
use nbte_bridge.Proc.{pure}
use nbte_bridge.Proc.Hoare.{Post, Post-bind, Post-map}
use nbte_bridge.Transactions.{after_try, Post-transaction}
use nbte_bridge.TapRsk.World.{World}
use nbte_bridge.TapRsk.Machine.{Run-IsDone, IsDone, IsUnsent, IsSound-unsent, payments_le}
use nbte_bridge.TapRsk.Payments.{assets_payments, rsk_payments}
use nbte_bridge.TapRsk.RskToTap
use nbte_bridge.TapRsk.RskToTap.Steps as ToTap
use nbte_bridge.TapRsk.RskToTap.Refines
use nbte_bridge.TapRsk.TapToRsk
use nbte_bridge.TapRsk.TapToRsk.Batches.{batch_limit}
use nbte_bridge.TapRsk.TapToRsk.Steps
use nbte_bridge.TapRsk.TapToRsk.Refines as TapRefines
use nbte_bridge.TapRsk.Bridge.{Answers, scan, lead, caught, run_iteration, run_iterations}
use nbte_bridge.TapRsk.Bridge.Scans.{IsScanned, IsScanned-refl}
use nbte_bridge.TapRsk.Bridge.Scanned.{both-Scans, scan_new_events-Scans, scan_new_deposits-Scans}
use nbte_bridge.TapRsk.Bridge.Advances.{
  IsSafe, Advances, Advances-refl, Advances-trans, Advances-IsSafe, rsk_to_tap-Advances,
  tap_to_rsk-Advances, scanned-Advances,
}

caught-Advances :
    (start : World) (out : Result (Unit {0}) × World)
    → Post (λ _ t. Advances start t) (Advances start) out
    → Post
        (λ _ t. Advances start t)
        (Advances start)
        (after_try out (λ (e : Error). pure tt) (λ (u : Unit {0}). pure tt))
caught-Advances start (ok tt, t) h = h
caught-Advances start (err e, t) h = h

-- A call after others.
then-Advances :
    {start : World} (w : World) (out : Result (Unit {0}) × World)
    → Advances start w
    → Post (λ _ t. Advances w t) (Advances w) out
    → Post (λ _ t. Advances start t) (Advances start) out
then-Advances w out f h =
    Post-map _ _ _ _ out h (λ _ t g. Advances-trans f g) (λ t g. Advances-trans f g)

module _ (a : Answers) where
  scan-Advances : (w : World) → Post (λ _ t. Advances w t) (Advances w) (scan a w)
  scan-Advances w =
      let both =
        both-Scans (scan_new_events-Scans {start = w} a.source) (scan_new_deposits-Scans a.ext) in
      Post-transaction _ (Advances w) _ w (
        Post-map (λ _ t. IsScanned w t) (IsScanned w) (λ _ t. Advances w t) _ _
          (both.keeps w (IsScanned-refl w)) (λ _ t s. scanned-Advances s)
          (λ t s. scanned-Advances (back t s.effects)))
    where
      back : (t : World) → t.effects ≡ w.effects → IsScanned w (record t { db = w.db })
      back t e = record {
        rsk_batches = refl;
        tap_batches = refl;
        tap_next_id = refl;
        effects = e;
        refs = λ i. refl;
      }

  to_tap-Advances :
      (start w : World)
      → Advances start w
      → IsSafe w
      → Post
          (λ _ t. Advances start t)
          (Advances start)
          (caught (RskToTap.process_current_transfer_batch a.ext) w)
  to_tap-Advances start w f h =
      let out = RskToTap.process_current_transfer_batch a.ext w in
      caught-Advances start out (
        then-Advances w out f (
          Post-map (λ _ t. ToTap.Follows w t) (ToTap.Follows w) _ _ out
            (Refines.process_current_transfer_batch-Follows a.ext w h.once)
            (λ _ t g. rsk_to_tap-Advances g) (λ t g. rsk_to_tap-Advances g)))

  to_rsk-Advances :
      (start w : World)
      → Advances start w
      → IsSafe w
      → Post
          (λ _ t. Advances start t)
          (Advances start)
          (caught (TapToRsk.process_current_transfer_batch a.ext) w)
  to_rsk-Advances start w f h =
      let out = TapToRsk.process_current_transfer_batch a.ext w in
      caught-Advances start out (
        then-Advances w out f (
          Post-map (λ _ t. Steps.Follows w t) (Steps.Follows w) _ _ out
            (TapRefines.process_current_transfer_batch-Follows a.ext w h.tidy h.bounded)
            (λ _ t g. tap_to_rsk-Advances g) (λ t g. tap_to_rsk-Advances g)))

  lead-Advances :
      (start w : World)
      → Advances start w
      → IsSafe start
      → Post (λ _ t. Advances start t) (Advances start) (lead a w)
  lead-Advances start w f h =
      Post-bind (λ _ t. Advances start t) (λ _ t. Advances start t) (Advances start)
        (caught (RskToTap.process_current_transfer_batch a.ext) w) _
        (to_tap-Advances start w f (Advances-IsSafe f h))
        (λ _ t g. to_rsk-Advances start t g (Advances-IsSafe g h))

  lead_if-Advances :
      (b : Bool) (start w : World)
      → Advances start w
      → IsSafe start
      → Post (λ _ t. Advances start t) (Advances start) ((if b then pure tt else lead a) w)
  lead_if-Advances true start w f h = f
  lead_if-Advances false start w f h = lead-Advances start w f h

  -- From a safe world, an iteration takes every batch in either direction through steps of its machine
  -- only, whatever the other programs and nodes answer, also where it raises.
  pub run_iteration-Advances :
      (w : World) → IsSafe w → Post (λ _ t. Advances w t) (Advances w) (run_iteration a w)
  unfolding run_iteration
  run_iteration-Advances w h =
      Post-bind (λ _ t. Advances w t) (λ _ t. Advances w t) (Advances w) (scan a w) _
        (scan-Advances w) (λ _ t f. lead_if-Advances (not a.ext.is_leader) w t f h)

Post-state :
    (start : World) (out : Result (Unit {0}) × World)
    → Post (λ _ t. Advances start t) (Advances start) out
    → Advances start out.1
Post-state start (ok tt, t) h = h
Post-state start (err e, t) h = h

-- From a safe world, any number of iterations, whatever the other programs and nodes answer in each of
-- them, take every batch in either direction through steps of its machine only: the batch is opened,
-- sending starts once, its payments come after that and before it is completed, at most one by the
-- Taproot Assets daemon and at most ten by the RSK node, and then it is closed.
pub run_iterations-Advances :
    (answers : List Answers) (w : World) → IsSafe w → Advances w (run_iterations answers w)
unfolding run_iterations
run_iterations-Advances [] w h = Advances-refl w
run_iterations-Advances (a ∷ rest) w h =
    let first = Post-state w (run_iteration a w) (run_iteration-Advances a w h) in
    Advances-trans first
      (run_iterations-Advances rest (run_iteration a w).1 (Advances-IsSafe first h))

-- From a safe world, over any number of iterations, whatever the other programs and nodes answer, the
-- Taproot Assets daemon pays at most once for a batch, the RSK node takes at most ten transactions for a
-- batch, a batch that was completed before gets no payment more, and a batch whose sending has not
-- started at the end has got none. A safe world: no batch has got more payments than its status allows,
-- the ids of the batches from Taproot assets to RSK are distinct and below the next one, and at most ten
-- transfers refer to one of them and none to an id that is not given out.
pub run_iterations_bounded :
    (answers : List Answers) (w : World)
    → IsSafe w
    → (i : ℕ)
    → (assets_payments i (run_iterations answers w).effects ≤ 1)
      × (rsk_payments i (run_iterations answers w).effects ≤ batch_limit)
      × (IsDone (ToTap.view i w).phase
          → assets_payments i (run_iterations answers w).effects ≡ assets_payments i w.effects)
      × (IsDone (Steps.view i w).phase
          → rsk_payments i (run_iterations answers w).effects ≡ rsk_payments i w.effects)
      × (IsUnsent (ToTap.view i (run_iterations answers w)).phase
          → assets_payments i (run_iterations answers w).effects ≡ 0)
      × (IsUnsent (Steps.view i (run_iterations answers w)).phase
          → rsk_payments i (run_iterations answers w).effects ≡ 0)
run_iterations_bounded answers w h i =
    let run = run_iterations-Advances answers w h in
    let safe = Advances-IsSafe run h in
    (
      payments_le 1 (ToTap.view i (run_iterations answers w)) (safe.once.sound i),
      payments_le batch_limit (Steps.view i (run_iterations answers w)) (safe.bounded.sound i),
      λ done. (Run-IsDone 1 (run.rsk i) done).1,
      λ done. (Run-IsDone batch_limit (run.tap i) done).1,
      λ unsent.
          IsSound-unsent 1 (ToTap.view i (run_iterations answers w)) (safe.once.sound i) unsent,
      λ unsent.
          IsSound-unsent batch_limit (Steps.view i (run_iterations answers w))
            (safe.bounded.sound i) unsent,
    )
