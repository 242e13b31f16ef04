-- ===== src/TapRsk/Bridge/Advances.antt =====
-- What an iteration may do to the batches of both directions, and that each part of it does no more.
use nbte_bridge.Prelude.{ℕ, ◌≡◌, refl}
use nbte_bridge.TapRsk.World.{World}
use nbte_bridge.TapRsk.Machine.{Run, here, Run-trans, Run-IsSound}
use nbte_bridge.TapRsk.RskToTap.Steps as ToTap
use nbte_bridge.TapRsk.TapToRsk.Tidy.{IsTidy}
use nbte_bridge.TapRsk.TapToRsk.Batches.{batch_limit}
use nbte_bridge.TapRsk.TapToRsk.Steps
use nbte_bridge.TapRsk.Bridge.Scans.{IsScanned}

-- Every batch is within what its phase allows, and the rows are tidy.
pub record IsSafe (w : World) : Type 0 where
  pub once : ToTap.IsPaidOnce w
  pub bounded : Steps.IsPaidInBounds w
  pub tidy : IsTidy w

-- Every batch took steps of its machine only.
pub record Advances (start w : World) : Type 0 where
  pub rsk : (i : ℕ) → Run 1 (ToTap.view i start) (ToTap.view i w)
  pub tap : (i : ℕ) → Run batch_limit (Steps.view i start) (Steps.view i w)
  pub tidy : IsTidy start → IsTidy w

pub Advances-refl : (w : World) → Advances w w
Advances-refl w = record { rsk = λ i. here; tap = λ i. here; tidy = λ h. h }

pub Advances-trans : {u v w : World} → Advances u v → Advances v w → Advances u w
Advances-trans f g = record {
  rsk = λ i. Run-trans 1 (f.rsk i) (g.rsk i);
  tap = λ i. Run-trans batch_limit (f.tap i) (g.tap i);
  tidy = λ h. g.tidy (f.tidy h);
}

pub Advances-IsSafe : {v w : World} → Advances v w → IsSafe v → IsSafe w
Advances-IsSafe f h = record {
  once = record { sound = λ i. Run-IsSound 1 (f.rsk i) (h.once.sound i) };
  bounded = record { sound = λ i. Run-IsSound batch_limit (f.tap i) (h.bounded.sound i) };
  tidy = f.tidy h.tidy;
}

same-Run : {v u : _} (limit : ℕ) → u ≡ v → Run limit v u
same-Run limit e = rw e here

pub rsk_to_tap-Advances : {v w : World} → ToTap.Follows v w → Advances v w
rsk_to_tap-Advances {v} {w} f = record {
  rsk = f.runs;
  tap = λ i.
      let unchanged : Steps.view i w ≡ Steps.view i v =
        rw (f.same.batches, f.same.payments i) refl in
      same-Run batch_limit unchanged;
  tidy = λ h. record {
    keyed = rw f.same.batches h.keyed;
    fresh = rw (f.same.batches, f.same.next_id) h.fresh;
    limited = rw f.same.transfers h.limited;
    unreferenced = rw (f.same.transfers, f.same.next_id) h.unreferenced;
  };
}

pub tap_to_rsk-Advances : {v w : World} → Steps.Follows v w → Advances v w
tap_to_rsk-Advances {v} {w} f = record {
  rsk = λ i.
      let unchanged : ToTap.view i w ≡ ToTap.view i v =
        rw (f.same.batches, f.same.payments i) refl in
      same-Run 1 unchanged;
  tap = f.runs;
  tidy = f.tidy;
}

pub scanned-Advances : {v w : World} → IsScanned v w → Advances v w
scanned-Advances {v} {w} s = record {
  rsk = λ i.
      let unchanged : ToTap.view i w ≡ ToTap.view i v = rw (s.rsk_batches, s.effects) refl in
      same-Run 1 unchanged;
  tap = λ i.
      let unchanged : Steps.view i w ≡ Steps.view i v = rw (s.tap_batches, s.effects) refl in
      same-Run batch_limit unchanged;
  tidy = λ h. record {
    keyed = rw s.tap_batches h.keyed;
    fresh = rw (s.tap_batches, s.tap_next_id) h.fresh;
    limited = λ i. rw (s.refs i) (h.limited i);
    unreferenced = λ i. rw (s.refs i, s.tap_next_id) (h.unreferenced i);
  };
}
