-- ===== src/TapRsk/Payments.antt =====
-- The payments in each direction of the bridge between Taproot assets and RSK, and what the two
-- directions share: nothing. What one of them does leaves the rows and the payments of the other.
use nbte_bridge.Prelude.{ℕ, suc, ◌≡◌, refl, ◌∙◌, List, [], ◌∷◌, ◌==◌, nat_eq, if◌then◌else◌}
use nbte_bridge.TapRsk.World.{World, Effect, assets_sent, accepted}

-- How often the Taproot Assets daemon paid for a batch.
abbrev pub assets_payments : ℕ → List Effect → ℕ
assets_payments i [] = 0
assets_payments i (assets_sent j recipients ∷ es) =
    if j == i then suc (assets_payments i es) else assets_payments i es
assets_payments i (accepted j call ∷ es) = assets_payments i es

-- How many transactions the RSK node took for a batch.
abbrev pub rsk_payments : ℕ → List Effect → ℕ
rsk_payments i [] = 0
rsk_payments i (accepted j call ∷ es) =
    if j == i then suc (rsk_payments i es) else rsk_payments i es
rsk_payments i (assets_sent j recipients ∷ es) = rsk_payments i es

-- The direction from Taproot assets to RSK is as before.
pub record SameTapToRsk (start w : World) : Type 0 where
  pub batches : w.db.tap_to_rsk_batches ≡ start.db.tap_to_rsk_batches
  pub next_id : w.db.next_tap_to_rsk_batch_id ≡ start.db.next_tap_to_rsk_batch_id
  pub transfers : w.db.tap_to_rsk_transfers ≡ start.db.tap_to_rsk_transfers
  pub payments : (i : ℕ) → rsk_payments i w.effects ≡ rsk_payments i start.effects

-- The direction from RSK to Taproot assets is as before.
pub record SameRskToTap (start w : World) : Type 0 where
  pub batches : w.db.rsk_to_tap_batches ≡ start.db.rsk_to_tap_batches
  pub next_id : w.db.next_rsk_to_tap_batch_id ≡ start.db.next_rsk_to_tap_batch_id
  pub transfers : w.db.rsk_to_tap_transfers ≡ start.db.rsk_to_tap_transfers
  pub payments : (i : ℕ) → assets_payments i w.effects ≡ assets_payments i start.effects

pub SameTapToRsk-refl : (w : World) → SameTapToRsk w w
SameTapToRsk-refl w = record {
  batches = refl;
  next_id = refl;
  transfers = refl;
  payments = λ i. refl;
}

pub SameRskToTap-refl : (w : World) → SameRskToTap w w
SameRskToTap-refl w = record {
  batches = refl;
  next_id = refl;
  transfers = refl;
  payments = λ i. refl;
}

pub SameTapToRsk-trans : {u v w : World} → SameTapToRsk u v → SameTapToRsk v w → SameTapToRsk u w
SameTapToRsk-trans f g = record {
  batches = g.batches ∙ f.batches;
  next_id = g.next_id ∙ f.next_id;
  transfers = g.transfers ∙ f.transfers;
  payments = λ i. g.payments i ∙ f.payments i;
}

pub SameRskToTap-trans : {u v w : World} → SameRskToTap u v → SameRskToTap v w → SameRskToTap u w
SameRskToTap-trans f g = record {
  batches = g.batches ∙ f.batches;
  next_id = g.next_id ∙ f.next_id;
  transfers = g.transfers ∙ f.transfers;
  payments = λ i. g.payments i ∙ f.payments i;
}
