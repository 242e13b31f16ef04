-- ===== src/TapRsk/Deposits/Twice.antt =====
-- A scan for deposits of Taproot assets, and the same scan again.
use nbte_bridge.Prelude.{◌≡◌, refl, ap, ◌∙◌, List, [], ◌∷◌, nat_eq, string_eq, arith}
use nbte_bridge.Result.{Result, ok, err}
use nbte_bridge.Proc.Hoare.{Post, Post-bind, Post-lift, Post-map}
use nbte_bridge.TapRsk.Models.{TapDepositAddress}
use nbte_bridge.TapRsk.External.{External, ReceiveEvent}
use nbte_bridge.TapRsk.World.{World}
use nbte_bridge.TapRsk.Outpoints.{Outpoint}
use nbte_bridge.TapRsk.Deposits.{outpoints, scan_events, scan_addresses, scan_new_deposits}
use nbte_bridge.TapRsk.Deposits.Known.{
  IsStored, AreKnown, AreKnown-kept, scan_events-Grows, scan_events-known,
}

module _ (ext : External) where
  -- The daemon's deposits to an address are known.
  abbrev pub AddressKnown : List Outpoint → TapDepositAddress → Type 0
  AddressKnown known a =
      (es : List ReceiveEvent) × (ext.list_receives a.tap_address ≡ ok es) × AreKnown known es

  abbrev pub AddressesKnown : List Outpoint → List TapDepositAddress → Type 0
  AddressesKnown known [] = Unit
  AddressesKnown known (a ∷ rows) = AddressKnown known a × AddressesKnown known rows

  scan_addresses-IsStored :
      (rows : List TapDepositAddress) (before : List Outpoint) (w : World)
      → IsStored before w
      → Post
          (λ _ t.
            (t.db.deposit_addresses ≡ w.db.deposit_addresses)
            × IsStored before t
            × AddressesKnown (outpoints t.db) rows)
          (λ t. Unit)
          (scan_addresses ext rows before w)
  scan_addresses-IsStored [] before w h = (refl, h, tt)
  scan_addresses-IsStored (a ∷ rows) before w h =
      Post-lift _ _ (ext.list_receives a.tap_address) _ w tt λ es listed.
        Post-bind _ _ (λ t. Unit) (scan_events a es before w) (scan_addresses ext rows)
          (scan_events-Grows a es before w h)
          λ known t g.
            Post-map _ _ _ _ (scan_addresses ext rows known t)
              (scan_addresses-IsStored rows known t g.0.stored)
              (λ _ u f. (
                f.0 ∙ g.0.addresses,
                (λ o i. f.1 o (g.0.kept o i)),
                ((es, listed, AreKnown-kept known (outpoints u.db) es f.1 g.1), f.2),
              ))
              (λ t u. tt)

  scan_addresses-known :
      (rows : List TapDepositAddress) (known : List Outpoint) (w : World)
      → AddressesKnown known rows
      → scan_addresses ext rows known w ≡ (ok tt, w)
  scan_addresses-known [] known w h = refl
  scan_addresses-known (a ∷ rows) known w h =
      let ((es, listed, all), rest) = h in
      simp (listed, scan_events-known a es known w all, scan_addresses-known rows known w rest)

  -- What a scan that returns leaves, from the addresses at its start.
  abbrev Scanned : List TapDepositAddress → World → Type 0
  Scanned addresses t =
      AddressesKnown (outpoints t.db) addresses × (scan_new_deposits ext t ≡ (ok tt, t))

  scan_new_deposits-Post :
      (w : World)
      → Post (λ _ t. Scanned w.db.deposit_addresses t) (λ t. Unit) (scan_new_deposits ext w)
  unfolding scan_new_deposits
  scan_new_deposits-Post w =
      Post-map _ _ _ _ (scan_addresses ext w.db.deposit_addresses (outpoints w.db) w)
        (scan_addresses-IsStored w.db.deposit_addresses (outpoints w.db) w (λ o i. i))
        (λ _ t f. (
          f.2,
          ap (λ rows. scan_addresses ext rows (outpoints t.db) t) f.0
              ∙ scan_addresses-known w.db.deposit_addresses (outpoints t.db) t f.2,
        ))
        (λ t u. tt)

  returned :
      (P : World → Type 0) (out : Result (Unit {0}) × World)
      → Post (λ _ t. P t) (λ t. Unit) out
      → out.0 ≡ ok tt
      → P out.1
  returned P (ok u, t) h e = h
  returned P (err x, t) h e = absurd (ground (arith, e))

  -- A scan that returns has stored the outpoint of every event that the daemon lists for an address,
  -- and if the daemon lists the same again, the next scan returns and changes nothing.
  pub scan_new_deposits_twice :
      (w : World)
      → (scan_new_deposits ext w).0 ≡ ok tt
      → let after = (scan_new_deposits ext w).1 in
        AddressesKnown (outpoints after.db) w.db.deposit_addresses
        × (scan_new_deposits ext after ≡ (ok tt, after))
  scan_new_deposits_twice w h =
      returned (Scanned w.db.deposit_addresses) (scan_new_deposits ext w) (scan_new_deposits-Post w)
        h
