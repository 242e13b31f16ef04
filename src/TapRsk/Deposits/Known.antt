-- ===== src/TapRsk/Deposits/Known.antt =====
-- The outpoints that a scan of one address for deposits of Taproot assets knows and stores.
use nbte_bridge.Prelude.{
  ◌≡◌, refl, ◌∙◌, true, not, List, [], ◌∷◌, ◌++◌, any, map, ◌==◌, nat_eq, string_eq, beq_refl,
  Bool-cases, inl, inr, arith,
}
use nbte_bridge.Result.{ok, raise_if, external, value_error}
use nbte_bridge.Proc.{pure}
use nbte_bridge.Proc.Hoare.{Post, Post-bind, Post-lift, Post-map, Post-if}
use nbte_bridge.TapRsk.Models.{TapDepositAddress, TapToRskTransfer}
use nbte_bridge.TapRsk.External.{ReceiveEvent}
use nbte_bridge.TapRsk.World.{World}
use nbte_bridge.TapRsk.Outpoints.{Outpoint, same_outpoint, parse_outpoint}
use nbte_bridge.TapRsk.Deposits.{
  outpoints, new_transfer, append_transfer, insert_transfer, is_outpoint_stored, is_completed,
  store_new, scan_event, scan_events,
}

abbrev pub IsIn : Outpoint → List Outpoint → Type 0
IsIn o os = any (same_outpoint o) os ≡ true

IsIn-append : (o : Outpoint) (os ps : List Outpoint) → IsIn o os → IsIn o (os ++ ps)
IsIn-append o [] ps h = absurd (ground (arith, h))
IsIn-append o (p ∷ os) ps h = elim (Bool-cases (same_outpoint o p)) [
  | inl e ↦ ground (arith, e)
  | inr e ↦ ground (arith, e, h, IsIn-append o os ps)
]

IsIn-last : (o p : Outpoint) (os : List Outpoint) → same_outpoint o p ≡ true → IsIn o (os ++ p ∷ [])
IsIn-last o p [] h = ground (arith, h)
IsIn-last o p (q ∷ os) h = ground (arith, IsIn-last o p os h)

same_outpoint_refl : (o : Outpoint) → same_outpoint o o ≡ true
same_outpoint_refl (a, n) = simp (beq_refl a, beq_refl n)

abbrev outpoint_of : TapToRskTransfer → Outpoint
outpoint_of t = (t.deposit_btc_tx_id, t.deposit_btc_tx_vout)

outpoints-append :
    (ts : List TapToRskTransfer) (t : TapToRskTransfer)
    → map outpoint_of (ts ++ t ∷ []) ≡ map outpoint_of ts ++ outpoint_of t ∷ []
outpoints-append [] t = refl
outpoints-append (s ∷ ts) t = simp (outpoints-append ts t)

-- What is known is stored, where everything in `before` is.
abbrev pub IsStored : List Outpoint → World → Type 0
IsStored known w = (o : Outpoint) → IsIn o known → IsIn o (outpoints w.db)

-- From `before` at `v` to `known` at `w`: no address is added, what was known is known, and what is
-- known is stored.
pub record Grows (v w : World) (before known : List Outpoint) : Type 0 where
  pub addresses : w.db.deposit_addresses ≡ v.db.deposit_addresses
  pub kept : (o : Outpoint) → IsIn o before → IsIn o known
  pub stored : IsStored known w

Grows-trans :
    {u v w : World} {a b c : List Outpoint} → Grows u v a b → Grows v w b c → Grows u w a c
Grows-trans f g = record {
  addresses = g.addresses ∙ f.addresses;
  kept = λ o i. g.kept o (f.kept o i);
  stored = g.stored;
}

-- The outpoint of an event is known.
abbrev pub IsKnown : List Outpoint → ReceiveEvent → Type 0
IsKnown known e = (o : Outpoint) × (parse_outpoint e.outpoint ≡ ok o) × IsIn o known

abbrev pub AreKnown : List Outpoint → List ReceiveEvent → Type 0
AreKnown known [] = Unit
AreKnown known (e ∷ es) = IsKnown known e × AreKnown known es

pub AreKnown-kept :
    (known later : List Outpoint) (es : List ReceiveEvent)
    → ((o : Outpoint) → IsIn o known → IsIn o later)
    → AreKnown known es
    → AreKnown later es
AreKnown-kept known later [] f h = tt
AreKnown-kept known later (e ∷ es) f h =
    let ((o, p, i), rest) = h in ((o, p, f o i), AreKnown-kept known later es f rest)

module _ (a : TapDepositAddress) where
  append_transfer-IsStored :
      (o : Outpoint) (known : List Outpoint) (w : World)
      → IsStored known w
      → IsStored (o ∷ known) (append_transfer a o w).1
  append_transfer-IsStored o known w h p i =
      let new = new_transfer a o w.db.next_tap_to_rsk_transfer_id in
      let after = outpoints-append w.db.tap_to_rsk_transfers new in
      elim (Bool-cases (same_outpoint p o)) [
        | inl same ↦ rw after (IsIn-last p o (outpoints w.db) same)
        | inr other ↦
            let old : IsIn p known = ground (arith, other, i) in
            rw after (IsIn-append p (outpoints w.db) (o ∷ []) (h p old))
      ]

  store_new-Grows :
      (e : ReceiveEvent) (o : Outpoint) (before : List Outpoint) (w : World)
      → IsStored before w
      → Post
          (λ known t. Grows w t before known × IsIn o known)
          (λ t. Unit)
          (store_new a e o before w)
  store_new-Grows e o before w h =
      Post-lift _ _ (raise_if (not (e.encoded == a.tap_address)) value_error) _ w tt λ _ _.
        Post-lift _ _ (raise_if (not (is_completed e)) value_error) _ w tt λ _ _.
          Post-bind (λ _ t. t ≡ (append_transfer a o w).1) _ (λ t. Unit) (insert_transfer a o w) _
            (Post-lift (λ _ t. t ≡ (append_transfer a o w).1) (λ t. Unit)
              (raise_if (is_outpoint_stored o w.db) external) (λ _. append_transfer a o) w tt
              (λ _ _. refl))
            (λ _ t q. rw q (
              record {
                addresses = refl;
                kept = λ p i. ground (arith, i);
                stored = append_transfer-IsStored o before w h;
              },
              ground (arith, same_outpoint_refl o),
            ))

  scan_event-Grows :
      (e : ReceiveEvent) (before : List Outpoint) (w : World)
      → IsStored before w
      → Post
          (λ known t. Grows w t before known × IsKnown known e)
          (λ t. Unit)
          (scan_event a e before w)
  unfolding scan_event
  scan_event-Grows e before w h = Post-lift _ _ (parse_outpoint e.outpoint) _ w tt λ o parsed.
      Post-if _ _ (any (same_outpoint o) before) (pure before) (store_new a e o before) w
        (λ known. (record { addresses = refl; kept = λ p i. i; stored = h }, (o, parsed, known)))
        (λ new.
          Post-map _ _ _ _ (store_new a e o before w) (store_new-Grows e o before w h)
            (λ known t g. (g.0, (o, parsed, g.1))) (λ t u. tt))

  pub scan_events-Grows :
      (es : List ReceiveEvent) (before : List Outpoint) (w : World)
      → IsStored before w
      → Post
          (λ known t. Grows w t before known × AreKnown known es)
          (λ t. Unit)
          (scan_events a es before w)
  scan_events-Grows [] before w h = (record { addresses = refl; kept = λ p i. i; stored = h }, tt)
  scan_events-Grows (e ∷ es) before w h =
      Post-bind _ _ (λ t. Unit) (scan_event a e before w) (scan_events a es)
        (scan_event-Grows e before w h)
        λ known t g.
          Post-map _ _ _ _ (scan_events a es known t) (scan_events-Grows es known t g.0.stored)
            (λ later u f.
              let (o, parsed, i) = g.1 in (Grows-trans g.0 f.0, ((o, parsed, f.0.kept o i), f.1)))
            (λ t u. tt)

  -- Events that are known already change nothing.
  pub scan_events-known :
      (es : List ReceiveEvent) (known : List Outpoint) (w : World)
      → AreKnown known es
      → scan_events a es known w ≡ (ok known, w)
  unfolding scan_event
  scan_events-known [] known w h = refl
  scan_events-known (e ∷ es) known w h =
      let ((o, parsed, i), rest) = h in simp (parsed, i, scan_events-known es known w rest)
