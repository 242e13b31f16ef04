-- ===== src/TapRsk/Bridge/Scans.antt =====
-- What a scan leaves as it is, and how methods that only scan are built.
use nbte_bridge.Prelude.{
  ℕ, ◌≡◌, refl, Bool, true, false, none, List, [], ◌∷◌, ◌++◌, string_eq, if◌then◌else◌, arith,
}
use nbte_bridge.Result.{Result}
use nbte_bridge.Proc.{pure, lift, asks, gets, for_each, ◌>>=◌}
use nbte_bridge.Proc.Hoare.{Keeps, Keeps-bind, Keeps-lift, Keeps-asks, Keeps-for_each}
use nbte_bridge.KeyValues.{Value, set_value}
use nbte_bridge.TapRsk.Models.{TapToRskTransfer}
use nbte_bridge.TapRsk.World.{World, Service, tap_rsk_table}
use nbte_bridge.TapRsk.TapToRsk.Tidy.{count_refs}

pub record IsScanned (start w : World) : Type 0 where
  pub rsk_batches : w.db.rsk_to_tap_batches ≡ start.db.rsk_to_tap_batches
  pub tap_batches : w.db.tap_to_rsk_batches ≡ start.db.tap_to_rsk_batches
  pub tap_next_id : w.db.next_tap_to_rsk_batch_id ≡ start.db.next_tap_to_rsk_batch_id
  pub effects : w.effects ≡ start.effects
  pub refs :
      (i : ℕ) → count_refs i w.db.tap_to_rsk_transfers ≡ count_refs i start.db.tap_to_rsk_transfers

pub IsScanned-refl : (w : World) → IsScanned w w
IsScanned-refl w = record {
  rsk_batches = refl;
  tap_batches = refl;
  tap_next_id = refl;
  effects = refl;
  refs = λ i. refl;
}

pub count_refs-append :
    (i : ℕ) (ts : List TapToRskTransfer) (t : TapToRskTransfer)
    → t.transfer_batch_id ≡ none
    → count_refs i (ts ++ t ∷ []) ≡ count_refs i ts
count_refs-append i [] t e = ground arith
count_refs-append i (s ∷ ts) t e = ground (arith, count_refs-append i ts t e)

module _ (start : World) where
  -- A method that only scans, returning or raising.
  pub record Scans {A : Type 0} (m : Service A) : Type 0 where
    pub keeps : Keeps (IsScanned start) m

module _ {start : World} where
  pub bind-Scans :
      {A B : Type 0} {m : Service A} {k : A → Service B}
      → Scans start m
      → ((a : A) → Scans start (k a))
      → Scans start (m >>= k)
  bind-Scans {A} {B} {m} {k} first next = record {
    keeps = Keeps-bind (IsScanned start) m k first.keeps (λ a. (next a).keeps);
  }

  pub lift-Scans : {A : Type 0} (r : Result A) → Scans start (lift r)
  lift-Scans r = record { keeps = Keeps-lift (IsScanned start) r }

  pub asks-Scans : {A : Type 0} (f : World → Result A) → Scans start (asks f)
  asks-Scans f = record { keeps = Keeps-asks (IsScanned start) f }

  pub gets-Scans : {A : Type 0} (f : World → A) → Scans start (gets f)
  gets-Scans f = record { keeps = λ w q. q }

  pub pure-Scans : {A : Type 0} (a : A) → Scans start (pure a)
  pure-Scans a = record { keeps = λ w q. q }

  pub if-Scans :
      {A : Type 0} (b : Bool) (m n : Service A)
      → Scans start m
      → Scans start n
      → Scans start (if b then m else n)
  if-Scans true m n hm hn = hm
  if-Scans false m n hm hn = hn

  pub for_each-Scans :
      {A : Type 0} (xs : List A) (body : A → Service (Unit {0}))
      → ((x : A) → Scans start (body x))
      → Scans start (for_each xs body)
  for_each-Scans xs body h = record {
    keeps = Keeps-for_each (IsScanned start) xs body (λ x. (h x).keeps);
  }

  pub set_value-Scans : (key : _) (v : Value) → Scans start (set_value key v)
  unfolding set_value
  set_value-Scans key v = record {
    keeps = λ w q. record {
      rsk_batches = q.rsk_batches;
      tap_batches = q.tap_batches;
      tap_next_id = q.tap_next_id;
      effects = q.effects;
      refs = q.refs;
    };
  }
