-- ===== src/Runes/Quiet.antt =====
-- The invariant of both directions together, and the transactions that send nothing but messages:
-- those of the scans, of the questions and of the signatures
-- (bridge_node/bridge/bridges/runes/service.py).
use nbte_bridge.Prelude.{String, ℕ, ◌≡◌, refl, List, [], ◌∷◌, ◌++◌, nat_eq, string_eq, arith}
use nbte_bridge.Result.{Result}
use nbte_bridge.Proc.{lift, asks, gets, pure, for_each, ◌>>=◌}
use nbte_bridge.Proc.Hoare.{
  Post, Post-map, Keeps, Keeps-bind, Keeps-lift, Keeps-asks, Keeps-for_each,
}
use nbte_bridge.Runes.Models.{RuneDeposit, RuneTokenDeposit}
use nbte_bridge.Runes.External.{External, Notice}
use nbte_bridge.KeyValues.{set_value}
use nbte_bridge.Runes.World.{
  rune_bridge_table, World, Db, Service, transaction, change, emit, notified, notify,
  Post-transaction,
}
use nbte_bridge.KeyValues.{Value}
use nbte_bridge.Rows.{find_id-append}
use nbte_bridge.Runes.ToEvm.Once.{IsOnce, submissions}
use nbte_bridge.Runes.ToBtc.Once.{IsPaidOnce, broadcasts}

-- Nothing is sent more often than the statuses allow, in either direction.
pub record IsSafe (w : World) : Type 0 where
  pub to_evm : IsOnce w
  pub to_btc : IsPaidOnce w

-- The state within a transaction that began in `start` and has sent nothing but messages.
pub record IsQuiet (start w : World) : Type 0 where
  pub safe : IsSafe w
  pub submitted_same : (i : ℕ) → submissions i w.effects ≡ submissions i start.effects
  pub broadcast_same : (i : ℕ) → broadcasts i w.effects ≡ broadcasts i start.effects

pub record KeepsQuiet (start : World) {A : Type 0} (m : Service A) : Type 0 where
  pub keeps : Keeps (IsQuiet start) m

pub begins-IsQuiet : (w : World) → IsSafe w → IsQuiet w w
begins-IsQuiet w h = record { safe = h; submitted_same = λ i. refl; broadcast_same = λ i. refl }

-- An exception in such a transaction leaves what is safe.
pub transaction-IsQuiet :
    {A : Type 0} (m : Service A)
    → ((start : World) → KeepsQuiet start m)
    → (w : World) → IsSafe w
    → Post (λ _ t. IsQuiet w t) (IsQuiet w) (transaction m w)
unfolding transaction
transaction-IsQuiet m keeps w h =
    Post-transaction (λ _ t. IsQuiet w t) (IsQuiet w) m w
      (Post-map _ _ _ _ (m w) ((keeps w).keeps w (begins-IsQuiet w h)) (λ _ t q. q)
        (λ t q. record {
          safe = record {
            to_evm = record { once = λ i. rw (q.submitted_same i) (h.to_evm.once i) };
            to_btc = record { paid = λ i. rw (q.broadcast_same i) (h.to_btc.paid i) };
          };
          submitted_same = λ i. q.submitted_same i;
          broadcast_same = λ i. q.broadcast_same i;
        }))

-- What is quiet is safe.
pub IsSafe-Post :
    {A : Type 0} (m : Service A)
    → ((w : World) → IsSafe w → Post (λ _ t. IsQuiet w t) (IsQuiet w) (m w))
    → Keeps IsSafe m
IsSafe-Post m quiet w h = Post-map _ _ _ _ (m w) (quiet w h) (λ _ t q. q.safe) (λ t q. q.safe)

pub transaction-IsSafe :
    {A : Type 0} (m : Service A)
    → ((start : World) → KeepsQuiet start m)
    → Keeps IsSafe (transaction m)
transaction-IsSafe m keeps = IsSafe-Post (transaction m) (transaction-IsQuiet m keeps)

module _ {start : World} where
  pub bind-IsQuiet :
      {A B : Type 0} {m : Service A} {k : A → Service B}
      → KeepsQuiet start m
      → ((a : A) → KeepsQuiet start (k a))
      → KeepsQuiet start (m >>= k)
  bind-IsQuiet {A} {B} {m} {k} first next = record {
    keeps = Keeps-bind (IsQuiet start) m k first.keeps (λ a. (next a).keeps);
  }

  pub lift-IsQuiet : {A : Type 0} (r : Result A) → KeepsQuiet start (lift r)
  lift-IsQuiet r = record { keeps = Keeps-lift (IsQuiet start) r }

  pub asks-IsQuiet : {A : Type 0} (f : World → Result A) → KeepsQuiet start (asks f)
  asks-IsQuiet f = record { keeps = Keeps-asks (IsQuiet start) f }

  pub gets-IsQuiet : {A : Type 0} (f : World → A) → KeepsQuiet start (gets f)
  gets-IsQuiet f = record { keeps = λ w q. q }

  pub pure-IsQuiet : {A : Type 0} (a : A) → KeepsQuiet start (pure a)
  pure-IsQuiet a = record { keeps = λ w q. q }

  pub for_each-IsQuiet :
      {A : Type 0} {body : A → Service (Unit {0})} (xs : List A)
      → ((x : A) → KeepsQuiet start (body x))
      → KeepsQuiet start (for_each xs body)
  for_each-IsQuiet {A} {body} xs each = record {
    keeps = Keeps-for_each (IsQuiet start) xs body (λ x. (each x).keeps);
  }

  -- A change of the database that leaves the deposits alone.
  pub change-IsQuiet :
      (f : Db → Db)
      → ((db : Db) → (f db).rune_deposits ≡ db.rune_deposits)
      → ((db : Db) → (f db).token_deposits ≡ db.token_deposits)
      → KeepsQuiet start (change f)
  change-IsQuiet f e g = record {
    keeps = λ w q. record {
      safe = record {
        to_evm = record { once = λ i. rw (e w.db) (q.safe.to_evm.once i) };
        to_btc = record { paid = λ i. rw (g w.db) (q.safe.to_btc.paid i) };
      };
      submitted_same = q.submitted_same;
      broadcast_same = q.broadcast_same;
    };
  }

  notified-IsQuiet : (n : Notice) → KeepsQuiet start (emit (notified n))
  notified-IsQuiet n = record {
    keeps = λ w q. record {
      safe = record {
        to_evm = record { once = λ i. q.safe.to_evm.once i };
        to_btc = record { paid = λ i. q.safe.to_btc.paid i };
      };
      submitted_same = λ i. q.submitted_same i;
      broadcast_same = λ i. q.broadcast_same i;
    };
  }

  pub notify-IsQuiet : (ext : External) (n : Notice) → KeepsQuiet start (notify ext n)
  notify-IsQuiet ext n = bind-IsQuiet (notified-IsQuiet n) (λ _. lift-IsQuiet (ext.send_message n))

  -- A new row, whatever its id, if its status allows nothing to be sent.
  pub add_deposit-IsQuiet :
      (f : Db → Db) (row : Db → RuneDeposit)
      → ((db : Db) → (f db).rune_deposits ≡ db.rune_deposits ++ row db ∷ [])
      → ((db : Db) → (f db).token_deposits ≡ db.token_deposits)
      → KeepsQuiet start (change f)
  add_deposit-IsQuiet f row e g = record {
    keeps = λ w q. record {
      safe = record {
        to_evm = record {
          once = λ i. ground (
            arith,
            e w.db,
            q.safe.to_evm.once i,
            find_id-append (λ (d : RuneDeposit). d.id) i w.db.rune_deposits (row w.db),
          );
        };
        to_btc = record { paid = λ i. rw (g w.db) (q.safe.to_btc.paid i) };
      };
      submitted_same = q.submitted_same;
      broadcast_same = q.broadcast_same;
    };
  }

  pub add_token_deposit-IsQuiet :
      (f : Db → Db) (row : Db → RuneTokenDeposit)
      → ((db : Db) → (f db).token_deposits ≡ db.token_deposits ++ row db ∷ [])
      → ((db : Db) → (f db).rune_deposits ≡ db.rune_deposits)
      → KeepsQuiet start (change f)
  add_token_deposit-IsQuiet f row e g = record {
    keeps = λ w q. record {
      safe = record {
        to_evm = record { once = λ i. rw (g w.db) (q.safe.to_evm.once i) };
        to_btc = record {
          paid = λ i. ground (
            arith,
            e w.db,
            q.safe.to_btc.paid i,
            find_id-append (λ (d : RuneTokenDeposit). d.id) i w.db.token_deposits (row w.db),
          );
        };
      };
      submitted_same = q.submitted_same;
      broadcast_same = q.broadcast_same;
    };
  }

  pub set_value-IsQuiet : (key : String) (v : Value) → KeepsQuiet start (set_value key v)
  unfolding set_value
  set_value-IsQuiet key v = change-IsQuiet _ (λ db. refl) (λ db. refl)
