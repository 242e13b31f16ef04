-- ===== src/Runes/Frame.antt =====
-- What a method leaves alone: some rows of the database, and how often something was sent.
use nbte_bridge.Prelude.{ℕ, ◌≡◌, ◌∙◌, Bool, true, false, List, ◌∷◌, if◌then◌else◌}
use nbte_bridge.Result.{Error, Result, ok, err}
use nbte_bridge.Proc.{lift, asks, pure, raise, ◌>>=◌}
use nbte_bridge.Proc.Hoare.{Post, Post-map, Keeps, Keeps-bind, Keeps-lift, Keeps-asks}
use nbte_bridge.Runes.External.{External, Notice}
use nbte_bridge.Runes.World.{
  World, Db, Effect, notified, Service, transaction, change, emit, notify, after_try,
  try_except_else, Post-transaction,
}

module _ {V : Type 0} (rows : Db → V) (count : ℕ → List Effect → ℕ)
    (messages_free : (j : ℕ) (n : Notice) (es : List Effect)
      → count j (notified n ∷ es) ≡ count j es) where
  pub record IsSame (start w : World) : Type 0 where
    pub same_rows : rows w.db ≡ rows start.db
    pub same_count : (j : ℕ) → count j w.effects ≡ count j start.effects

  pub record KeepsSame (start : World) {A : Type 0} (m : Service A) : Type 0 where
    pub keeps : Keeps (IsSame start) m

module _ {V : Type 0} {rows : Db → V} {count : ℕ → List Effect → ℕ}
    {messages_free : (j : ℕ) (n : Notice) (es : List Effect)
      → count j (notified n ∷ es) ≡ count j es}
    {start : World} where
  pub bind-KeepsSame :
      {A B : Type 0} {m : Service A} {k : A → Service B}
      → KeepsSame rows count messages_free start m
      → ((a : A) → KeepsSame rows count messages_free start (k a))
      → KeepsSame rows count messages_free start (m >>= k)
  bind-KeepsSame {A} {B} {m} {k} first next = record {
    keeps =
        Keeps-bind (IsSame rows count messages_free start) m k first.keeps (λ a. (next a).keeps);
  }

  pub lift-KeepsSame :
      {A : Type 0} (r : Result A) → KeepsSame rows count messages_free start (lift r)
  lift-KeepsSame r = record { keeps = Keeps-lift (IsSame rows count messages_free start) r }

  pub asks-KeepsSame :
      {A : Type 0} (f : World → Result A) → KeepsSame rows count messages_free start (asks f)
  asks-KeepsSame f = record { keeps = Keeps-asks (IsSame rows count messages_free start) f }

  pub pure-KeepsSame : {A : Type 0} (a : A) → KeepsSame rows count messages_free start (pure a)
  pure-KeepsSame a = record { keeps = λ w q. q }

  pub raise-KeepsSame :
      {A : Type 0} (e : Error) → KeepsSame rows count messages_free start (raise {A = A} e)
  raise-KeepsSame e = record { keeps = λ w q. q }

  pub change-KeepsSame :
      (f : Db → Db)
      → ((db : Db) → rows (f db) ≡ rows db)
      → KeepsSame rows count messages_free start (change f)
  change-KeepsSame f same = record {
    keeps = λ w q. record { same_rows = same w.db ∙ q.same_rows; same_count = q.same_count };
  }

  pub emit-KeepsSame :
      (e : Effect)
      → ((j : ℕ) (es : List Effect) → count j (e ∷ es) ≡ count j es)
      → KeepsSame rows count messages_free start (emit e)
  emit-KeepsSame e free = record {
    keeps = λ w q. record {
      same_rows = q.same_rows;
      same_count = λ j. free j w.effects ∙ q.same_count j;
    };
  }

  pub notify-KeepsSame :
      (ext : External) (n : Notice) → KeepsSame rows count messages_free start (notify ext n)
  notify-KeepsSame ext n =
      bind-KeepsSame (emit-KeepsSame (notified n) (λ j es. messages_free j n es))
        (λ _. lift-KeepsSame (ext.send_message n))

  pub transaction-KeepsSame :
      {A : Type 0} (m : Service A)
      → KeepsSame rows count messages_free start m
      → KeepsSame rows count messages_free start (transaction m)
  transaction-KeepsSame m h = record {
    keeps = λ w q.
        Post-transaction (λ _ t. IsSame rows count messages_free start t)
          (IsSame rows count messages_free start) m w
          (Post-map _ _ _ _ (m w) (h.keeps w q) (λ _ t k. k)
            (λ t k. record { same_rows = q.same_rows; same_count = k.same_count }));
  }

  pub try-KeepsSame :
      {A B : Type 0} (m : Service A) (handler : Error → Service B) (rest : A → Service B)
      → KeepsSame rows count messages_free start m
      → ((e : Error) → KeepsSame rows count messages_free start (handler e))
      → ((a : A) → KeepsSame rows count messages_free start (rest a))
      → KeepsSame rows count messages_free start (try_except_else m handler rest)
  try-KeepsSame {A} {B} m handler rest h hh hr = record { keeps = λ w q. go (m w) (h.keeps w q) }
    where
      go :
          (out : Result A × World)
          → Post
              (λ _ t. IsSame rows count messages_free start t)
              (IsSame rows count messages_free start)
              out
          → Post
              (λ _ t. IsSame rows count messages_free start t)
              (IsSame rows count messages_free start)
              (after_try out handler rest)
      go (ok a, w) q = (hr a).keeps w q
      go (err e, w) q = (hh e).keeps w q

  pub if-KeepsSame :
      {A : Type 0} (b : Bool) (m n : Service A)
      → KeepsSame rows count messages_free start m
      → KeepsSame rows count messages_free start n
      → KeepsSame rows count messages_free start (if b then m else n)
  if-KeepsSame true m n hm hn = hm
  if-KeepsSame false m n hm hn = hn
