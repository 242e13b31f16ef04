-- ===== src/Transactions.antt =====
-- `TransactionManager.transaction()` (bridge_node/bridge/common/services/transactions.py) and
-- Python's `try` statement, over a database `D` and effects `E` outside of it: an exception takes back
-- what was written to the database, and nothing else.
use nbte_bridge.Prelude.{List, ◌∷◌}
use nbte_bridge.Result.{Error, Result, ok, err}
use nbte_bridge.Proc.{Proc, modify}
use nbte_bridge.Proc.Hoare.{Post}

-- The newest effect stands first.
pub record World (D E : Type 0) : Type 0 where
  pub db : D
  pub effects : List E

abbrev pub Tx : Type 0 → Type 0 → Type 0 → Type 0
Tx D E A = Proc (World D E) A

module _ {D E : Type 0} where
  abbrev pub settle : {A : Type 0} → D → Result A × World D E → Result A × World D E
  settle before (ok a, w) = (ok a, w)
  settle before (err e, w) = (err e, record w { db = before })

  unfoldable pub transaction : {A : Type 0} → Tx D E A → Tx D E A
  transaction m w = settle w.db (m w)

  -- An exception leaves the database as it was, with whatever the method had sent.
  pub Post-transaction :
      {A : Type 0} (Q : A → World D E → Type 0) (R : World D E → Type 0) (m : Tx D E A)
      (w : World D E)
      → Post Q (λ t. R (record t { db = w.db })) (m w)
      → Post Q R (transaction m w)
  unfolding transaction
  Post-transaction {A} Q R m w h = go (m w) h
    where
      go :
          (out : Result A × World D E)
          → Post Q (λ t. R (record t { db = w.db })) out
          → Post Q R (settle w.db out)
      go (ok a, t) h = h
      go (err e, t) h = h

  -- `try: m` with `except Exception as e: handler(e)` and `else: rest`
  abbrev pub after_try :
      {A B : Type 0}
      → Result A × World D E
      → (Error → Tx D E B)
      → (A → Tx D E B)
      → Result B × World D E
  after_try (ok a, w) handler rest = rest a w
  after_try (err e, w) handler rest = handler e w

  abbrev pub try_except_else :
      {A B : Type 0} → Tx D E A → (Error → Tx D E B) → (A → Tx D E B) → Tx D E B
  try_except_else m handler rest w = after_try (m w) handler rest

  abbrev pub change : (D → D) → Tx D E (Unit {0})
  change f = modify (λ w. record w { db = f w.db })

  abbrev pub emit : E → Tx D E (Unit {0})
  emit e = modify (λ w. record w { effects = e ∷ w.effects })
