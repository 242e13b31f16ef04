-- ===== src/KeyValues.antt =====
-- `KeyValueStore` (bridge_node/bridge/common/services/key_value_store.py).
use nbte_bridge.Prelude.{
  ℕ, String, Option, none, some, List, [], ◌∷◌, ◌++◌, ◌==◌, string_eq, ◌≡◌, refl, if◌then◌else◌,
  beq_refl, arith,
}
use nbte_bridge.Proc.{◌>>=◌, ◌>>◌, gets, pure}
use nbte_bridge.Transactions.{World, Tx, change}

-- A JSON value of the key-value table.
pub data Value : Type 0 where
  text : String → Value
  number : ℕ → Value

-- A database with a key-value table in it.
pub record KeyValueTable (D : Type 0) : Type 0 where
  pub pairs : D → List (String × Value)
  pub with_pairs : List (String × Value) → D → D
  pub pairs_with : (ps : List (String × Value)) (db : D) → pairs (with_pairs ps db) ≡ ps

abbrev pub find_value : {V : Type 0} → String → List (String × V) → Option V
find_value key [] = none
find_value key ((k, v) ∷ pairs) = if k == key then some v else find_value key pairs

abbrev pub put_value : {V : Type 0} → String → V → List (String × V) → List (String × V)
put_value key value [] = (key, value) ∷ []
put_value key value ((k, v) ∷ pairs) =
    if k == key then (k, value) ∷ pairs else (k, v) ∷ put_value key value pairs

pub find_value-put_value :
    {V : Type 0} (key other : String) (v : V) (pairs : List (String × V))
    → find_value other (put_value key v pairs)
      ≡ (if key == other then some v else find_value other pairs)
find_value-put_value key other v [] = refl
find_value-put_value key other v ((k, u) ∷ pairs) = ground (
  arith,
  find_value-put_value key other v pairs,
  (string_eq.same_iff k key).0,
  (string_eq.same_iff k other).0,
  beq_refl key,
  (string_eq.same_iff key other).0,
)

module _ {D : Type 0} ⦃t : KeyValueTable D⦄ where
  -- `get_value` with a default: `none` stands for a `default_value` of None.
  unfoldable pub get_value : String → Option Value → D → Option Value
  get_value key default_value db = elim (find_value key (t.pairs db)) [
    | none ↦ default_value
    | some v ↦ some v
  ]

  module _ {E : Type 0} where
    unfoldable pub set_value : String → Value → Tx D E (Unit {0})
    set_value key value = change λ db. t.with_pairs (put_value key value (t.pairs db)) db

    abbrev stored_or_created : String → Value → Option Value → Tx D E Value
    stored_or_created key default_value none = do
      change λ db. t.with_pairs (t.pairs db ++ (key, default_value) ∷ []) db
      pure default_value
    stored_or_created key default_value (some v) = pure v

    unfoldable pub get_or_create_value : String → Value → Tx D E Value
    get_or_create_value key default_value = do
      found ← gets λ w. find_value key (t.pairs w.db)
      stored_or_created key default_value found

    -- After `set_value` of a key, `get_value` of it returns the value, whatever default it is given, and
    -- `get_value` of any other key returns what it returned before.
    pub get_value-set_value :
        (key other : String) (v : Value) (default_value : Option Value) (w : World D E)
        → get_value other default_value (set_value key v w).1.db
          ≡ (if key == other then some v else get_value other default_value w.db)
    unfolding get_value set_value
    get_value-set_value key other v default_value w = ground (
      arith,
      find_value-put_value key other v (t.pairs w.db),
      t.pairs_with (put_value key v (t.pairs w.db)) w.db,
    )
