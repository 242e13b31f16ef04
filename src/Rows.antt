-- ===== src/Rows.antt =====
-- Rows found and changed by their id.
pub mod Keys
use nbte_bridge.Prelude.{
  ℕ, ◌≡◌, refl, inl, inr, Bool, true, Option, none, some, List, [], ◌∷◌, ◌++◌, ◌==◌, nat_eq,
  if◌then◌else◌, keep, Option-cases, beq_refl, arith,
}
use nbte_bridge.Result.{ok, one}
use mathlib.Core.Option

module _ {A : Type 0} (id : A → ℕ) where
  -- `dbsession.get(A, i)`
  abbrev pub find_id : ℕ → List A → Option A
  find_id i [] = none
  find_id i (x ∷ xs) = if id x == i then some x else find_id i xs

  -- The rows that a query for an id selects: an id is a primary key, so at most one.
  abbrev pub with_id : ℕ → List A → List A
  with_id i xs = elim (find_id i xs) [ none ↦ [] | some x ↦ x ∷ [] ]

  -- Assignments to the fields of the row with this id.
  abbrev pub update_id : ℕ → (A → A) → List A → List A
  update_id i f [] = []
  update_id i f (x ∷ xs) = if id x == i then f x ∷ xs else x ∷ update_id i f xs

  pub find_id-update_id :
      (i j : ℕ) (f : A → A)
      → ((x : A) → id (f x) ≡ id x)
      → (xs : List A)
      → find_id j (update_id i f xs)
        ≡ (if i == j then Option.map f (find_id j xs) else find_id j xs)
  find_id-update_id i j f same [] = ground arith
  find_id-update_id i j f same (x ∷ xs) = ground (arith, same x, find_id-update_id i j f same xs)

  -- The row that was changed.
  pub found_updated :
      (i : ℕ) (f : A → A)
      → ((x : A) → id (f x) ≡ id x)
      → (xs : List A) (x : A) → find_id i xs ≡ some x
      → find_id i (update_id i f xs) ≡ some (f x)
  found_updated i f same xs x at = ground (arith, beq_refl i, find_id-update_id i i f same xs)

  -- A new row is found by its id if no row had that id before.
  pub find_id-append :
      (j : ℕ) (xs : List A) (y : A)
      → find_id j (xs ++ y ∷ [])
        ≡ (elim (find_id j xs) [ none ↦ if id y == j then some y else none | some x ↦ some x ])
  find_id-append j [] y = refl
  find_id-append j (x ∷ xs) y = ground (arith, find_id-append j xs y)

  -- The row that a query for an id and a condition returns.
  pub one-with_id :
      (p : A → Bool) (i : ℕ) (xs : List A) {x : A}
      → one (keep p (with_id i xs)) ≡ ok x
      → (find_id i xs ≡ some x) × (p x ≡ true)
  one-with_id p i xs {x} h = elim (Option-cases (find_id i xs)) [
    | inl e ↦ ground arith
    | inr (y, e) ↦ ground arith
  ]
