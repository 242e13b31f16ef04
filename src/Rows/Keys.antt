-- ===== src/Rows/Keys.antt =====
-- Tables whose ids are distinct: a row that a query returns is the one that its id finds.
use nbte_bridge.Prelude.{
  ℕ, suc, ◌+◌, ◌≤◌, ◌≡◌, refl, ◌⊎◌, inl, inr, Bool, true, false, none, some, List, [], ◌∷◌, ◌++◌,
  keep, insert_by, sort_by, ◌==◌, nat_eq, if◌then◌else◌, beq_refl, arith,
}
use nbte_bridge.Result.{first}
use nbte_bridge.Rows.{find_id, update_id}

module _ {A : Type 0} where
  abbrev pub In : A → List A → Type 0
  In a [] = ⊥
  In a (x ∷ xs) = (a ≡ x) ⊎ In a xs

  In-insert_by :
      (le : A → A → Bool) (a x : A) (xs : List A) → In a (insert_by le x xs) → (a ≡ x) ⊎ In a xs
  In-insert_by le a x [] h = h
  In-insert_by le a x (y ∷ ys) h = ground (arith, In-insert_by le a x ys)

  pub In-sort_by : (le : A → A → Bool) (a : A) (xs : List A) → In a (sort_by le xs) → In a xs
  In-sort_by le a [] h = h
  In-sort_by le a (x ∷ xs) h =
      ground (arith, In-insert_by le a x (sort_by le xs) h, In-sort_by le a xs)

  pub In-keep : (p : A → Bool) (a : A) (xs : List A) → In a (keep p xs) → In a xs × (p a ≡ true)
  In-keep p a [] h = elim h [ ]
  In-keep p a (x ∷ xs) h = go (p x) refl (In-keep p a xs) h
    where
      go :
          (b : Bool)
          → p x ≡ b
          → (In a (keep p xs) → In a xs × (p a ≡ true))
          → In a (if b then x ∷ keep p xs else keep p xs)
          → In a (x ∷ xs) × (p a ≡ true)
      go true e later (inl same) = (inl same, rw same e)
      go true e later (inr rest) = let r = later rest in (inr r.0, r.1)
      go false e later rest = let r = later rest in (inr r.0, r.1)

  pub In-append : (a : A) (xs ys : List A) → In a (xs ++ ys) → In a xs ⊎ In a ys
  In-append a [] ys h = inr h
  In-append a (x ∷ xs) ys h = ground (arith, In-append a xs ys)

  pub In-first : (a : A) (xs : List A) → first xs ≡ some a → In a xs
  In-first a [] h = cc
  In-first a (x ∷ xs) h = ground arith

module _ {A : Type 0} (id : A → ℕ) where
  abbrev pub count_id : ℕ → List A → ℕ
  count_id i [] = 0
  count_id i (x ∷ xs) = if id x == i then suc (count_id i xs) else count_id i xs

  pub count_id-update_id :
      (i j : ℕ) (f : A → A)
      → ((x : A) → id (f x) ≡ id x)
      → (xs : List A) → count_id j (update_id id i f xs) ≡ count_id j xs
  count_id-update_id i j f same [] = refl
  count_id-update_id i j f same (x ∷ xs) = ground (arith, same x, count_id-update_id i j f same xs)

  pub count_id-append :
      (j : ℕ) (xs : List A) (y : A)
      → count_id j (xs ++ y ∷ []) ≡ count_id j xs + (if id y == j then 1 else 0)
  count_id-append j [] y = ground arith
  count_id-append j (x ∷ xs) y = ground (arith, count_id-append j xs y)

  In-count_id : (a : A) (xs : List A) → In a xs → 1 ≤ count_id (id a) xs
  In-count_id a [] h = elim h [ ]
  In-count_id a (x ∷ xs) (inl e) = ground (arith, beq_refl (id a))
  In-count_id a (x ∷ xs) (inr h) = ground (arith, In-count_id a xs h)

  pub find_id-In :
      (a : A) (xs : List A) → In a xs → count_id (id a) xs ≤ 1 → find_id id (id a) xs ≡ some a
  find_id-In a [] h le = elim h [ ]
  find_id-In a (x ∷ xs) (inl e) le = ground (arith, beq_refl (id a))
  find_id-In a (x ∷ xs) (inr h) le = ground (arith, In-count_id a xs h, find_id-In a xs h)

  pub find_id-none : (i : ℕ) (xs : List A) → count_id i xs ≡ 0 → find_id id i xs ≡ none
  find_id-none i [] h = refl
  find_id-none i (x ∷ xs) h = ground (arith, find_id-none i xs)

-- A new row is the first that a query selects if there was none before.
pub first-keep_append :
    {A : Type 0} (p : A → Bool) (xs : List A) (x : A)
    → first (keep p xs) ≡ none
    → p x ≡ true
    → first (keep p (xs ++ x ∷ [])) ≡ some x
first-keep_append p [] x e h = ground (arith, h)
first-keep_append p (y ∷ ys) x e h = ground (arith, first-keep_append p ys x)
