-- ===== src/Evm/Order.antt =====
-- The order of the events on their chain: by block, by transaction and by log. The order in which
-- `all_event_logs.sort(...)` of bridge_node/bridge/common/evm/scanner.py puts them is this one.
use mathlib.Core.List.{Perm}
use mathlib.Core.List.Perm
use nbte_bridge.Prelude.{
  ◌≡◌, ◌≤◌, true, false, Bool-cases, inl, inr, List, [], ◌∷◌, All, arith, sort_by, insert_by,
  nat_eq,
}
use nbte_bridge.Evm.Events.{EventData, event_le}

module _ {A : Type 0} where
  -- An event is not later than another one.
  pub record Precedes (a b : EventData A) : Type 0 where
    pub block : a.block_number ≤ b.block_number
    pub transaction : a.block_number ≡ b.block_number → a.transaction_index ≤ b.transaction_index
    pub log :
        a.block_number ≡ b.block_number
        → a.transaction_index ≡ b.transaction_index
        → a.log_index ≤ b.log_index

  pub IsOrdered : List (EventData A) → Type 0
  IsOrdered [] = Unit
  IsOrdered (e ∷ es) = All (Precedes e) es × IsOrdered es

  event_le-true : (a b : EventData A) → event_le a b ≡ true → Precedes a b
  event_le-true a b h = record {
    block = grind arith;
    transaction = λ e. grind arith;
    log = λ e f. grind arith;
  }

  event_le-false : (a b : EventData A) → event_le a b ≡ false → Precedes b a
  event_le-false a b h = record {
    block = grind arith;
    transaction = λ e. grind arith;
    log = λ e f. grind arith;
  }

  Precedes-trans : (a b c : EventData A) → Precedes a b → Precedes b c → Precedes a c
  Precedes-trans a b c p q = record {
    block = omega (arith, p.block, q.block);
    transaction = λ e. omega (arith, e, p.block, q.block, p.transaction, q.transaction);
    log = λ e f. omega (arith, e, p.block, q.block);
  }

  insert-Perm :
      (x : EventData A) (ys : List (EventData A)) → Perm (insert_by event_le x ys) (x ∷ ys)
  insert-Perm x [] = Perm.refl _
  insert-Perm x (y ∷ ys) = elim (Bool-cases (event_le x y)) [
    | inl le ↦ rw le (Perm.refl _)
    | inr gt ↦ rw gt (Perm.trans (Perm.cons y (insert-Perm x ys)) (Perm.swap _ _ _))
  ]

  pub sort-Perm : (es : List (EventData A)) → Perm (sort_by event_le es) es
  sort-Perm [] = Perm.refl _
  sort-Perm (e ∷ es) = Perm.trans (insert-Perm e (sort_by event_le es)) (Perm.cons e (sort-Perm es))

  All-weaken :
      {P Q : EventData A → Type 0} (es : List (EventData A))
      → ((e : EventData A) → P e → Q e)
      → All P es
      → All Q es
  All-weaken [] f h = tt
  All-weaken (e ∷ es) f (h, hs) = (f e h, All-weaken es f hs)

  insert-All :
      (P : EventData A → Type 0) (x : EventData A) (ys : List (EventData A))
      → P x
      → All P ys
      → All P (insert_by event_le x ys)
  insert-All P x [] h hs = (h, tt)
  insert-All P x (y ∷ ys) h (g, hs) = elim (Bool-cases (event_le x y)) [
    | inl le ↦ rw le (h, (g, hs))
    | inr gt ↦ rw gt (g, insert-All P x ys h hs)
  ]

  insert-IsOrdered :
      (x : EventData A) (ys : List (EventData A))
      → IsOrdered ys
      → IsOrdered (insert_by event_le x ys)
  unfolding IsOrdered
  insert-IsOrdered x [] h = (tt, tt)
  insert-IsOrdered x (y ∷ ys) (first, rest) = elim (Bool-cases (event_le x y)) [
    | inl le ↦
        let p = event_le-true x y le in
        rw le ((p, All-weaken ys (λ z. Precedes-trans x y z p) first), (first, rest))
    | inr gt ↦ rw gt (insert-All _ x ys (event_le-false x y gt) first, insert-IsOrdered x ys rest)
  ]

  pub sort-IsOrdered : (es : List (EventData A)) → IsOrdered (sort_by event_le es)
  unfolding IsOrdered
  sort-IsOrdered [] = tt
  sort-IsOrdered (e ∷ es) = insert-IsOrdered e (sort_by event_le es) (sort-IsOrdered es)
