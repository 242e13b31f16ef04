-- ===== src/Evm/Batches.antt =====
-- `get_events` returns the events of every block of its range once, in the order of the blocks,
-- although it asks for them in batches and repeats calls that fail.
use mathlib.Core.List.{append_assoc, append-nil}
use nbte_bridge.Prelude.{
  ℕ, zero, suc, ◌+◌, ◌-◌, ◌≤◌, ◌<◌, min, ◌≡◌, sym, ap, ◌∙◌, List, [], ◌∷◌, ◌++◌, leb, ltb,
  Bool-cases, inl, inr, arith, false,
}
use nbte_bridge.Result.{Error, Result, ok, err}
use nbte_bridge.Evm.Events.{
  EventData, ContractEvent, retry, get_event_batch_with_retries, batches, get_events, collect_logs,
}

left_zero : (n : ℕ) → 0 + n ≡ n
left_zero n = omega arith

right_zero : (n : ℕ) → n + 0 ≡ n
right_zero n = omega arith

module _ {A : Type 0} where
  -- The events of `count` blocks from `from_block` on.
  abbrev pub blocks : (ℕ → List (EventData A)) → ℕ → ℕ → List (EventData A)
  blocks chain from_block zero = []
  blocks chain from_block (suc count) = chain from_block ++ blocks chain (suc from_block) count

  -- A node that answers one of the first `retries + 1` calls for any range, with the events of the
  -- chain; the calls before may fail.
  pub record Answers (chain : ℕ → List (EventData A)) (retries : ℕ) (event : ContractEvent A)
      : Type 0 where
    pub answered : ℕ → ℕ → ℕ
    pub answered_le : (a b : ℕ) → answered a b ≤ retries
    pub failing : (a b n : ℕ) → n < answered a b → (e : Error) × (event a b n ≡ err e)
    pub answer : (a b : ℕ) → a ≤ b → event a b (answered a b) ≡ ok (blocks chain a ((b - a) + 1))

  blocks-append :
      (chain : ℕ → List (EventData A)) (a m n : ℕ)
      → blocks chain a (m + n) ≡ blocks chain a m ++ blocks chain (a + m) n
  blocks-append chain a zero n = ground arith
  blocks-append chain a (suc m) n =
      let e : suc a + m ≡ a + suc m = omega arith in
      let carried : suc m + n ≡ suc (m + n) = omega arith in
      rw carried (
        ap (λ t. chain a ++ t) (blocks-append chain (suc a) m n)
        ∙ sym (append_assoc (chain a) (blocks chain (suc a) m) (blocks chain (suc a + m) n))
        ∙ ap (λ t. blocks chain a (suc m) ++ blocks chain t n) e)

  blocks_split :
      (chain : ℕ → List (EventData A)) (a m b n : ℕ)
      → a + m ≡ b
      → blocks chain a (m + n) ≡ blocks chain a m ++ blocks chain b n
  blocks_split chain a m b n e =
      blocks-append chain a m n ∙ ap (λ t. blocks chain a m ++ blocks chain t n) e

  module _ (chain : ℕ → List (EventData A)) where
    retry_lem :
        (get_logs : ℕ → Result (List (EventData A))) (events : List (EventData A))
        (n attempt retries : ℕ)
        → n ≤ retries
        → ((m : ℕ) → m < n → (e : Error) × (get_logs (attempt + m) ≡ err e))
        → get_logs (attempt + n) ≡ ok events
        → retry get_logs attempt retries ≡ ok events
    retry_lem get_logs events zero attempt zero le failing answer = ground arith
    retry_lem get_logs events zero attempt (suc retries) le failing answer = ground arith
    retry_lem get_logs events (suc n) attempt zero le failing answer = ground arith
    retry_lem get_logs events (suc n) attempt (suc retries) le failing answer =
        let first = failing 0 (omega arith) in
        let shift : (m : ℕ) → suc attempt + m ≡ attempt + suc m = λ m. omega arith in
        let head : get_logs attempt ≡ err first.0 = rw (sym (right_zero attempt)) first.1 in
        let rest : retry get_logs (suc attempt) retries ≡ ok events =
          retry_lem get_logs events n (suc attempt) retries (omega arith)
            (λ m lt. rw (shift m) (failing (suc m) (omega arith))) (rw (shift n) answer) in
        ground (arith, head, rest)

    -- The loop, from a block within the range or just after it.
    module _ (event : ContractEvent A) (answers : Answers chain 10 event) (batch_size : ℕ) where
      batch_lem :
          (a b : ℕ)
          → a ≤ b
          → get_event_batch_with_retries event a b 10 ≡ ok (blocks chain a ((b - a) + 1))
      unfolding get_event_batch_with_retries
      batch_lem a b h =
          retry_lem (event a b) _ (answers.answered a b) 0 10 (answers.answered_le a b)
            (λ m lt. rw (left_zero m) (answers.failing a b m lt))
            (rw (left_zero (answers.answered a b)) (answers.answer a b h))

      batches_lem :
          (to_block fuel a : ℕ)
          → a ≤ to_block + 1
          → to_block + 1 < fuel + a
          → batches event batch_size to_block fuel a ≡ ok (blocks chain a ((to_block + 1) - a))
      batches_lem to_block zero a h enough = ground arith
      batches_lem to_block (suc fuel) a h enough = elim (Bool-cases (leb a to_block)) [
        | inl e ↦
            let b = min (a + batch_size) to_block in
            let c = (to_block + 1) - (b + 1) in
            let rest : batches event batch_size to_block fuel (b + 1)
                ≡ ok (blocks chain (b + 1) c) =
              batches_lem to_block fuel (b + 1) (grind arith) (grind arith) in
            let first = batch_lem a b (grind arith) in
            let cut : (to_block + 1) - a ≡ ((b - a) + 1) + c = grind arith in
            let all : blocks chain a ((to_block + 1) - a)
                ≡ blocks chain a ((b - a) + 1) ++ blocks chain (b + 1) c =
              rw cut (blocks_split chain a ((b - a) + 1) (b + 1) c (grind arith)) in
            rw all (simp (e, first, rest))
        | inr e ↦ let none_left : (to_block + 1) - a ≡ 0 = grind arith in simp (e, none_left)
      ]

      -- For a range that is not empty, `get_events` returns the events of all its blocks, every block
      -- once and in order, for every batch size, if the node answers each range within the eleven
      -- calls that the code makes for it.
      pub get_events_lem :
          (from_block to_block : ℕ)
          → from_block ≤ to_block
          → get_events event from_block to_block batch_size
            ≡ ok (blocks chain from_block ((to_block + 1) - from_block))
      unfolding get_events
      get_events_lem a b h =
          let loop = batches_lem b ((b - a) + 2) a (omega arith) (omega arith) in
          let guard : ltb b a ≡ false = grind arith in simp (guard, loop)

  pub collect_logs_lem :
      (chain : ℕ → List (EventData A)) (event : ContractEvent A)
      → Answers chain 10 event
      → (last to_block : ℕ) → last < to_block
      → collect_logs (last + 1) to_block (event ∷ [])
        ≡ ok (blocks chain (last + 1) (to_block - last))
  collect_logs_lem chain event answers last to_block h =
      let events = get_events_lem chain event answers 100 (last + 1) to_block (omega arith) in
      let count : (to_block + 1) - (last + 1) ≡ to_block - last = omega arith in
      rw (sym count) (simp (events, append-nil))
