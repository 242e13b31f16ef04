-- ===== src/Evm/Stops.antt =====
-- The fuel of the model of `get_events`.
use nbte_bridge.Prelude.{
  ℕ, zero, suc, ◌+◌, ◌-◌, ◌≤◌, ◌<◌, min, ◌≡◌, List, leb, ltb, Bool-cases, inl, inr, arith,
}
use nbte_bridge.Result.{Result, err, timeout, Result-cases}
use nbte_bridge.Evm.Events.{
  EventData, ContractEvent, retry, get_event_batch_with_retries, batches, get_events,
}

module _ {A : Type 0} where
  retry_stops :
      (get_logs : ℕ → Result (List (EventData A))) (attempt retries : ℕ)
      → ((n : ℕ) → ¬ (get_logs n ≡ err timeout))
      → ¬ (retry get_logs attempt retries ≡ err timeout)
  retry_stops get_logs attempt zero never h = never attempt h
  retry_stops get_logs attempt (suc retries) never h = elim (Result-cases (get_logs attempt)) [
    | inl (events, e) ↦ absurd (ground (arith, e))
    | inr (x, e) ↦ retry_stops get_logs (suc attempt) retries never (ground (arith, e, h))
  ]

  module _ (event : ContractEvent A) (never : (a b n : ℕ) → ¬ (event a b n ≡ err timeout)) where
    batch_stops : (a b : ℕ) → ¬ (get_event_batch_with_retries event a b 10 ≡ err timeout)
    unfolding get_event_batch_with_retries
    batch_stops a b h = retry_stops (event a b) 0 10 (never a b) h

    batches_stop :
        (batch_size to_block fuel a : ℕ)
        → a ≤ to_block + 1
        → to_block + 1 < fuel + a
        → ¬ (batches event batch_size to_block fuel a ≡ err timeout)
    batches_stop batch_size to_block zero a le enough h = absurd (omega arith)
    batches_stop batch_size to_block (suc fuel) a le enough h =
        let b = min (a + batch_size) to_block in
        elim (Bool-cases (leb a to_block)) [
          | inr past ↦ absurd (ground (arith, past, h))
          | inl within ↦
              let later : ¬ (batches event batch_size to_block fuel (b + 1) ≡ err timeout) =
                batches_stop batch_size to_block fuel (b + 1) (grind arith) (grind arith) in
              elim (Result-cases (get_event_batch_with_retries event a b 10)) [
                | inr (x, e) ↦ batch_stops a b (ground (arith, e, within, h))
                | inl (events, e) ↦
                    elim (Result-cases (batches event batch_size to_block fuel (b + 1))) [
                      | inl (more, r) ↦ absurd (ground (arith, e, r, within, h))
                      | inr (x, r) ↦ later (ground (arith, e, r, within, h))
                    ]
              ]
        ]

    -- Whatever the node answers for any range, as long as no answer is the mark of fuel that is used
    -- up, `get_events` comes to an end within the fuel of its model: at most one batch for each block of
    -- the range, for every batch size.
    pub get_events_stops :
        (from_block to_block batch_size : ℕ)
        → ¬ (get_events event from_block to_block batch_size ≡ err timeout)
    unfolding get_events
    get_events_stops a b batch_size h = elim (Bool-cases (ltb b a)) [
      | inl empty ↦ absurd (ground (arith, empty, h))
      | inr range ↦
          batches_stop batch_size b ((b - a) + 2) a (grind arith) (grind arith)
            (ground (arith, range, h))
    ]
