-- ===== src/Evm/Events.antt =====
-- `get_events` and `get_event_batch_with_retries` (bridge_node/bridge/common/evm/utils.py).
-- `get_logs` is web3's `ContractEvent.get_logs` of the first block, the last block and the number of
-- the call, since the answer to a repeated call may differ.
use nbte_bridge.Prelude.{
  ℕ, zero, suc, ◌+◌, ◌-◌, min, String, Bool, List, [], ◌∷◌, ◌++◌, ltb, leb, if◌then◌else◌, ◌&&◌,
  ◌||◌, ◌==◌, nat_eq,
}
use nbte_bridge.Result.{Result, ok, err, value_error, timeout, ◌>>=◌, ◌>>◌, raise_if}

-- web3's `EventData`, with the event's arguments.
pub record EventData (A : Type 0) : Type 0 where
  pub event : String
  pub block_number : ℕ
  pub transaction_index : ℕ
  pub log_index : ℕ
  pub transaction_hash : String
  pub args : A

abbrev pub ContractEvent : Type 0 → Type 0
ContractEvent A = ℕ → ℕ → ℕ → Result (List (EventData A))

module _ {A : Type 0} where
  -- A call that fails is repeated as long as retries are left.
  abbrev pub retry : (ℕ → Result (List (EventData A))) → ℕ → ℕ → Result (List (EventData A))
  retry get_logs attempt zero = get_logs attempt
  retry get_logs attempt (suc retries) =
      let rest = retry get_logs (suc attempt) retries in
      elim (get_logs attempt) [ ok events ↦ ok events | err e ↦ rest ]

  unfoldable pub get_event_batch_with_retries :
      ContractEvent A → ℕ → ℕ → ℕ → Result (List (EventData A))
  get_event_batch_with_retries event from_block to_block retries =
      retry (event from_block to_block) 0 retries

  -- The loop over the batches. It runs at most once for each block, so one unit of fuel more than
  -- there are blocks is enough; `timeout` says that the fuel is used up.
  abbrev pub batches : ContractEvent A → ℕ → ℕ → ℕ → ℕ → Result (List (EventData A))
  batches event batch_size to_block zero batch_from_block = err timeout
  batches event batch_size to_block (suc fuel) batch_from_block =
      let batch_to_block = min (batch_from_block + batch_size) to_block in
      let rest = batches event batch_size to_block fuel (batch_to_block + 1) in
      if leb batch_from_block to_block
      then (do
        events ← get_event_batch_with_retries event batch_from_block batch_to_block 10
        more ← rest
        ok (events ++ more))
      else ok []

  -- `get_events` with its default `batch_size`, which is 100.
  unfoldable pub get_events : ContractEvent A → ℕ → ℕ → ℕ → Result (List (EventData A))
  get_events event from_block to_block batch_size = do
    raise_if (ltb to_block from_block) value_error
    batches event batch_size to_block ((to_block - from_block) + 2) from_block

  -- The loop of `scan_new_events` over the events.
  abbrev pub collect_logs : ℕ → ℕ → List (ContractEvent A) → Result (List (EventData A))
  collect_logs from_block to_block [] = ok []
  collect_logs from_block to_block (event ∷ events) = do
    batch ← get_events event from_block to_block 100
    rest ← collect_logs from_block to_block events
    ok (batch ++ rest)

  -- The order of `all_event_logs.sort(...)`.
  abbrev pub event_le : EventData A → EventData A → Bool
  event_le a b =
      ltb a.block_number b.block_number
      || ((a.block_number == b.block_number)
          && (ltb a.transaction_index b.transaction_index
              || ((a.transaction_index == b.transaction_index) && leb a.log_index b.log_index)))
