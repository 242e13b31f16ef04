-- ===== src/Btc/Fees.antt =====
-- The estimator of Bitcoin fees (bridge_node/bridge/common/btc/fees.py): mempool.space with a cache,
-- and bitcoind where that fails. Times are in seconds.
use nbte_bridge.Prelude.{
  ℕ, ◌+◌, ◌≤◌, String, ◌≡◌, Bool, true, false, not, Option, none, some, ltb, ◌==◌, string_eq,
  if◌then◌else◌, arith, Bool-cases, inl, inr, ◌⊎◌,
}
use nbte_bridge.Result.{Error, Result, ok, err, value_error, raise_if, Result-cases}
use nbte_bridge.Proc.{Proc, pure, lift, gets, modify, ◌>>=◌, ◌>>◌}
use nbte_bridge.Prelude.Int.{pos}
use nbte_bridge.Decimals.{Decimal}

-- What the estimator asks: the clock when it looks at the cache and when it fills it, mempool.space for
-- the fastest fee, and bitcoind for `estimaterawfee` of one and of two blocks, whose rate may be missing.
-- `ceil_sats` is the arithmetic of `math.ceil(rate / 1000 * 1e8)` in floating point.
pub record Sources : Type 0 where
  pub now : ℕ
  pub later : ℕ
  pub fastest_fee : Result ℕ
  pub estimate_raw_fee : ℕ → Result (Option Decimal)
  pub is_zero : Decimal → Bool
  pub ceil_sats : Decimal → ℕ

-- The state of `MempoolSpaceFeeEstimator`.
pub record MempoolSpaceFeeEstimator : Type 0 where
  pub network : String
  pub cache_ttl : ℕ
  pub cached_fee_sats_per_vb : Option ℕ
  pub cache_time : ℕ

abbrev pub Estimator : Type 0 → Type 0
Estimator A = Proc MempoolSpaceFeeEstimator A

-- 0.0001 BTC per 1000 vbytes, which is 10 satoshi per vbyte.
abbrev pub regtest_rate : Decimal
regtest_rate = record { coefficient = pos 1; places = 4 }

module _ (sources : Sources) where
  -- `_get_fee_sats_per_vb`
  abbrev pub fetch_fee : Estimator ℕ
  fetch_fee = do
    network ← gets λ s. s.network
    lift (raise_if (network == "regtest") value_error)
    lift sources.fastest_fee

  abbrev pub refill : Estimator ℕ
  refill = do
    fee ← fetch_fee
    modify λ s. record s { cached_fee_sats_per_vb = some fee; cache_time = sources.later }
    pure fee

  abbrev pub cached_or_refilled : MempoolSpaceFeeEstimator → Option ℕ → Estimator ℕ
  cached_or_refilled s none = refill
  cached_or_refilled s (some fee) =
      if ltb (s.cache_time + s.cache_ttl) sources.now then refill else pure fee

  -- `MempoolSpaceFeeEstimator.get_fee_sats_per_vb`
  unfoldable pub mempool_fee : Estimator ℕ
  mempool_fee = do state ← gets λ s. s; cached_or_refilled state state.cached_fee_sats_per_vb

  -- Python's truth of a rate.
  abbrev pub is_rate : Option Decimal → Bool
  is_rate none = false
  is_rate (some d) = not (sources.is_zero d)

  abbrev pub second_rate : Result (Option Decimal) → Result Decimal
  second_rate (err e) = err e
  second_rate (ok none) = err value_error
  second_rate (ok (some d)) = if sources.is_zero d then err value_error else ok d

  abbrev pub first_rate : Result (Option Decimal) → Result Decimal
  first_rate (err e) = err e
  first_rate (ok none) = second_rate (sources.estimate_raw_fee 2)
  first_rate (ok (some d)) =
      if sources.is_zero d then second_rate (sources.estimate_raw_fee 2) else ok d

  -- `get_fee_btc_ber_kb`
  unfoldable pub fee_btc_per_kb : String → Result Decimal
  fee_btc_per_kb network =
      if network == "regtest" then ok regtest_rate else first_rate (sources.estimate_raw_fee 1)

  abbrev pub in_sats : Result Decimal → Result ℕ
  in_sats (ok d) = ok (sources.ceil_sats d)
  in_sats (err e) = err e

  -- `BitcoinRpcFeeEstimator.get_fee_sats_per_vb`
  abbrev pub rpc_fee : String → Result ℕ
  rpc_fee network = in_sats (fee_btc_per_kb network)

  -- The second `try`, and the exception after it.
  abbrev pub or_rpc_fee : Result ℕ → Result ℕ
  or_rpc_fee (ok fee) = ok fee
  or_rpc_fee (err e) = err value_error

  -- The first `try`: an exception of mempool.space is logged.
  abbrev pub after_mempool :
      String → Result ℕ × MempoolSpaceFeeEstimator → Result ℕ × MempoolSpaceFeeEstimator
  after_mempool network (ok fee, s) = (ok fee, s)
  after_mempool network (err e, s) = (or_rpc_fee (rpc_fee network), s)

  -- `BitcoinFeeEstimator.get_fee_sats_per_vb`, for the network of the estimator.
  unfoldable pub get_fee_sats_per_vb : Estimator ℕ
  get_fee_sats_per_vb s =
      if s.network == "regtest"
      then (or_rpc_fee (rpc_fee s.network), s)
      else after_mempool s.network (mempool_fee s)

  -- After a fee was fetched from mempool.space, a later call within the time to live returns it again
  -- and changes nothing, whatever mempool.space and bitcoind would answer.
  pub get_fee_sats_per_vb_cached :
      (s : MempoolSpaceFeeEstimator) (fee : ℕ)
      → s.network == "regtest" ≡ false
      → s.cached_fee_sats_per_vb ≡ some fee
      → sources.now ≤ s.cache_time + s.cache_ttl
      → get_fee_sats_per_vb s ≡ (ok fee, s)
  unfolding get_fee_sats_per_vb mempool_fee
  get_fee_sats_per_vb_cached s fee network cached fresh = ground (arith, network, cached)

  -- The estimator raises only if bitcoind gives no fee, and outside of regtest only if mempool.space
  -- gives none either.
  pub get_fee_sats_per_vb_raises :
      (s : MempoolSpaceFeeEstimator) (e : Error)
      → (get_fee_sats_per_vb s).0 ≡ err e
      → (e ≡ value_error)
        × ((d : Error) × (rpc_fee s.network ≡ err d))
        × ((s.network == "regtest" ≡ true) ⊎ ((d : Error) × (sources.fastest_fee ≡ err d)))
  unfolding get_fee_sats_per_vb mempool_fee
  get_fee_sats_per_vb_raises s e h = elim (Result-cases (rpc_fee s.network)) [
    | inl (fee, r) ↦ absurd (ground (arith, h, r))
    | inr (d, r) ↦ elim (Bool-cases (s.network == "regtest")) [
      | inl network ↦ (ground (arith, h, r), (d, r), inl network)
      | inr network ↦ elim (Result-cases sources.fastest_fee) [
        | inl (fee, f) ↦ absurd (ground (arith, h, r))
        | inr (d', f) ↦ (ground (arith, h, r), (d, r), inr (d', f))
      ]
    ]
  ]
