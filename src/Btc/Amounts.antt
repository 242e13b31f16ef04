-- ===== src/Btc/Amounts.antt =====
-- Amounts in bitcoin and in satoshi (bridge_node/bridge/common/btc/utils.py). The local context's
-- 999 digits make the arithmetic exact.
use native.Mathlib.Nat.{mul-div_cancel}
use nbte_bridge.Prelude.{ℕ, ◌^◌, ◌≡◌, ap, arith, ◌==◌, beq_refl, if◌then◌else◌}
use nbte_bridge.Prelude.Int.{ℤ, pos, ◌*ℤ◌, truncate_div, pos-*ℤ, int_eq, int_beq_iff}
use nbte_bridge.Result.{Result, ok, err, value_error}
use nbte_bridge.Decimals.{Decimal}

-- `btc * 10**8`, which has to be a whole number: `int(x) == x`.
unfoldable pub to_satoshi : Decimal → Result ℤ
to_satoshi btc =
    let scaled = btc.coefficient *ℤ pos (10 ^ 8) in
    let integer_value = truncate_div scaled (10 ^ btc.places) in
    if integer_value *ℤ pos (10 ^ btc.places) == scaled then ok integer_value else err value_error

unfoldable pub from_satoshi : ℤ → Decimal
from_satoshi satoshi = record { coefficient = satoshi; places = 8 }

-- `to_satoshi` takes the bitcoin value of any whole number of satoshis back to that number.
pub to_satoshi-from_satoshi : (n : ℕ) → to_satoshi (from_satoshi (pos n)) ≡ ok (pos n)
unfolding to_satoshi from_satoshi
to_satoshi-from_satoshi n =
    let whole : truncate_div (pos n *ℤ pos (10 ^ 8)) (10 ^ 8) ≡ pos n =
      rw pos-*ℤ (ap pos (mul-div_cancel n (omega arith))) in
    rw (whole, beq_refl (pos n *ℤ pos (10 ^ 8)))

-- An amount of bitcoin that `to_satoshi` accepts has exactly the value that it returns.
pub from_satoshi-to_satoshi :
    (btc : Decimal) {satoshi : ℤ}
    → to_satoshi btc ≡ ok satoshi
    → satoshi *ℤ pos (10 ^ btc.places) ≡ btc.coefficient *ℤ pos (10 ^ (from_satoshi satoshi).places)
unfolding to_satoshi from_satoshi
from_satoshi-to_satoshi btc {satoshi} h =
    let scaled = btc.coefficient *ℤ pos (10 ^ 8) in
    let value = truncate_div scaled (10 ^ btc.places) in
    ground (arith, int_beq_iff (value *ℤ pos (10 ^ btc.places)) scaled)
