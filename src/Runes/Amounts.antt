-- ===== src/Runes/Amounts.antt =====
-- `_calculate_rune_to_evm_transfer_amounts` (bridge_node/bridge/bridges/runes/service.py).
-- Its decimals are exact: a raw amount has at most 39 digits and a percentage a few, within the 80
-- digits of bridge_node/bridge/decimalcontext.py.
use native.Mathlib.Nat.{mul-div-mul_left, div-le_of_le-mul, mul-div-le, lt-mul-div-succ}
use nbte_bridge.Prelude.{ℕ, ◌+◌, ◌-◌, ◌*◌, ◌/◌, ◌^◌, ◌≤◌, ◌<◌, ◌≡◌, ap, ◌∙◌, arith}
use nbte_bridge.Decimals.{Decimal, of_int, div_ten_pow, mul, sub, int_of_mul, pow-add, ten_pow-pos}
use nbte_bridge.Prelude.Int.{ℤ, pos, ◌-ℤ◌, pos-*ℤ, pos--ℤ}

pub record TransferAmounts : Type 0 where
  pub amount_decimal : Decimal
  pub amount_raw : ℕ
  pub fee_decimal : Decimal
  pub fee_raw : ℤ
  pub net_amount_decimal : Decimal
  pub net_amount_raw : ℤ

-- The checks that the arguments are `int`s hold by their types.
unfoldable pub calculate_rune_to_evm_transfer_amounts : Decimal → ℕ → ℕ → TransferAmounts
calculate_rune_to_evm_transfer_amounts fee_percentage amount_raw divisibility =
    let divisor = 10 ^ divisibility in
    let amount_decimal = div_ten_pow (of_int amount_raw) divisibility in
    let fee_decimal = div_ten_pow (mul amount_decimal fee_percentage) 2 in
    let net_amount_decimal = sub amount_decimal fee_decimal in
    let net_amount_raw = int_of_mul net_amount_decimal divisor in
    record {
      amount_decimal = amount_decimal;
      amount_raw = amount_raw;
      fee_decimal = fee_decimal;
      fee_raw = pos amount_raw -ℤ net_amount_raw;
      net_amount_decimal = net_amount_decimal;
      net_amount_raw = net_amount_raw;
    }

-- The share that is left after a fee of `p` parts in `e`, with all terms over the divisor `x`.
common_divisor :
    (a p e x : ℕ) → p ≤ e → 0 < x → (a * (x * e) - a * p * x) * x / (x * (x * e)) ≡ a * (e - p) / e
common_divisor a p e x h pos_x =
    let r = e - p in
    let inner : a * (x * e) - a * p * x ≡ x * (a * r) = grind (arith, h) in
    let left : (a * (x * e) - a * p * x) * x ≡ x * x * (a * r) = rw inner (omega arith) in
    let right : x * (x * e) ≡ x * x * e = omega arith in
    rw (left, right) (mul-div-mul_left (a * r) e (grind arith))

net_amount_lem :
    (a p k d : ℕ)
    → p ≤ 10 ^ (k + 2)
    → (calculate_rune_to_evm_transfer_amounts
        (record { coefficient = pos p; places = k })
        a
        d).net_amount_raw
      ≡ pos (a * (10 ^ (k + 2) - p) / 10 ^ (k + 2))
unfolding calculate_rune_to_evm_transfer_amounts
net_amount_lem a p k d h =
    let e = 10 ^ (k + 2) in
    let x = 10 ^ d in
    let e1 : 10 ^ (0 + d) ≡ x = ap (λ t. 10 ^ t) (omega arith) in
    let e2 : 10 ^ (0 + d + k + 2) ≡ x * e = ap (λ t. 10 ^ t) (omega arith) ∙ pow-add 10 d (k + 2) in
    let e3 : 10 ^ (0 + d + (0 + d + k + 2)) ≡ x * (x * e) =
      ap (λ t. 10 ^ t) (omega arith)
      ∙ pow-add 10 d (d + (k + 2))
      ∙ ap (λ t. x * t) (pow-add 10 d (k + 2)) in
    let covered : a * p * x ≤ a * (x * e) = grind (arith, h) in
    simp (pos-*ℤ, e1, e2, e3)
      (rw (pos--ℤ _ _ covered) (rw pos-*ℤ (ap pos (common_divisor a p e x h (ten_pow-pos d)))))

-- The net amount, rounded down, and the rest.
rounded_share :
    (a p e : ℕ)
    → p ≤ e
    → 0 < e
    → let net = a * (e - p) / e in (net ≤ a) × (a * p ≤ (a - net) * e) × ((a - net) * e < a * p + e)
rounded_share a p e h pos_e =
    let net = a * (e - p) / e in
    let share : a * (e - p) + a * p ≡ a * e = grind (arith, h) in
    let low : e * net ≤ a * (e - p) = mul-div-le (a * (e - p)) e in
    let high : a * (e - p) < e * (net + 1) = lt-mul-div-succ (a * (e - p)) pos_e in
    let fits : net ≤ a = div-le_of_le-mul e (omega arith) in
    let parts : (net + (a - net)) * e ≡ a * e = ap (λ (t : ℕ). t * e) (omega arith) in
    (fits, omega arith, omega arith)

-- With a fee percentage of p / 10 ^ k, at most 100, the raw amount a splits into a net amount and a
-- fee that add up to a; the fee is a * p / (100 * 10 ^ k) rounded up to a whole raw unit; and
-- neither depends on the divisibility of the rune.
pub calculate_amounts_split :
    (a p k d : ℕ)
    → p ≤ 10 ^ (k + 2)
    → let amounts =
        calculate_rune_to_evm_transfer_amounts (record { coefficient = pos p; places = k }) a d in
      (net fee : ℕ) × (amounts.net_amount_raw ≡ pos net)
      × (amounts.fee_raw ≡ pos fee)
      × (net + fee ≡ a)
      × (a * p ≤ fee * 10 ^ (k + 2))
      × (fee * 10 ^ (k + 2) < a * p + 10 ^ (k + 2))
unfolding calculate_rune_to_evm_transfer_amounts
calculate_amounts_split a p k d h =
    let (fits, covers, tight) = rounded_share a p (10 ^ (k + 2)) h (ten_pow-pos (k + 2)) in
    let net_eq = net_amount_lem a p k d h in
    (
      a * (10 ^ (k + 2) - p) / 10 ^ (k + 2),
      a - a * (10 ^ (k + 2) - p) / 10 ^ (k + 2),
      net_eq,
      ap (λ t. pos a -ℤ t) net_eq ∙ pos--ℤ _ _ fits,
      omega arith,
      covers,
      tight,
    )
