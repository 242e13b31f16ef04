-- ===== src/Decimals.antt =====
-- Python's `decimal.Decimal`, as far as the bridge computes with it: an integer over a power of ten,
-- with exact operations. The bridge sets a precision that its amounts do not reach.
use native.Mathlib.Nat.{add-zero, add-suc, pow-zero, pow-suc}
use nbte_bridge.Prelude.{ℕ, zero, suc, ◌+◌, ◌*◌, ◌^◌, ◌<◌, ◌≡◌, ap, arith}
use nbte_bridge.Prelude.Int.{ℤ, pos, ◌-ℤ◌, ◌*ℤ◌, truncate_div}

-- `coefficient / 10 ^ places`
pub record Decimal : Type 0 where
  pub coefficient : ℤ
  pub places : ℕ

abbrev pub of_int : ℕ → Decimal
of_int n = record { coefficient = pos n; places = 0 }

-- Division by `10 ** k`.
abbrev pub div_ten_pow : Decimal → ℕ → Decimal
div_ten_pow x k = record { coefficient = x.coefficient; places = x.places + k }

abbrev pub mul : Decimal → Decimal → Decimal
mul x y = record { coefficient = x.coefficient *ℤ y.coefficient; places = x.places + y.places }

abbrev pub sub : Decimal → Decimal → Decimal
sub x y = record {
  coefficient = x.coefficient *ℤ pos (10 ^ y.places) -ℤ y.coefficient *ℤ pos (10 ^ x.places);
  places = x.places + y.places;
}

-- `int(x * n)`
abbrev pub int_of_mul : Decimal → ℕ → ℤ
int_of_mul x n = truncate_div (x.coefficient *ℤ pos n) (10 ^ x.places)

pub pow-add : (n a b : ℕ) → n ^ (a + b) ≡ n ^ a * n ^ b
pow-add n a zero = rw (add-zero, pow-zero) (omega arith)
pow-add n a (suc b) = simp (add-suc, pow-suc) (omega (arith, ap (λ (t : ℕ). t * n) (pow-add n a b)))

pub ten_pow-pos : (k : ℕ) → 0 < 10 ^ k
ten_pow-pos zero = omega arith
ten_pow-pos (suc k) = rw pow-suc (omega (arith, ten_pow-pos k))
