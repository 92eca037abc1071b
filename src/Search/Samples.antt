-- ===== src/Search/Samples.antt =====
-- A division in percent, for concrete inputs.
use native.Mathlib.Nat.{div-eq_of_lt-le}
use startup.Common.{ℕ, zero, suc, ◌+◌, ◌*◌, ◌/◌, ◌≤◌, arith}
use startup.Search.Ranking.{IsPercent}

-- `Math.round` of the exact quotient.
abbrev pub rounded : ℕ → ℕ → ℕ
rounded score max = (200 * score + max) / (2 * max)

pub rounded-IsPercent : IsPercent rounded
rounded-IsPercent = record {
  self = λ m h. div-eq_of_lt-le {k = 100} (2 * m) (omega arith) (omega arith);
  mono = λ a b m h. grind arith;
}

rounded_self : (m : ℕ) → rounded m m ≤ 100
rounded_self zero = omega arith
rounded_self (suc m) = omega (arith, rounded-IsPercent.self (suc m) (omega arith))

pub rounded-le : (a m : ℕ) → a ≤ m → rounded a m ≤ 100
rounded-le a m h = omega (arith, rounded-IsPercent.mono a m m h, rounded_self m)
