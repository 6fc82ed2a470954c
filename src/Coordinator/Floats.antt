-- ===== src/Coordinator/Floats.antt =====
-- The sum and the difference of two numbers of type float (rollout_manager/coordinator.py, where cpu
-- amounts are added and subtracted). Amounts count in a power of two that divides all amounts of a
-- run. A float has 53 significant bits, and what has more is rounded to the nearest float, a tie to
-- the even one. Sums beyond the largest float are left aside.
use tiny_dsv.Base.{
  ℕ, zero, suc, ◌+◌, ◌*◌, ◌/◌, ◌%◌, ◌≤◌, ◌≡◌, refl, true, ◌&&◌, ◌||◌, leb, ltb, ◌==◌, arith,
  if◌then◌else◌,
}

-- 2 ^ 53.
abbrev pub exact_limit : ℕ
exact_limit = 9007199254740992

abbrev nearest : (step n : ℕ) → ℕ
nearest step n =
    let q = n / step in
    let r = n % step in
    if ltb (2 * r) step || (2 * r == step && q % 2 == 0) then q * step else (q + 1) * step

-- The distance of floats at `n`. The exponents of floats are fewer than 2100.
abbrev distance : (fuel step n : ℕ) → ℕ
distance zero step n = step
distance (suc fuel) step n =
    let rest = distance fuel (step * 2) n in if leb n (step * exact_limit) then step else rest

unfoldable pub nearest_float : ℕ → ℕ
nearest_float n = nearest (distance 2100 1 n) n

unfoldable pub rounded : ℕ → ℕ
rounded n = if leb n exact_limit then n else nearest_float n

pub rounded_lem : (n : ℕ) → n ≤ exact_limit → rounded n ≡ n
unfolding rounded
rounded_lem n h = let small : leb n exact_limit ≡ true = ground arith in rw small refl
