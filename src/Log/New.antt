-- ===== src/Log/New.antt =====
-- Which term lengths `new` accepts.
use native.Mathlib.Nat.{pow-le-pow_right}
use native.Mathlib.Decide.{ℕ_discrete}
use aeron_rs.Prelude.{ℕ, zero, suc, ◌*◌, ◌^◌, ◌≤◌, ◌<◌, ◌≡◌, some, true, arith}
use native.Mathlib.Decide.{dec_lt}
use aeron_rs.Log.{RawLog, is_power_below, is_power_of_two, new}

pub is_power_below_power : (n k : ℕ) → k < n → is_power_below n (2 ^ k) ≡ true
unfolding is_power_below
is_power_below_power zero k h = absurd (omega arith)
is_power_below_power (suc n) k h = elim (ℕ_discrete k n) [
  | yes e ↦ rw e (ground arith)
  | no ne ↦ ground (arith, is_power_below_power n k (omega arith))
]

pub is_power_below_inv : (n x : ℕ) → is_power_below n x ≡ true → (k : ℕ) × (k < n) × (x ≡ 2 ^ k)
unfolding is_power_below
is_power_below_inv zero x h = cc
is_power_below_inv (suc n) x h = elim (ℕ_discrete x (2 ^ n)) [
  | yes e ↦ (n, omega arith, e)
  | no ne ↦ let (k, l, e) = is_power_below_inv n x (ground arith) in (k, omega arith, e)
]

power_bounds : (k : ℕ) → 5 ≤ k → k ≤ 31 → (32 ≤ 2 ^ k) × (2 ^ k ≤ 2 ^ 31)
power_bounds k lo hi =
    (pow-le-pow_right {n = 2} (omega arith) lo, pow-le-pow_right {n = 2} (omega arith) hi)

-- A term length that is accepted is a power of two from 32 on.
pub new_accepts :
    (term_length : ℕ) (log : RawLog)
    → new term_length ≡ some log
    → (k : ℕ) × (5 ≤ k) × (k ≤ 31) × (term_length ≡ 2 ^ k)
unfolding new is_power_of_two
new_accepts term_length log h =
    let (k, below, e) = is_power_below_inv 32 term_length (ground arith) in
    let least : 32 ≤ term_length = ground arith in
    (
      k,
      elim (dec_lt k 5) [
        | yes low ↦
            let top : 2 ^ k ≤ 2 ^ 4 =
              pow-le-pow_right {n = 2} (omega arith) {j = 4} (omega arith) in
            absurd {A = 5 ≤ k} (omega (arith, least, e, top))
        | no high ↦ omega arith
      ],
      omega arith,
      e,
    )

-- Every power of two from 32 to 2 ^ 31 is accepted, and gives a zeroed buffer of four terms.
pub new_power :
    (k : ℕ)
    → 5 ≤ k
    → k ≤ 31
    → new (2 ^ k) ≡ some (record { buffer = λ _. 0; capacity = 2 ^ k * 4; term_length = 2 ^ k })
unfolding new is_power_of_two
new_power k lo hi = ground (arith, is_power_below_power 32 k (omega arith), power_bounds k lo hi)
