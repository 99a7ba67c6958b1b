-- ===== src/Idle/Ramp.antt =====
-- The backoff spins, then yields, then parks ever longer, and starts again after work.
use aeron_rs.Prelude.{
  ℕ, zero, suc, ◌+◌, ◌-◌, ◌*◌, ◌^◌, ◌≤◌, ◌<◌, ◌≡◌, arith, ltb, if◌then◌else◌, min,
}
use aeron_rs.Prelude.{ap, ◌∙◌}
use mathlib.Core.Path.{Path}
use native.Mathlib.Decide.{dec_lt}
use aeron_rs.Idle.{
  Backoff, backoff, IdleStrategyState, Wait, nothing, spin_loop, yield_now, park_timeout, new_state,
  next_park, idle_backoff, idle,
}

-- The state after `k` idle cycles.
unfoldable pub after : Backoff → ℕ → IdleStrategyState → IdleStrategyState
after b zero s = s
after b (suc k) s = (idle (backoff b) (after b k s) 0).0

-- The state that `k` idle cycles lead to from a fresh one.
abbrev pub ramp : Backoff → ℕ → IdleStrategyState
ramp b k = record {
  spin_count = min k b.max_spins;
  yield_count = min (k - b.max_spins) b.max_yields;
  park_ns = min ((k - b.max_spins - b.max_yields + 1) * b.min_park_ns) b.max_park_ns;
}

-- What the `k`-th idle cycle does.
abbrev pub wait : Backoff → ℕ → Wait
wait b k =
    if ltb k b.max_spins
    then spin_loop
    else if ltb k (b.max_spins + b.max_yields)
    then yield_now
    else park_timeout (min ((k - b.max_spins - b.max_yields + 1) * b.min_park_ns) b.max_park_ns)

park_step :
    (b : Backoff) (n : ℕ)
    → b.min_park_ns ≤ b.max_park_ns
    → b.max_park_ns < 2 ^ 63
    → next_park b (min ((n + 1) * b.min_park_ns) b.max_park_ns)
      ≡ min ((n + 1 + 1) * b.min_park_ns) b.max_park_ns
park_step b n h k = grind arith

state_eq :
    {a b c a' b' c' : ℕ}
    → a ≡ a'
    → b ≡ b'
    → c ≡ c'
    → Path IdleStrategyState
        (record { spin_count = a; yield_count = b; park_ns = c })
        (record { spin_count = a'; yield_count = b'; park_ns = c' })
state_eq p q r = λ i. record { spin_count = p i; yield_count = q i; park_ns = r i }

-- The park times agree while the ramp has not begun.
same_park :
    (b : Backoff) (k n : ℕ)
    → k ≡ n
    → min ((k + 1) * b.min_park_ns) b.max_park_ns ≡ min ((n + 1) * b.min_park_ns) b.max_park_ns
same_park b k n e = ap (λ x. min ((x + 1) * b.min_park_ns) b.max_park_ns) e

module _ (b : Backoff) (k : ℕ) where
  spins : k < b.max_spins → idle (backoff b) (ramp b k) 0 ≡ (ramp b (suc k), wait b k)
  unfolding idle idle_backoff
  spins h = ground (
    arith,
    state_eq {a = min k b.max_spins + 1} {b = min (k - b.max_spins) b.max_yields}
        {a' = min (suc k) b.max_spins} {b' = min (suc k - b.max_spins) b.max_yields} (omega arith)
        (omega arith)
        (same_park b (k - b.max_spins - b.max_yields) (suc k - b.max_spins - b.max_yields)
          (omega arith)),
  )

  yields :
      b.max_spins ≤ k
      → k < b.max_spins + b.max_yields
      → idle (backoff b) (ramp b k) 0 ≡ (ramp b (suc k), wait b k)
  unfolding idle idle_backoff
  yields h l = ground (
    arith,
    state_eq {a = min k b.max_spins} {b = min (k - b.max_spins) b.max_yields + 1}
        {a' = min (suc k) b.max_spins} {b' = min (suc k - b.max_spins) b.max_yields} (omega arith)
        (omega arith)
        (same_park b (k - b.max_spins - b.max_yields) (suc k - b.max_spins - b.max_yields)
          (omega arith)),
  )

  parks :
      b.max_spins + b.max_yields ≤ k
      → b.min_park_ns ≤ b.max_park_ns
      → b.max_park_ns < 2 ^ 63
      → idle (backoff b) (ramp b k) 0 ≡ (ramp b (suc k), wait b k)
  unfolding idle idle_backoff
  parks h l m = ground (
    arith,
    state_eq {a = min k b.max_spins} {b = min (k - b.max_spins) b.max_yields}
        {a' = min (suc k) b.max_spins} {b' = min (suc k - b.max_spins) b.max_yields} (omega arith)
        (omega arith)
        (park_step b (k - b.max_spins - b.max_yields) l m
          ∙ same_park b (k - b.max_spins - b.max_yields + 1) (suc k - b.max_spins - b.max_yields)
              (omega arith)),
  )

  ramp_step :
      b.min_park_ns ≤ b.max_park_ns
      → b.max_park_ns < 2 ^ 63
      → idle (backoff b) (ramp b k) 0 ≡ (ramp b (suc k), wait b k)
  ramp_step l m = elim (dec_lt k b.max_spins) [
    | yes h ↦ spins h
    | no h ↦ elim (dec_lt k (b.max_spins + b.max_yields)) [
      | yes h' ↦ yields (omega arith) h'
      | no h' ↦ parks (omega arith) l m
    ]
  ]

after-ramp :
    (b : Backoff) (k : ℕ)
    → b.min_park_ns ≤ b.max_park_ns
    → b.max_park_ns < 2 ^ 63
    → after b k (new_state (backoff b)) ≡ ramp b k
unfolding after new_state
after-ramp b zero l m = state_eq (omega arith) (omega arith) (grind arith)
after-ramp b (suc k) l m =
    ap (λ s. (idle (backoff b) s 0).0) (after-ramp b k l m) ∙ ap (λ r. r.0) (ramp_step b k l m)

-- With a smallest park time up to the largest, and that below 2 ^ 63, the backoff from a fresh
-- state spins for `max_spins` idle cycles and yields for `max_yields`; then it parks, each time
-- `min_park_ns` longer, up to `max_park_ns`. A positive work count puts it back to the fresh
-- state from any state.
pub idle_ramp :
    (b : Backoff) (k work_count : ℕ) (s : IdleStrategyState)
    → b.min_park_ns ≤ b.max_park_ns
    → b.max_park_ns < 2 ^ 63
    → 0 < work_count
    → work_count < 2 ^ 31
    → ((idle (backoff b) (after b k (new_state (backoff b))) 0).1 ≡ wait b k)
      × (idle (backoff b) s work_count ≡ (new_state (backoff b), nothing))
unfolding idle idle_backoff new_state
idle_ramp b k work_count s l m h w = (
  ap (λ s'. (idle (backoff b) s' 0).1) (after-ramp b k l m) ∙ ap (λ r. r.1) (ramp_step b k l m),
  ground arith,
)
