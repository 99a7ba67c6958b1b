-- ===== src/Idle.antt =====
-- src/agent/idle_strategy.rs: how an agent waits when a duty cycle found no work. What a step does to
-- the thread (a spin hint, a yield, a park for some nanoseconds) is a value.
pub mod Ramp
mod Tests
use aeron_rs.Prelude.{ℕ, ◌+◌, ◌-◌, ◌^◌, Bool, ◌&&◌, not, List, [], ◌∷◌, ltb, ◌==◌, if◌then◌else◌}
use aeron_rs.Prelude.Word.{nonneg32}

pub record Backoff : Type 0 where
  pub max_spins : ℕ
  pub max_yields : ℕ
  pub min_park_ns : ℕ
  pub max_park_ns : ℕ

pub data IdleStrategy : Type 0 where
  busy_spin noop : IdleStrategy
  sleeping : ℕ → IdleStrategy
  backoff : Backoff → IdleStrategy

abbrev pub default_backoff : IdleStrategy
default_backoff =
    backoff (record { max_spins = 10; max_yields = 5; min_park_ns = 1000; max_park_ns = 1000000 })

pub record IdleStrategyState : Type 0 where
  pub spin_count : ℕ
  pub yield_count : ℕ
  pub park_ns : ℕ

-- What `idle` does to its thread.
pub data Wait : Type 0 where
  nothing spin_loop yield_now : Wait
  park_timeout : ℕ → Wait

abbrev pub initial_park : IdleStrategy → ℕ
initial_park (backoff b) = b.min_park_ns
initial_park _ = 0

pub new_state : IdleStrategy → IdleStrategyState
new_state strategy = record { spin_count = 0; yield_count = 0; park_ns = initial_park strategy }

-- `u64::saturating_add`
abbrev pub saturating_add : ℕ → ℕ → ℕ
saturating_add a b = if ltb (a + b) (2 ^ 64) then a + b else 2 ^ 64 - 1

abbrev pub next_park : Backoff → ℕ → ℕ
next_park b park_ns =
    let next = saturating_add park_ns b.min_park_ns in
    if ltb b.max_park_ns next then b.max_park_ns else next

-- The backoff arm; `work_count > 0` is of an `i32`.
pub idle_backoff : Backoff → IdleStrategyState → ℕ → IdleStrategyState × Wait
idle_backoff b s work_count =
    if nonneg32 work_count && not (work_count == 0)
    then (record { spin_count = 0; yield_count = 0; park_ns = b.min_park_ns }, nothing)
    else if ltb s.spin_count b.max_spins
    then (record s { spin_count = s.spin_count + 1 }, spin_loop)
    else if ltb s.yield_count b.max_yields
    then (record s { yield_count = s.yield_count + 1 }, yield_now)
    else (record s { park_ns = next_park b s.park_ns }, park_timeout s.park_ns)

pub idle : IdleStrategy → IdleStrategyState → ℕ → IdleStrategyState × Wait
idle noop s work_count = (s, nothing)
idle busy_spin s work_count = (s, if work_count == 0 then spin_loop else nothing)
idle (sleeping period_ns) s work_count =
    (s, if work_count == 0 then park_timeout period_ns else nothing)
idle (backoff b) s work_count = idle_backoff b s work_count
