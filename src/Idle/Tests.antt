-- ===== src/Idle/Tests.antt =====
-- Runs of the idle strategies, and the theorem on the backoff at concrete inputs.
use aeron_rs.Prelude.{◌≡◌, refl, arith}
use aeron_rs.Idle.{
  Backoff, backoff, sleeping, busy_spin, default_backoff, new_state, idle, idle_backoff,
  park_timeout, spin_loop, nothing,
}
use aeron_rs.Idle.Ramp.{after, wait, idle_ramp}

abbrev default : Backoff
default = record { max_spins = 10; max_yields = 5; min_park_ns = 1000; max_park_ns = 1000000 }

-- The third park after ten spins and five yields, and a park at the limit.
default_run :
    ((idle default_backoff (after default 17 (new_state default_backoff)) 0).1 ≡ park_timeout 3000)
    × (wait default 2000 ≡ park_timeout 1000000)
unfolding after idle idle_backoff new_state
default_run = (refl, refl)

other_run :
    ((idle (sleeping 50) (new_state (sleeping 50)) 0).1 ≡ park_timeout 50)
    × ((idle busy_spin (new_state busy_spin) 0).1 ≡ spin_loop)
    × ((idle busy_spin (new_state busy_spin) 3).1 ≡ nothing)
unfolding idle new_state
other_run = (refl, refl, refl)

idle_ramp_example :
    ((idle (backoff default) (after default 17 (new_state (backoff default))) 0).1
      ≡ wait default 17)
    × (idle (backoff default) (after default 3 (new_state (backoff default))) 7
        ≡ (new_state (backoff default), nothing))
idle_ramp_example =
    idle_ramp default 17 7 (after default 3 (new_state (backoff default))) (omega arith)
      (omega arith) (omega arith) (omega arith)
