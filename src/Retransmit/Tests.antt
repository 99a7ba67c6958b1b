-- ===== src/Retransmit/Tests.antt =====
-- Runs of the retransmit scheduler, and its theorems at concrete inputs.
use aeron_rs.Prelude.{◌≡◌, refl, true, false, [], ◌∷◌, arith, length, if◌then◌else◌}
use aeron_rs.Retransmit.{
  RetransmitHandler, Nak, new, scan, insert, on_nak, process_action, process_from, process_timeouts,
  active_count, inactive, delay, linger,
}
use aeron_rs.Retransmit.Unique.{pending, IsValid, new-IsValid, on_nak-IsValid, on_nak_takes}
use aeron_rs.Retransmit.Lifecycle.{state_of, calls_for, advance, on_nak_schedules}
use aeron_rs.Retransmit.Calls.{calls_of, length_of, process_timeouts_advances}
use aeron_rs.Retransmit.Cycle.{start, next, nak, sweep, Reach-IsValid, nak_cycle}

abbrev request : Nak
request = record { session_id = 42; stream_id = 7; term_id = 3; term_offset = 64; length = 128 }

abbrev fresh : RetransmitHandler
fresh = new 100 1000

nak_fires_once :
    let h = (on_nak fresh request 5).0 in
    ((process_timeouts h 104).1 ≡ []) × ((process_timeouts h 105).1 ≡ request ∷ [])
unfolding new on_nak insert scan process_timeouts process_from process_action
nak_fires_once = (refl, refl)

on_nak_takes_example : (on_nak fresh request 5).1 ≡ true
unfolding new pending active_count
on_nak_takes_example = on_nak_takes fresh request 5

process_timeouts_advances_example :
    let (h', calls) = process_timeouts (on_nak fresh request 5).0 105 in
    (state_of request h'.actions ≡ linger 1105) × (calls_of request calls ≡ request ∷ [])
unfolding new state_of length_of advance on_nak insert scan
process_timeouts_advances_example =
    process_timeouts_advances (on_nak fresh request 5).0 request 105
      (on_nak-IsValid fresh request 5 (new-IsValid 100 1000))

on_nak_schedules_example :
    let (h', taken) = on_nak fresh request 5 in
    state_of request h'.actions ≡ (if taken then delay 105 else inactive)
unfolding new state_of on_nak insert scan
on_nak_schedules_example = on_nak_schedules fresh request request 5

Reach-IsValid_example : IsValid (process_timeouts (on_nak fresh request 5).0 105).0
Reach-IsValid_example = Reach-IsValid 100 1000 (next (next start (nak request 5)) (sweep 105))

nak_cycle_example :
    let (waiting, taken) = on_nak fresh request 5 in
    let (waited, early) = process_timeouts waiting 50 in
    let (fired, calls) = process_timeouts waited 110 in
    let (held, again) = on_nak fired request 111 in
    let (done, late) = process_timeouts held 1110 in
    (taken ≡ true)
    × (calls_for request early ≡ 0)
    × (calls_for request calls ≡ 1)
    × (again ≡ false)
    × (calls_for request late ≡ 0)
    × (state_of request done.actions ≡ inactive)
unfolding new pending active_count
nak_cycle_example =
    nak_cycle fresh request 5 50 110 111 1110 (new-IsValid 100 1000) refl (omega arith) refl refl
      refl
