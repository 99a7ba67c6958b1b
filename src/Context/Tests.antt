-- ===== src/Context/Tests.antt =====
-- The default configuration, and the theorems at it.
use aeron_rs.Prelude.{◌≡◌, ◌≤◌, ◌*◌, refl, some}
use aeron_rs.Log.{ok, err, is_power_below, is_power_of_two}
use aeron_rs.Publication.{NetworkPublication}
use aeron_rs.Publication
use aeron_rs.Idle.{default_backoff}
use aeron_rs.Context.{
  default_context, validate, idle_strategy, mtu_out_of_range, ring_size_not_power_of_two,
}
use aeron_rs.Context.Validate.{IsValid, validate_lem, new_after_validate}

default_run : (validate default_context ≡ ok tt) × (idle_strategy default_context ≡ default_backoff)
unfolding validate is_power_below is_power_of_two idle_strategy
default_run = (refl, refl)

bad_run :
    (validate (record default_context { mtu_length = 63 }) ≡ err mtu_out_of_range)
    × (validate (record default_context { uring_ring_size = 100 }) ≡ err ring_size_not_power_of_two)
unfolding validate is_power_below is_power_of_two
bad_run = (refl, refl)

validate_lem_example : IsValid default_context
validate_lem_example = (validate_lem default_context).0 default_run.0

new_after_validate_example :
    (p : NetworkPublication) × (Publication.new 42 7 0 default_context.term_buffer_length
        default_context.mtu_length
      ≡ some p)
    × (p.raw_log.capacity ≡ default_context.term_buffer_length * 4)
    × (32 ≤ p.max_payload_length)
new_after_validate_example = new_after_validate default_context 42 7 0 default_run.0
