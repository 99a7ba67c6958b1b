-- ===== src/Context.antt =====
-- src/context.rs: the configuration of the driver and its validation. A duration is its number of
-- nanoseconds, an `i64` or `u64` pattern.
pub mod Validate
mod Tests
use aeron_rs.Prelude.{ℕ, Bool, false, not, ◌&&◌, ◌||◌, Option, none, ltb, ◌==◌, if◌then◌else◌}
use aeron_rs.Prelude.Word.{nonneg64}
use aeron_rs.Log.{Result, ok, err, is_power_below, is_power_of_two}
use aeron_rs.Idle.{IdleStrategy, backoff}

abbrev pub max_recv_buffer : ℕ
max_recv_buffer = 65536

pub data ContextValidationError : Type 0 where
  ring_size_not_power_of_two buf_ring_entries_not_power_of_two : ContextValidationError
  buf_ring_entries_too_large buf_ring_entries_zero send_slots_zero : ContextValidationError
  mtu_out_of_range heartbeat_interval_zero sm_interval_negative nak_delay_zero :
      ContextValidationError
  timer_interval_zero socket_rcvbuf_zero socket_sndbuf_zero : ContextValidationError
  term_buffer_length_invalid retransmit_linger_zero rttm_interval_zero : ContextValidationError
  max_receiver_images_invalid idle_min_park_zero idle_max_park_less_than_min :
      ContextValidationError

pub record DriverContext : Type 0 where
  pub socket_rcvbuf : ℕ
  pub socket_sndbuf : ℕ
  pub mtu_length : ℕ
  pub multicast_ttl : ℕ
  pub uring_ring_size : ℕ
  pub uring_recv_slots_per_transport : ℕ
  pub uring_send_slots : ℕ
  pub uring_buf_ring_entries : ℕ
  pub uring_sqpoll : Bool
  pub uring_sqpoll_idle_ms : ℕ
  pub send_duty_cycle_ratio : ℕ
  pub retransmit_unicast_delay_ns : ℕ
  pub retransmit_unicast_linger_ns : ℕ
  pub heartbeat_interval_ns : ℕ
  pub term_buffer_length : ℕ
  pub sm_interval_ns : ℕ
  pub nak_delay_ns : ℕ
  pub rttm_interval_ns : ℕ
  pub max_receiver_images : ℕ
  pub receiver_window : Option ℕ
  pub send_sm_on_data : Bool
  pub driver_timeout_ns : ℕ
  pub timer_interval_ns : ℕ
  pub idle_strategy_max_spins : ℕ
  pub idle_strategy_max_yields : ℕ
  pub idle_strategy_min_park_ns : ℕ
  pub idle_strategy_max_park_ns : ℕ

abbrev pub default_context : DriverContext
default_context = record {
  socket_rcvbuf = 2097152;
  socket_sndbuf = 2097152;
  mtu_length = 1408;
  multicast_ttl = 0;
  uring_ring_size = 512;
  uring_recv_slots_per_transport = 16;
  uring_send_slots = 128;
  uring_buf_ring_entries = 256;
  uring_sqpoll = false;
  uring_sqpoll_idle_ms = 1000;
  send_duty_cycle_ratio = 4;
  retransmit_unicast_delay_ns = 0;
  retransmit_unicast_linger_ns = 60000000;
  heartbeat_interval_ns = 100000000;
  term_buffer_length = 65536;
  sm_interval_ns = 200000000;
  nak_delay_ns = 60000000;
  rttm_interval_ns = 1000000000;
  max_receiver_images = 256;
  receiver_window = none;
  send_sm_on_data = false;
  driver_timeout_ns = 10000000000;
  timer_interval_ns = 1000000;
  idle_strategy_max_spins = 10;
  idle_strategy_max_yields = 5;
  idle_strategy_min_park_ns = 1000;
  idle_strategy_max_park_ns = 1000000;
}

-- `x > 0` of an `i64`.
abbrev pub positive : ℕ → Bool
positive x = nonneg64 x && not (x == 0)

pub validate : DriverContext → Result ContextValidationError (Unit {0})
validate c =
    if c.uring_ring_size == 0 || not (is_power_of_two c.uring_ring_size)
    then err ring_size_not_power_of_two
    else if c.uring_buf_ring_entries == 0
    then err buf_ring_entries_zero
    else if not (is_power_below 16 c.uring_buf_ring_entries)
    then err buf_ring_entries_not_power_of_two
    else if ltb 32768 c.uring_buf_ring_entries
    then err buf_ring_entries_too_large
    else if c.uring_send_slots == 0
    then err send_slots_zero
    else if ltb c.mtu_length 64 || ltb max_recv_buffer c.mtu_length
    then err mtu_out_of_range
    else if not (positive c.heartbeat_interval_ns)
    then err heartbeat_interval_zero
    else if not (nonneg64 c.sm_interval_ns)
    then err sm_interval_negative
    else if not (positive c.nak_delay_ns)
    then err nak_delay_zero
    else if not (positive c.timer_interval_ns)
    then err timer_interval_zero
    else if c.socket_rcvbuf == 0
    then err socket_rcvbuf_zero
    else if c.socket_sndbuf == 0
    then err socket_sndbuf_zero
    else if ltb c.term_buffer_length 32 || not (is_power_of_two c.term_buffer_length)
    then err term_buffer_length_invalid
    else if not (positive c.retransmit_unicast_linger_ns)
    then err retransmit_linger_zero
    else if not (positive c.rttm_interval_ns)
    then err rttm_interval_zero
    else if c.max_receiver_images == 0 || ltb 256 c.max_receiver_images
    then err max_receiver_images_invalid
    else if c.idle_strategy_min_park_ns == 0
    then err idle_min_park_zero
    else if ltb c.idle_strategy_max_park_ns c.idle_strategy_min_park_ns
    then err idle_max_park_less_than_min
    else ok tt

-- The backoff with the configured parameters.
pub idle_strategy : DriverContext → IdleStrategy
idle_strategy c = backoff (record {
  max_spins = c.idle_strategy_max_spins;
  max_yields = c.idle_strategy_max_yields;
  min_park_ns = c.idle_strategy_min_park_ns;
  max_park_ns = c.idle_strategy_max_park_ns;
})
