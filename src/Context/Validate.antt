-- ===== src/Context/Validate.antt =====
-- What a validated configuration promises to the other parts.
use aeron_rs.Prelude.{
  ℕ, ◌*◌, ◌^◌, ◌≤◌, ◌<◌, ◌≡◌, ◌↔◌, refl, Bool, true, false, not, ◌||◌, some, arith, ltb, ◌==◌,
  if◌then◌else◌,
}
use aeron_rs.Prelude.Word.{nonneg64}
use aeron_rs.Log.{Result, ok, err, RawLog, is_power_below, is_power_of_two}
use aeron_rs.Log
use native.Mathlib.Nat.{pow-le-pow_right}
use aeron_rs.Log.New.{is_power_below_inv}
use aeron_rs.Publication.{NetworkPublication}
use aeron_rs.Publication
use aeron_rs.Context.{ContextValidationError, DriverContext, max_recv_buffer, positive, validate}

-- A power of two below 2 ^ n.
abbrev pub IsPower : ℕ → ℕ → Type 0
IsPower n x = (k : ℕ) × (k < n) × (x ≡ 2 ^ k)

-- The bounds that the errors of `validate` name. The other fields, `send_duty_cycle_ratio`,
-- `uring_recv_slots_per_transport` and `retransmit_unicast_delay_ns` among them, have none.
pub record IsValid (c : DriverContext) : Type 0 where
  pub ring_size : is_power_of_two c.uring_ring_size ≡ true
  pub ring_positive : 0 < c.uring_ring_size
  pub entries : is_power_below 16 c.uring_buf_ring_entries ≡ true
  pub entries_positive : 0 < c.uring_buf_ring_entries
  pub entries_small : c.uring_buf_ring_entries ≤ 32768
  pub send_slots : 0 < c.uring_send_slots
  pub mtu : 64 ≤ c.mtu_length
  pub mtu_small : c.mtu_length ≤ max_recv_buffer
  pub heartbeat : positive c.heartbeat_interval_ns ≡ true
  pub sm_interval : c.sm_interval_ns < 2 ^ 63
  pub nak_delay : positive c.nak_delay_ns ≡ true
  pub timer : positive c.timer_interval_ns ≡ true
  pub rcvbuf : 0 < c.socket_rcvbuf
  pub sndbuf : 0 < c.socket_sndbuf
  pub term_length : 32 ≤ c.term_buffer_length
  pub term_power : is_power_of_two c.term_buffer_length ≡ true
  pub linger : positive c.retransmit_unicast_linger_ns ≡ true
  pub rttm : positive c.rttm_interval_ns ≡ true
  pub images : 0 < c.max_receiver_images
  pub images_small : c.max_receiver_images ≤ 256
  pub park : 0 < c.idle_strategy_min_park_ns
  pub park_order : c.idle_strategy_min_park_ns ≤ c.idle_strategy_max_park_ns

-- A guard of the chain: its condition holds, or it passes to the rest.
guard_passed :
    (b : Bool) (e : ContextValidationError) (r : Result ContextValidationError (Unit {0}))
    → (if b then err e else r) ≡ ok tt
    → (b ≡ false) × (r ≡ ok tt)
guard_passed true e r h = cc
guard_passed false e r h = (refl, h)

validate_ok : (c : DriverContext) → IsValid c → validate c ≡ ok tt
unfolding validate
validate_ok c v = ground (
  arith, v.ring_size, v.ring_positive, v.entries, v.entries_positive, v.entries_small, v.send_slots,
  v.mtu, v.mtu_small, v.heartbeat, v.sm_interval, v.nak_delay, v.timer, v.rcvbuf, v.sndbuf,
  v.term_length, v.term_power, v.linger, v.rttm, v.images, v.images_small, v.park, v.park_order,
)

validated : (c : DriverContext) → validate c ≡ ok tt → IsValid c
unfolding validate
validated c e =
    let (b0, e0) =
      guard_passed (c.uring_ring_size == 0 || not (is_power_of_two c.uring_ring_size)) _ _ e in
    let (b1, e1) = guard_passed (c.uring_buf_ring_entries == 0) _ _ e0 in
    let (b2, e2) = guard_passed (not (is_power_below 16 c.uring_buf_ring_entries)) _ _ e1 in
    let (b3, e3) = guard_passed (ltb 32768 c.uring_buf_ring_entries) _ _ e2 in
    let (b4, e4) = guard_passed (c.uring_send_slots == 0) _ _ e3 in
    let (b5, e5) = guard_passed (ltb c.mtu_length 64 || ltb max_recv_buffer c.mtu_length) _ _ e4 in
    let (b6, e6) = guard_passed (not (positive c.heartbeat_interval_ns)) _ _ e5 in
    let (b7, e7) = guard_passed (not (nonneg64 c.sm_interval_ns)) _ _ e6 in
    let (b8, e8) = guard_passed (not (positive c.nak_delay_ns)) _ _ e7 in
    let (b9, e9) = guard_passed (not (positive c.timer_interval_ns)) _ _ e8 in
    let (b10, e10) = guard_passed (c.socket_rcvbuf == 0) _ _ e9 in
    let (b11, e11) = guard_passed (c.socket_sndbuf == 0) _ _ e10 in
    let (b12, e12) =
      guard_passed (ltb c.term_buffer_length 32 || not (is_power_of_two c.term_buffer_length)) _ _
        e11 in
    let (b13, e13) = guard_passed (not (positive c.retransmit_unicast_linger_ns)) _ _ e12 in
    let (b14, e14) = guard_passed (not (positive c.rttm_interval_ns)) _ _ e13 in
    let (b15, e15) =
      guard_passed (c.max_receiver_images == 0 || ltb 256 c.max_receiver_images) _ _ e14 in
    let (b16, e16) = guard_passed (c.idle_strategy_min_park_ns == 0) _ _ e15 in
    let (b17, e17) =
      guard_passed (ltb c.idle_strategy_max_park_ns c.idle_strategy_min_park_ns) _ _ e16 in
    record {
      ring_size = ground (arith, b0);
      ring_positive = ground (arith, b0);
      entries = ground (arith, b2);
      entries_positive = ground (arith, b1);
      entries_small = ground (arith, b3);
      send_slots = ground (arith, b4);
      mtu = ground (arith, b5);
      mtu_small = ground (arith, b5);
      heartbeat = ground (arith, b6);
      sm_interval = ground (arith, b7);
      nak_delay = ground (arith, b8);
      timer = ground (arith, b9);
      rcvbuf = ground (arith, b10);
      sndbuf = ground (arith, b11);
      term_length = ground (arith, b12);
      term_power = ground (arith, b12);
      linger = ground (arith, b13);
      rttm = ground (arith, b14);
      images = ground (arith, b15);
      images_small = ground (arith, b15);
      park = ground (arith, b16);
      park_order = ground (arith, b17);
    }

-- `validate` returns `Ok` exactly for the configurations within the bounds that its errors name.
pub validate_lem : (c : DriverContext) → (validate c ≡ ok tt) ↔ IsValid c
validate_lem c = (validated c, validate_ok c)

term_bound : (c : DriverContext) → IsValid c → c.term_buffer_length ≤ 2 ^ 31
unfolding is_power_of_two
term_bound c v =
    let (k, l, e) = is_power_below_inv 32 c.term_buffer_length v.term_power in
    omega (arith, e, pow-le-pow_right {n = 2} (omega arith) {i = k} {j = 31} (omega arith))

-- The term length of a validated configuration makes a raw log.
new_validated :
    (c : DriverContext)
    → IsValid c
    → Log.new c.term_buffer_length
      ≡ some (record {
        buffer = λ _. 0;
        capacity = c.term_buffer_length * 4;
        term_length = c.term_buffer_length;
      })
unfolding Log.new
new_validated c v = ground (arith, v.term_length, v.term_power, term_bound c v)

-- From a validated configuration a publication can be made: its log of four terms is allocated, and
-- a payload of at least 32 bytes fits its packets.
pub new_after_validate :
    (c : DriverContext) (session_id stream_id initial_term_id : ℕ)
    → validate c ≡ ok tt
    → (p : NetworkPublication) × (Publication.new session_id stream_id initial_term_id
          c.term_buffer_length c.mtu_length
        ≡ some p)
      × (p.raw_log.capacity ≡ c.term_buffer_length * 4)
      × (32 ≤ p.max_payload_length)
unfolding Publication.new
new_after_validate c session_id stream_id initial_term_id e =
    let v = validated c e in
    let small : ltb c.mtu_length 32 ≡ false = ground (arith, v.mtu) in
    simp (small, new_validated c v) (_, refl, refl, omega (arith, v.mtu))
