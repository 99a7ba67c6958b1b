-- ===== src/RingBuffer/Room.antt =====
-- When a claim at the tail is refused, and where it goes.
use aeron_rs.Prelude.{ℕ, ◌+◌, ◌-◌, ◌%◌, ◌^◌, ◌≤◌, ◌<◌, ◌≡◌, List, arith}
use aeron_rs.Log.{ok, err}
use aeron_rs.RingBuffer.{MpscRingBuffer, full, contiguous, wrapped, claim}
use aeron_rs.Records.{Entry}
use aeron_rs.RingBuffer.Layout.{Lay}

-- The ring between two calls: the records from the head to the tail.
pub record Ringed (r : MpscRingBuffer) (es : List Entry) : Type 0 where
  pub mask : r.mask + 1 ≡ r.capacity
  pub aligned : r.capacity % 32 ≡ 0
  pub positive : 32 ≤ r.capacity
  pub large : r.capacity ≤ 2 ^ 30
  pub tail_aligned : r.tail_position % 32 ≡ 0
  pub ahead : r.head_position ≤ r.tail_position
  pub bounded : r.tail_position ≤ r.head_position + r.capacity
  pub small : r.tail_position < 2 ^ 62
  pub laid : Lay r.buffer r.capacity r.head_position es r.tail_position

-- The bytes between the tail and the end of the ring.
abbrev pub to_end : MpscRingBuffer → ℕ
to_end r = r.capacity - r.tail_position % r.capacity

module _ (r : MpscRingBuffer) (es : List Entry) (v : Ringed r es) where
  pub claim_full :
      (n : ℕ)
      → n ≤ r.capacity
      → r.head_position + r.capacity < r.tail_position + n
      → claim r n ≡ (err full, r)
  unfolding claim
  claim_full n le no_room = rw v.mask (ground (arith, v.large, v.ahead, v.bounded, v.small))

  pub claim_full_end :
      (n : ℕ)
      → n ≤ r.capacity
      → to_end r < n
      → r.head_position + r.capacity < r.tail_position + (to_end r + n)
      → claim r n ≡ (err full, r)
  unfolding claim
  claim_full_end n le short no_room =
      rw v.mask (ground (arith, v.large, v.ahead, v.bounded, v.small))

  pub claim_wrapped :
      (n : ℕ)
      → n ≤ r.capacity
      → to_end r < n
      → r.tail_position + (to_end r + n) ≤ r.head_position + r.capacity
      → claim r n ≡ (
        ok (wrapped (r.tail_position % r.capacity) (to_end r)),
        record r { tail_position = r.tail_position + (to_end r + n) },
      )
  unfolding claim
  claim_wrapped n le short room = rw v.mask (ground (arith, v.large, v.ahead, v.bounded, v.small))

  pub claim_contiguous :
      (n : ℕ)
      → n ≤ to_end r
      → r.tail_position + n ≤ r.head_position + r.capacity
      → claim r n ≡ (
        ok (contiguous (r.tail_position % r.capacity)),
        record r { tail_position = r.tail_position + n },
      )
  unfolding claim
  claim_contiguous n le room = rw v.mask (ground (arith, v.large, v.ahead, v.bounded, v.small))
