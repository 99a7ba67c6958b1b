-- ===== src/RingBuffer/Stale.antt =====
-- Two things that go wrong in the ring: a read between the claim and the fill of a record, and a
-- message that no empty ring takes.
use mathlib.Core.Path.{subst}
use aeron_rs.Prelude.{
  ℕ, ◌+◌, ◌%◌, ◌^◌, ◌≤◌, ◌<◌, ◌≡◌, refl, sym, ap, ap₂, ◌∙◌, inl, inr, some, List, [], ◌∷◌, arith,
  length, ◌==◌, if_true,
}
use aeron_rs.Prelude.Memory.{read_i32, read_bytes, length-read_bytes}
use aeron_rs.Log.{Result, ok}
use aeron_rs.RingBuffer.{
  MpscRingBuffer, RingBufferError, full, Claim, contiguous, claim, fill, write, read, align_record,
  msg_type_padding,
}
use aeron_rs.Records.{Entry, message, messages_of}
use aeron_rs.RingBuffer.Layout.{Lay}
use aeron_rs.RingBuffer.Room.{Ringed, to_end, claim_contiguous}
use aeron_rs.RingBuffer.Write.{Holds, needed_far, write_lem}
use aeron_rs.RingBuffer.Read.{read_lem}

-- With the head at the tail a read does nothing.
read_empty : (r : MpscRingBuffer) → r.head_position ≡ r.tail_position → read r ≡ (([], 0), r)
unfolding read
read_empty r e = if_true (r.head_position == r.tail_position) _ _ (ground arith)

-- On an empty ring, a message that the capacity admits, but that fits neither before the end of the
-- ring nor, behind the padding up to there, in what is left, is refused as the ring is full; and a
-- read changes nothing, so that it is refused for ever.
pub empty_ring_is_full :
    (r : MpscRingBuffer) (msg_type : ℕ) (payload : List ℕ)
    → Holds r []
    → r.head_position ≡ r.tail_position
    → 0 < msg_type
    → msg_type < 2 ^ 31
    → r.tail_position + r.capacity + r.capacity < 2 ^ 62
    → length payload + 8 ≤ r.capacity
    → to_end r < align_record (length payload + 8)
    → r.capacity < to_end r + align_record (length payload + 8)
    → (write r msg_type payload ≡ (some full, r)) × (read r ≡ (([], 0), r))
empty_ring_is_full r msg_type payload h e pos low more short far over = (
  elim (write_lem r msg_type payload [] h pos low more) [
    | inl (large, _) ↦ absurd (omega arith)
    | inr (_, inl (_, outcome, same)) ↦ ap₂ (λ a b. (a, b)) outcome same
    | inr (_, inr (outcome, (es, v, q), tail, head, cap)) ↦ absurd (
        omega (
          arith,
          v.bounded,
          tail,
          head,
          e,
          needed_far r (align_record (length payload + 8)) far,
          cap,
          over,
        ))
  ],
  read_empty r e,
)

claimed-Ringed :
    (r : MpscRingBuffer) (msg_type len : ℕ)
    → Ringed r []
    → read_i32 r.buffer (r.tail_position % r.capacity) ≡ msg_type
    → read_i32 r.buffer (r.tail_position % r.capacity + 4) ≡ len + 8
    → 0 < msg_type
    → msg_type < msg_type_padding
    → len + 8 < 2 ^ 31
    → align_record (len + 8) ≤ to_end r
    → r.tail_position + r.capacity < 2 ^ 62
    → Ringed
        (record r { tail_position = r.tail_position + align_record (len + 8) })
        (message msg_type (read_bytes r.buffer (r.tail_position % r.capacity + 8) len) ∷ [])
claimed-Ringed r msg_type len v a b pos low small fits more = record {
  mask = v.mask;
  aligned = v.aligned;
  positive = v.positive;
  large = v.large;
  tail_aligned = omega (arith, v.tail_aligned);
  ahead = omega (arith, v.ahead);
  bounded = omega (arith, v.laid, fits);
  small = omega (arith, more, fits);
  laid =
      subst (λ p. Lay r.buffer r.capacity p (stale ∷ []) (r.tail_position + align_record (len + 8)))
        (sym v.laid)
        (
          (
            a,
            b ∙ ap (λ n. n + 8) (sym size),
            ap (λ n. read_bytes r.buffer (r.tail_position % r.capacity + 8) n) size,
            pos,
            low,
            omega (arith, small, size),
          ),
          omega (arith, fits, size, v.positive, index_lt),
          ap (λ n. r.tail_position + align_record (n + 8)) size,
        );
}
  where
    stale : Entry
    stale = message msg_type (read_bytes r.buffer (r.tail_position % r.capacity + 8) len)

    size : length (read_bytes r.buffer (r.tail_position % r.capacity + 8) len) ≡ len
    size = length-read_bytes r.buffer (r.tail_position % r.capacity + 8) len

    index_lt : r.tail_position % r.capacity < r.capacity
    index_lt = ground (arith, v.positive)

abbrev Taken :
    MpscRingBuffer → ℕ → ℕ → ℕ → List ℕ → Result RingBufferError Claim × MpscRingBuffer → Type 0
Taken r stale_type len msg_type payload (outcome, claimed) =
    let index = r.tail_position % r.capacity in
    (outcome ≡ ok (contiguous index))
    × ((read claimed).0 ≡ ((stale_type, read_bytes r.buffer (index + 8) len) ∷ [], 1))
    × ((read (fill (read claimed).1 (contiguous index) msg_type payload)).0 ≡ ([], 0))

-- On a ring whose records have all been read, where the bytes at the tail look like a record of the
-- claimed size, since a message of an earlier turn was longer than those that lie there now: a read
-- between the claim of a write and its fill hands on these bytes as a message, and a read after the
-- fill hands on nothing, so that the message that is written is lost.
pub stale_bytes_are_read :
    (r : MpscRingBuffer) (stale_type len msg_type : ℕ) (payload : List ℕ)
    → Ringed r []
    → read_i32 r.buffer (r.tail_position % r.capacity) ≡ stale_type
    → read_i32 r.buffer (r.tail_position % r.capacity + 4) ≡ len + 8
    → 0 < stale_type
    → stale_type < msg_type_padding
    → len + 8 < 2 ^ 31
    → align_record (len + 8) ≡ align_record (length payload + 8)
    → align_record (len + 8) ≤ to_end r
    → r.tail_position + r.capacity < 2 ^ 62
    → let index = r.tail_position % r.capacity in
      let (outcome, claimed) = claim r (align_record (length payload + 8)) in
      (outcome ≡ ok (contiguous index))
      × ((read claimed).0 ≡ ((stale_type, read_bytes r.buffer (index + 8) len) ∷ [], 1))
      × ((read (fill (read claimed).1 (contiguous index) msg_type payload)).0 ≡ ([], 0))
unfolding messages_of
stale_bytes_are_read r stale_type len msg_type payload v a b pos low small size fits more =
    let after = record r { tail_position = r.tail_position + align_record (len + 8) } in
    let (calls, count, left, head, tail, cap) =
      read_lem after ((stale_type, read_bytes r.buffer (r.tail_position % r.capacity + 8) len) ∷ [])
        (
          message stale_type (read_bytes r.buffer (r.tail_position % r.capacity + 8) len) ∷ [],
          claimed-Ringed r stale_type len v a b pos low small fits more,
          refl,
        ) in
    subst (Taken r stale_type len msg_type payload)
      (sym (claim_contiguous r [] v (align_record (len + 8)) fits (omega (arith, fits, v.laid)))
        ∙ ap (claim r) size)
      (
        refl,
        ap₂ (λ a b. (a, b)) calls count,
        ap (λ z. z.0)
            (read_empty
              (fill (read after).1 (contiguous (r.tail_position % r.capacity)) msg_type payload)
              (head ∙ sym tail)),
      )
