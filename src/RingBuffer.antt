-- ===== src/RingBuffer.antt =====
-- src/cnc/ring_buffer.rs: the ring that client processes write commands into and the conductor reads.
-- The data region is a memory; the two positions of the trailer are fields. A write claims its bytes
-- by one exchange of the tail, and fills them afterwards: the two steps are functions of their own.
pub mod Layout
pub mod Room
pub mod Write
pub mod Read
pub mod Stale
mod Tests
use aeron_rs.Prelude.{
  ℕ, zero, suc, ◌+◌, ◌-◌, ◌*◌, ◌/◌, ◌%◌, ◌^◌, Bool, not, ◌&&◌, ◌||◌, ◌==◌, Option, none, some, List,
  [], ◌∷◌, ltb, leb, if◌then◌else◌, length,
}
use aeron_rs.Prelude.Word.{add64, sub64, lt_i64, sign_extend}
use aeron_rs.Prelude.Memory.{Memory, write_bytes, read_bytes, fill_zero, read_i32, le_bytes}
use aeron_rs.Log.{Result, ok, err, is_power_of_two}

abbrev pub record_header_length : ℕ
record_header_length = 8

abbrev pub record_alignment : ℕ
record_alignment = 32

-- -1 as an `i32`.
abbrev pub msg_type_padding : ℕ
msg_type_padding = 2 ^ 32 - 1

abbrev pub trailer_length : ℕ
trailer_length = 128

pub data RingBufferError : Type 0 where
  invalid_capacity : RingBufferError
  buffer_too_small : RingBufferError
  message_too_large : RingBufferError
  full : RingBufferError

abbrev pub align_record : ℕ → ℕ
align_record len = (len + record_alignment - 1) / record_alignment * record_alignment

abbrev pub required_buffer_size : ℕ → ℕ
required_buffer_size capacity = capacity + trailer_length

pub record MpscRingBuffer : Type 0 where
  pub buffer : Memory
  pub capacity : ℕ
  pub mask : ℕ
  pub max_record_length : ℕ
  pub head_position : ℕ
  pub tail_position : ℕ

-- Over a buffer with the positions of its trailer.
unfoldable pub new : Memory → ℕ → ℕ → ℕ → Result RingBufferError MpscRingBuffer
new buffer head tail capacity =
    if ltb capacity record_alignment || not (is_power_of_two capacity)
    then err invalid_capacity
    else ok (record {
      buffer = buffer;
      capacity = capacity;
      mask = capacity - 1;
      max_record_length = capacity - record_header_length;
      head_position = head;
      tail_position = tail;
    })

abbrev pub write_i32 : Memory → ℕ → ℕ → Memory
write_i32 m offset val = write_bytes m offset (le_bytes 4 val)

-- Where a claimed record goes: at the tail, or behind a padding record at the tail, at 0.
pub data Claim : Type 0 where
  contiguous : ℕ → Claim
  wrapped : (tail_index : ℕ) → (pad_length : ℕ) → Claim

-- The exchange of the tail, when no other producer comes between.
unfoldable pub claim : MpscRingBuffer → ℕ → Result RingBufferError Claim × MpscRingBuffer
claim r aligned_length =
    if lt_i64 available aligned_length
    then (err full, r)
    else if ltb contiguous_length aligned_length
    then if lt_i64 available (contiguous_length + aligned_length) then (err full, r) else (
      ok (wrapped tail_index contiguous_length),
      record r { tail_position = add64 r.tail_position (contiguous_length + aligned_length) },
    )
    else (
      ok (contiguous tail_index),
      record r { tail_position = add64 r.tail_position aligned_length },
    )
  where
    available : ℕ
    available = sub64 r.capacity (sub64 r.tail_position r.head_position)

    tail_index : ℕ
    tail_index = r.tail_position % (r.mask + 1)

    contiguous_length : ℕ
    contiguous_length = r.capacity - tail_index

-- A padding record: its type, then its length.
abbrev pub put_padding : Memory → ℕ → ℕ → Memory
put_padding m index pad_length =
    write_i32 (write_i32 m index msg_type_padding) (index + 4) pad_length

-- A record: the zeros behind the payload, the payload, the length, and then the type.
abbrev pub put_record : Memory → ℕ → ℕ → List ℕ → Memory
put_record m index msg_type payload =
    let record_length = length payload + record_header_length in
    let zeroed = fill_zero m (index + record_length) (align_record record_length - record_length) in
    let filled = write_bytes zeroed (index + record_header_length) payload in
    write_i32 (write_i32 filled (index + 4) (record_length % 2 ^ 32)) index msg_type

abbrev pub fill : MpscRingBuffer → Claim → ℕ → List ℕ → MpscRingBuffer
fill r (contiguous tail_index) msg_type payload = record r {
  buffer = put_record r.buffer tail_index msg_type payload;
}
fill r (wrapped tail_index pad_length) msg_type payload = record r {
  buffer = put_record (put_padding r.buffer tail_index (pad_length % 2 ^ 32)) 0 msg_type payload;
}

-- What a producer does with its claim.
abbrev pub write_claimed :
    Result RingBufferError Claim × MpscRingBuffer
    → ℕ
    → List ℕ
    → Option RingBufferError × MpscRingBuffer
write_claimed (err e, r) msg_type payload = (some e, r)
write_claimed (ok c, r) msg_type payload = (none, fill r c msg_type payload)

-- `none` for `Ok(())`.
unfoldable pub write : MpscRingBuffer → ℕ → List ℕ → Option RingBufferError × MpscRingBuffer
write r msg_type payload =
    if ltb r.capacity (length payload + record_header_length)
    then (some message_too_large, r)
    else write_claimed (claim r (align_record (length payload + record_header_length))) msg_type
        payload

-- The loop of `read` from `current`, with fuel for the rounds left: the calls of `handler`, their
-- number, the buffer and the position afterwards.
unfoldable pub read_loop : ℕ → Memory → ℕ → ℕ → ℕ → ℕ → List (ℕ × List ℕ) × ℕ × Memory × ℕ
read_loop zero m mask tail current messages = ([], messages, m, current)
read_loop (suc fuel) m mask tail current messages =
    let skip = read_loop fuel cleared mask tail (add64 current aligned) messages in
    let (calls, n, m', current') =
      read_loop fuel cleared mask tail (add64 current aligned) (messages + 1) in
    if current == tail || msg_type == 0
    then ([], messages, m, current)
    else if msg_type == msg_type_padding
    then skip
    else ((msg_type, payload) ∷ calls, n, m', current')
  where
    index : ℕ
    index = current % (mask + 1)

    msg_type : ℕ
    msg_type = read_i32 m index

    -- `as usize` of the `i32`
    record_length : ℕ
    record_length = sign_extend (read_i32 m (index + 4))

    aligned : ℕ
    aligned = align_record record_length

    payload : List ℕ
    payload = read_bytes m (index + record_header_length) (sub64 record_length record_header_length)

    cleared : Memory
    cleared = write_i32 m index 0

-- A record advances by 32 bytes or more, so `capacity` rounds are more than the loop makes.
unfoldable pub read : MpscRingBuffer → (List (ℕ × List ℕ) × ℕ) × MpscRingBuffer
read r =
    if r.head_position == r.tail_position
    then (([], 0), r)
    else (let (calls, messages, buffer, current) =
          read_loop r.capacity r.buffer r.mask r.tail_position r.head_position 0 in
        ((calls, messages), record r { buffer = buffer; head_position = current }))

abbrev pub size : MpscRingBuffer → ℕ
size r = sub64 r.tail_position r.head_position
