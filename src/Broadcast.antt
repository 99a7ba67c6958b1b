-- ===== src/Broadcast.antt =====
-- src/cnc/broadcast.rs: the buffer that the conductor writes its responses into for all clients, who
-- read with a cursor each. The data region is a memory, and the two counters of the trailer are
-- fields beside it, shared by the transmitter and the receivers.
pub mod Layout
pub mod Transmit
pub mod Receive
mod Tests
use aeron_rs.Prelude.{
  ℕ, zero, suc, ◌+◌, ◌-◌, ◌*◌, ◌/◌, ◌%◌, ◌^◌, Bool, not, ◌||◌, ◌==◌, Option, none, some, List, [],
  ◌∷◌, ltb, leb, if◌then◌else◌, length,
}
use aeron_rs.Prelude.Word.{add64, sub64, lt_i64, sign_extend}
use aeron_rs.Prelude.Memory.{Memory, write_bytes, read_bytes, fill_zero, read_i32, le_bytes}
use aeron_rs.Log.{Result, ok, err, is_power_of_two}
use aeron_rs.Records.{align_record}

abbrev pub record_header_length : ℕ
record_header_length = 8

abbrev pub record_alignment : ℕ
record_alignment = 32

-- -1 as an `i32`.
abbrev pub msg_type_padding : ℕ
msg_type_padding = 2 ^ 32 - 1

pub data BroadcastError : Type 0 where
  invalid_capacity : BroadcastError
  message_too_large : BroadcastError

-- What the transmitter and the receivers share.
pub record BroadcastBuffer : Type 0 where
  pub buffer : Memory
  pub tail_counter : ℕ
  pub latest_counter : ℕ

pub record BroadcastTransmitter : Type 0 where
  pub capacity : ℕ
  pub mask : ℕ
  pub max_record_length : ℕ

pub record BroadcastReceiver : Type 0 where
  pub capacity : ℕ
  pub mask : ℕ
  pub cursor : ℕ
  pub lapped_count : ℕ

unfoldable pub new_transmitter : ℕ → Result BroadcastError BroadcastTransmitter
new_transmitter capacity =
    if ltb capacity record_alignment || not (is_power_of_two capacity)
    then err invalid_capacity
    else ok (record {
      capacity = capacity;
      mask = capacity - 1;
      max_record_length = capacity - record_header_length;
    })

abbrev pub new_receiver : ℕ → ℕ → BroadcastReceiver
new_receiver capacity cursor = record {
  capacity = capacity;
  mask = capacity - 1;
  cursor = cursor;
  lapped_count = 0;
}

abbrev pub write_i32 : Memory → ℕ → ℕ → Memory
write_i32 m offset val = write_bytes m offset (le_bytes 4 val)

-- The zeros behind the payload, the payload, the length, and then the type.
abbrev pub write_record : Memory → ℕ → ℕ → List ℕ → Memory
write_record m index msg_type payload =
    let record_length = length payload + record_header_length in
    let zeroed = fill_zero m (index + record_length) (align_record record_length - record_length) in
    let filled = write_bytes zeroed (index + record_header_length) payload in
    write_i32 (write_i32 filled index (record_length % 2 ^ 32)) (index + 4) msg_type

abbrev pub write_padding : Memory → ℕ → ℕ → Memory
write_padding m index contiguous =
    write_i32 (write_i32 m index contiguous) (index + 4) msg_type_padding

-- `none` for `Ok(())`.
unfoldable pub transmit :
    BroadcastTransmitter → BroadcastBuffer → ℕ → List ℕ → Option BroadcastError × BroadcastBuffer
transmit t b msg_type payload =
    if ltb t.capacity (length payload + record_header_length)
    then (some message_too_large, b)
    else if ltb contiguous aligned_length
    then (
      none,
      record {
        buffer =
            write_record (write_padding b.buffer tail_index (contiguous % 2 ^ 32)) 0 msg_type
              payload;
        tail_counter = add64 new_tail aligned_length;
        latest_counter = new_tail;
      },
    )
    else (
      none,
      record {
        buffer = write_record b.buffer tail_index msg_type payload;
        tail_counter = add64 b.tail_counter aligned_length;
        latest_counter = b.tail_counter;
      },
    )
  where
    aligned_length : ℕ
    aligned_length = align_record (length payload + record_header_length)

    tail_index : ℕ
    tail_index = b.tail_counter % (t.mask + 1)

    contiguous : ℕ
    contiguous = t.capacity - tail_index

    new_tail : ℕ
    new_tail = add64 b.tail_counter contiguous

-- The loop of `receive` from `current`, with fuel for the rounds left: the calls of `handler`, their
-- number, and the position afterwards.
unfoldable pub receive_loop : ℕ → Memory → ℕ → ℕ → ℕ → ℕ → List (ℕ × List ℕ) × ℕ × ℕ
receive_loop zero m mask tail current messages = ([], messages, current)
receive_loop (suc fuel) m mask tail current messages =
    let skip = receive_loop fuel m mask tail (add64 current aligned) messages in
    let (calls, n, current') =
      receive_loop fuel m mask tail (add64 current aligned) (messages + 1) in
    if current == tail || record_length == 0
    then ([], messages, current)
    else if msg_type == msg_type_padding
    then skip
    else ((msg_type, payload) ∷ calls, n, current')
  where
    index : ℕ
    index = current % (mask + 1)

    -- `as usize` of the `i32`
    record_length : ℕ
    record_length = sign_extend (read_i32 m index)

    msg_type : ℕ
    msg_type = read_i32 m (index + 4)

    aligned : ℕ
    aligned = align_record record_length

    payload : List ℕ
    payload = read_bytes m (index + record_header_length) (sub64 record_length record_header_length)

-- The receiver that was lapped goes on a turn before the tail.
abbrev pub caught_up : BroadcastReceiver → ℕ → BroadcastReceiver
caught_up r tail =
    if lt_i64 r.capacity (sub64 tail r.cursor)
    then record r { cursor = sub64 tail r.capacity; lapped_count = add64 r.lapped_count 1 }
    else r

-- A record advances by 32 bytes or more, so `capacity` rounds are more than the loop makes.
unfoldable pub receive :
    BroadcastReceiver → BroadcastBuffer → (List (ℕ × List ℕ) × ℕ) × BroadcastReceiver
receive r b =
    if r.cursor == b.tail_counter
    then (([], 0), r)
    else (let r' = caught_up r b.tail_counter in
        let (calls, messages, current) =
          receive_loop r.capacity b.buffer r.mask b.tail_counter r'.cursor 0 in
        ((calls, messages), record r' { cursor = current }))
