-- ===== src/Image.antt =====
-- src/media/shared_image.rs: the log buffer of a received stream, which the receiver agent writes and
-- a subscriber reads, with a handle each. The state behind the `Arc` is passed beside the handle.
-- Atomic words are read and written at once.
pub mod Steps
pub mod Append
pub mod Polled
pub mod Waiting
pub mod Received
pub mod Bounds
pub mod Hazards
pub mod New
mod Tests
use aeron_rs.Prelude.{
  ℕ, zero, suc, ◌+◌, ◌-◌, ◌*◌, ◌%◌, ◌^◌, Bool, not, ◌&&◌, ◌||◌, ◌==◌, Option, none, some, List, [],
  ◌∷◌, ltb, leb, if◌then◌else◌, length, true, false,
}
use aeron_rs.Prelude.Word.{add32, sub32, add64, sub64, sign_extend, lt_i64, nonneg32}
use aeron_rs.Prelude.Memory.{Memory, write_bytes, read_bytes}
use aeron_rs.Frame.{data_header_length, frame_type_pad}
use aeron_rs.Frame.Data.{DataHeader, bytes}
use aeron_rs.Log.{
  Result, ok, err, AppendError, invalid_partition, term_full, partition_count, frame_alignment,
  partition_index, align_frame_length,
}
use aeron_rs.Log.Shared
use aeron_rs.Log.Shared.{SharedLogBuffer, atomic_frame_length_store, atomic_frame_length_load}
use aeron_rs.Publication.{trailing_zeros, shift_right}

pub record ImageInner : Type 0 where
  pub log : SharedLogBuffer
  pub receiver_position : ℕ
  pub subscriber_position : ℕ
  pub closed : Bool
  pub session_id : ℕ
  pub stream_id : ℕ
  pub initial_term_id : ℕ
  pub term_length : ℕ
  pub term_length_mask : ℕ
  pub position_bits_to_shift : ℕ

pub record ReceiverImage : Type 0 where
  pub receiver_position_local : ℕ

pub record SubscriberImage : Type 0 where
  pub subscriber_position_local : ℕ

unfoldable pub new_shared_image :
    ℕ → ℕ → ℕ → ℕ → ℕ → ℕ → Option (ImageInner × ReceiverImage × SubscriberImage)
new_shared_image session_id stream_id initial_term_id active_term_id term_length
      initial_term_offset =
    let initial_position =
      add64 (sign_extend (sub32 active_term_id initial_term_id) * term_length)
        (sign_extend initial_term_offset) in
    elim (Shared.new term_length) [
      | none ↦ none
      | some log ↦ some (
        record {
          log = log;
          receiver_position = initial_position;
          subscriber_position = initial_position;
          closed = false;
          session_id = session_id;
          stream_id = stream_id;
          initial_term_id = initial_term_id;
          term_length = term_length;
          term_length_mask = term_length - 1;
          position_bits_to_shift = trailing_zeros term_length;
        },
        record { receiver_position_local = initial_position },
        record { subscriber_position_local = initial_position },
      )
    ]

abbrev pub with_buffer : ImageInner → Memory → ImageInner
with_buffer inner m = record inner { log = record inner.log { buffer = m } }

-- The copy of the header with a zero length.
abbrev pub hdr_copy : DataHeader → DataHeader
hdr_copy header = record header { frame_header = record header.frame_header { frame_length = 0 } }

unfoldable pub append_frame :
    ImageInner → ℕ → ℕ → DataHeader → List ℕ → Result AppendError ℕ × ImageInner
append_frame inner partition_idx term_offset header payload =
    if leb partition_count partition_idx
    then (err invalid_partition, inner)
    else if ltb inner.term_length new_offset
    then (err term_full, inner)
    else (ok new_offset, with_buffer inner committed)
  where
    raw_len : ℕ
    raw_len = data_header_length + length payload

    new_offset : ℕ
    new_offset = add32 term_offset (align_frame_length raw_len % 2 ^ 32)

    base : ℕ
    base = partition_idx * inner.term_length + term_offset

    -- The header, the payload, and then the length.
    committed : Memory
    committed =
        atomic_frame_length_store
          (write_bytes (write_bytes inner.log.buffer base (bytes (hdr_copy header)))
            (base + data_header_length) payload)
          base (raw_len % 2 ^ 32)

unfoldable pub advance_receiver_position :
    ImageInner → ReceiverImage → ℕ → ImageInner × ReceiverImage
advance_receiver_position inner r new_pos =
    (record inner { receiver_position = new_pos }, record { receiver_position_local = new_pos })

unfoldable pub check_back_pressure : ImageInner → ReceiverImage → Bool
check_back_pressure inner r =
    let max_ahead = inner.term_length * (partition_count - 1) in
    not (lt_i64 (sub64 r.receiver_position_local inner.subscriber_position) max_ahead)

unfoldable pub clean_partition : ImageInner → ℕ → ImageInner
clean_partition inner partition_idx = record inner {
  log = Shared.clean_partition inner.log partition_idx;
}

unfoldable pub close : ImageInner → ImageInner
close inner = record inner { closed = true }

-- What `handler` is called with.
pub record Fragment : Type 0 where
  pub payload : List ℕ
  pub session_id : ℕ
  pub stream_id : ℕ

-- `frame_length > 0` of an `i32`.
abbrev pub committed_length : ℕ → Bool
committed_length frame_length = not (frame_length == 0) && nonneg32 frame_length

-- The loop over a gap at `pos`, with fuel for the rounds left: how far the next committed length
-- lies, or the end of the term.
unfoldable pub skip_gap : ℕ → Memory → ℕ → ℕ → ℕ → ℕ → ℕ
skip_gap zero m part_base term_length pos skip = skip
skip_gap (suc fuel) m part_base term_length pos skip =
    let rest = skip_gap fuel m part_base term_length pos (skip + frame_alignment) in
    if ltb (pos + skip) term_length
    then if committed_length (atomic_frame_length_load m (part_base + (pos + skip)))
      then skip
      else rest
    else skip

abbrev pub clamp_skip : ℕ → ℕ → ℕ → ℕ
clamp_skip term_length pos skip = if ltb term_length (pos + skip) then term_length - pos else skip

abbrev pub frame_type_at : Memory → ℕ → ℕ
frame_type_at m offset = m (offset + 6) + 256 * m (offset + 7)

-- What a round of the poll does: it ends the loop, or goes on behind some bytes, and calls the
-- handler with a payload or not.
pub data Round : Type 0 where
  stop : Round
  skipped : ℕ → Round
  delivered : ℕ → List ℕ → Round

-- The round at `pos`. The length word, the receiver's position and the words behind a gap are three
-- loads, and each may find another state of what is shared: `loaded` and `m` are the buffer at the
-- first and from the last on, `receiver_position` is that of the second.
unfoldable pub poll_round : Memory → ℕ → Memory → ℕ → ℕ → ℕ → ℕ → Round
poll_round loaded receiver_position m part_base term_length pos current_pos =
    if ltb (term_length - pos) 4
    then stop
    else if not (committed_length frame_length)
    then if not (lt_i64 current_pos receiver_position)
      then stop
      else skipped (
          clamp_skip term_length pos
            (skip_gap term_length m part_base term_length pos frame_alignment))
    else if ltb frame_length data_header_length
    then stop
    else if ltb term_length (pos + align_frame_length frame_length)
    then stop
    else if frame_type_at m byte_offset == frame_type_pad
    then skipped (align_frame_length frame_length)
    else delivered (align_frame_length frame_length)
        (read_bytes m (byte_offset + data_header_length) (frame_length - data_header_length))
  where
    byte_offset : ℕ
    byte_offset = part_base + pos

    frame_length : ℕ
    frame_length = atomic_frame_length_load loaded byte_offset

-- The loop of the poll, with fuel for the rounds left: the payloads, their number, and the bytes
-- scanned.
unfoldable pub poll_loop : ℕ → Memory → ℕ → ℕ → ℕ → ℕ → ℕ → ℕ → ℕ → ℕ → List (List ℕ) × ℕ × ℕ
poll_loop zero m receiver_position part_base term_length position limit pos fragments scanned =
    ([], fragments, scanned)
poll_loop (suc fuel) m receiver_position part_base term_length position limit pos fragments
      scanned =
    if ltb pos term_length && ltb fragments limit
    then elim (poll_round m receiver_position m part_base term_length pos
        (add64 position scanned)) [
          | stop ↦ ([], fragments, scanned)
          | skipped n ↦
              poll_loop fuel m receiver_position part_base term_length position limit (pos + n)
                fragments (scanned + n)
          | delivered n payload ↦
              let (payloads, n_fragments, total) =
                poll_loop fuel m receiver_position part_base term_length position limit (pos + n)
                  (fragments + 1) (scanned + n) in
              (payload ∷ payloads, n_fragments, total)
        ]
    else ([], fragments, scanned)

abbrev pub subscriber_term_id : ImageInner → SubscriberImage → ℕ
subscriber_term_id inner s =
    add32 inner.initial_term_id
      (shift_right s.subscriber_position_local inner.position_bits_to_shift % 2 ^ 32)

abbrev pub subscriber_term_offset : ImageInner → SubscriberImage → ℕ
subscriber_term_offset inner s = s.subscriber_position_local % (inner.term_length_mask + 1)

abbrev pub fragments_of : ImageInner → List (List ℕ) → List Fragment
fragments_of inner [] = []
fragments_of inner (p ∷ ps) =
    record { payload = p; session_id = inner.session_id; stream_id = inner.stream_id }
    ∷ fragments_of inner ps

-- Without another thread between its loads. It returns how many fragments there are.
unfoldable pub poll_fragments :
    ImageInner → SubscriberImage → ℕ → (List Fragment × ℕ) × ImageInner × SubscriberImage
poll_fragments inner s limit =
    if limit == 0 || not (nonneg32 limit)
    then (([], 0), inner, s)
    else (let term_offset = subscriber_term_offset inner s in
        let part_idx = partition_index (subscriber_term_id inner s) inner.initial_term_id in
        let (payloads, fragments, scanned) =
          poll_loop inner.term_length inner.log.buffer inner.receiver_position
            (part_idx * inner.term_length) inner.term_length s.subscriber_position_local limit
            term_offset 0 0 in
        let position = add64 s.subscriber_position_local scanned in
        if ltb 0 scanned
        then (
          (fragments_of inner payloads, fragments),
          record inner { subscriber_position = position },
          record { subscriber_position_local = position },
        )
        else ((fragments_of inner payloads, fragments), inner, s))

abbrev pub is_closed : ImageInner → Bool
is_closed inner = inner.closed
