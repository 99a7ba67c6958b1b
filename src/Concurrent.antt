-- ===== src/Concurrent.antt =====
-- src/media/concurrent_publication.rs: a publication whose publisher and sender are two threads with
-- a handle each, over a shared log buffer. The state behind the `Arc` is passed beside the handle.
-- A frame is written in stores of its own, the length word last; each is a function here. Atomic
-- positions are read and written at once.
pub mod Same
pub mod Scan
pub mod Unseen
pub mod Runs
mod Tests
use aeron_rs.Prelude.{
  ℕ, ◌+◌, ◌-◌, ◌*◌, ◌%◌, ◌^◌, Bool, not, Option, none, some, List, [], ◌∷◌, ltb, leb, if◌then◌else◌,
  length, drop,
}
use aeron_rs.Prelude.Word.{add32, sub32, add64, sub64, sign_extend, lt_i64}
use aeron_rs.Prelude.Memory.{Memory, write_bytes}
use aeron_rs.Frame.{
  data_header_length, current_version, data_flag_begin, data_flag_end, frame_type_data,
}
use aeron_rs.Frame.Data.{DataHeader, bytes}
use aeron_rs.Log.{
  Result, ok, err, partition_count, partition_index, align_frame_length, scan_loop, pad_header,
}
use aeron_rs.Log.Shared
use aeron_rs.Log.Shared.{SharedLogBuffer, atomic_frame_length_store}
use aeron_rs.Publication.{
  OfferError, back_pressured, admin_action, payload_too_large, trailing_zeros, shift_right,
}

pub record PublicationInner : Type 0 where
  pub log : SharedLogBuffer
  pub pub_position : ℕ
  pub sender_position : ℕ
  pub initial_term_id : ℕ
  pub term_length : ℕ
  pub term_length_mask : ℕ
  pub position_bits_to_shift : ℕ
  pub session_id : ℕ
  pub stream_id : ℕ
  pub mtu : ℕ
  pub max_payload_length : ℕ

pub record ConcurrentPublication : Type 0 where
  pub active_term_id : ℕ
  pub term_offset : ℕ
  pub pub_position_local : ℕ

pub record SenderPublication : Type 0 where
  pub sender_position_local : ℕ

unfoldable pub new_concurrent :
    ℕ → ℕ → ℕ → ℕ → ℕ → Option (PublicationInner × ConcurrentPublication × SenderPublication)
new_concurrent session_id stream_id initial_term_id term_length mtu =
    if ltb mtu data_header_length then none else elim (Shared.new term_length) [
      | none ↦ none
      | some log ↦ some (
        record {
          log = log;
          pub_position = 0;
          sender_position = 0;
          initial_term_id = initial_term_id;
          term_length = term_length;
          term_length_mask = term_length - 1;
          position_bits_to_shift = trailing_zeros term_length;
          session_id = session_id;
          stream_id = stream_id;
          mtu = mtu;
          max_payload_length = mtu - data_header_length;
        },
        record { active_term_id = initial_term_id; term_offset = 0; pub_position_local = 0 },
        record { sender_position_local = 0 },
      )
    ]

unfoldable pub compute_position : PublicationInner → ℕ → ℕ → ℕ
compute_position inner term_id term_offset =
    add64 (sign_extend (sub32 term_id inner.initial_term_id) * inner.term_length) term_offset

unfoldable pub rotate_term :
    PublicationInner → ConcurrentPublication → PublicationInner × ConcurrentPublication
rotate_term inner c = (
  record inner {
    log =
        Shared.clean_partition inner.log
          (partition_index (add32 c.active_term_id 1) inner.initial_term_id);
  },
  record c { active_term_id = add32 c.active_term_id 1; term_offset = 0 },
)

-- The header of a data frame, with the placeholder for its length.
abbrev pub open_header : PublicationInner → ConcurrentPublication → DataHeader
open_header inner c = record {
  frame_header = record {
    frame_length = 0;
    version = current_version;
    flags = data_flag_begin + data_flag_end;
    frame_type = frame_type_data;
  };
  term_offset = c.term_offset;
  session_id = inner.session_id;
  stream_id = inner.stream_id;
  term_id = c.active_term_id;
  reserved_value = 0;
}

-- Where the next frame begins in the buffer.
abbrev pub frame_base : PublicationInner → ConcurrentPublication → ℕ
frame_base inner c =
    partition_index c.active_term_id inner.initial_term_id * inner.term_length + c.term_offset

abbrev pub with_buffer : PublicationInner → Memory → PublicationInner
with_buffer inner m = record inner { log = record inner.log { buffer = m } }

-- Step 1: the header with a zero length.
abbrev pub write_header : PublicationInner → ConcurrentPublication → PublicationInner
write_header inner c =
    with_buffer inner
      (write_bytes inner.log.buffer (frame_base inner c) (bytes (open_header inner c)))

-- Step 2: the payload.
abbrev pub write_payload : PublicationInner → ConcurrentPublication → List ℕ → PublicationInner
write_payload inner c payload =
    with_buffer inner
      (write_bytes inner.log.buffer (frame_base inner c + data_header_length) payload)

-- Step 3: the length.
abbrev pub commit : PublicationInner → ConcurrentPublication → List ℕ → PublicationInner
commit inner c payload = with_buffer inner (
    atomic_frame_length_store inner.log.buffer (frame_base inner c)
      ((data_header_length + length payload) % 2 ^ 32))

abbrev pub new_offset : ConcurrentPublication → List ℕ → ℕ
new_offset c payload =
    add32 c.term_offset (align_frame_length (data_header_length + length payload) % 2 ^ 32)

-- Step 4: the publisher's cursor and the position that both threads see.
abbrev pub publish :
    PublicationInner → ConcurrentPublication → List ℕ → PublicationInner × ConcurrentPublication
publish inner c payload =
    let position = compute_position inner c.active_term_id (new_offset c payload) in
    (
      record inner { pub_position = position },
      record c { term_offset = new_offset c payload; pub_position_local = position },
    )

-- The header of the pad frame without its length, and then the length.
abbrev pub write_pad_tail : PublicationInner → ConcurrentPublication → PublicationInner
write_pad_tail inner c = with_buffer inner (
    write_bytes inner.log.buffer (frame_base inner c + 4)
      (drop 4 (bytes (pad_header (inner.term_length - c.term_offset) c.term_offset))))

abbrev pub commit_pad : PublicationInner → ConcurrentPublication → PublicationInner
commit_pad inner c = with_buffer inner (
    atomic_frame_length_store inner.log.buffer (frame_base inner c)
      (inner.term_length - c.term_offset))

abbrev pub has_pad : PublicationInner → ConcurrentPublication → Bool
has_pad inner c = leb data_header_length (inner.term_length - c.term_offset)

abbrev pub max_ahead : PublicationInner → ℕ
max_ahead inner = inner.term_length * (partition_count - 1)

-- The stores of an offer: the shared states between them, in order, and what it ends with.
unfoldable pub offer_stores :
    PublicationInner
    → ConcurrentPublication
    → List ℕ
    → List PublicationInner × Result OfferError ℕ × PublicationInner × ConcurrentPublication
offer_stores inner c payload =
    if ltb inner.max_payload_length (length payload)
    then ([], err payload_too_large, inner, c)
    else if not (lt_i64 (sub64 c.pub_position_local inner.sender_position) (max_ahead inner))
    then ([], err back_pressured, inner, c)
    else if ltb inner.term_length (new_offset c payload)
    then (let tail = write_pad_tail inner c in
        let pad = commit_pad tail c in
        let padded = if has_pad inner c then pad else inner in
        let (inner', c') = rotate_term padded c in
        (if has_pad inner c then tail ∷ pad ∷ [] else [], err admin_action, inner', c'))
    else (let opened = write_header inner c in
        let filled = write_payload opened c payload in
        let written = commit filled c payload in
        let (inner', c') = publish written c payload in
        (opened ∷ filled ∷ written ∷ [], ok c'.pub_position_local, inner', c'))

abbrev pub outcome :
    List PublicationInner × Result OfferError ℕ × PublicationInner × ConcurrentPublication
    → Result OfferError ℕ × PublicationInner × ConcurrentPublication
outcome (_, result, inner', c') = (result, inner', c')

unfoldable pub offer :
    PublicationInner
    → ConcurrentPublication
    → List ℕ
    → Result OfferError ℕ × PublicationInner × ConcurrentPublication
offer inner c payload = outcome (offer_stores inner c payload)

-- Scans read the length of a frame by an atomic load; their loop is that of the raw log.
unfoldable pub scan_term_at : PublicationInner → ℕ → ℕ → ℕ → List (ℕ × List ℕ) × ℕ
scan_term_at inner partition_idx offset limit =
    if leb partition_count partition_idx
    then ([], 0)
    else scan_loop inner.term_length inner.log.buffer (partition_idx * inner.term_length)
        inner.term_length limit offset 0

abbrev pub sender_term_id : PublicationInner → SenderPublication → ℕ
sender_term_id inner s =
    add32 inner.initial_term_id
      (shift_right s.sender_position_local inner.position_bits_to_shift % 2 ^ 32)

abbrev pub sender_term_offset : PublicationInner → SenderPublication → ℕ
sender_term_offset inner s = s.sender_position_local % (inner.term_length_mask + 1)

unfoldable pub sender_scan :
    PublicationInner
    → SenderPublication
    → ℕ
    → (List (ℕ × List ℕ) × ℕ) × PublicationInner × SenderPublication
sender_scan inner s limit =
    let term_offset = sender_term_offset inner s in
    let remaining_in_term = inner.term_length - term_offset in
    let effective_limit = if ltb limit remaining_in_term then limit else remaining_in_term in
    let part_idx = partition_index (sender_term_id inner s) inner.initial_term_id in
    let (calls, scanned) =
      scan_loop inner.term_length inner.log.buffer (part_idx * inner.term_length) inner.term_length
        effective_limit term_offset 0 in
    let position = add64 s.sender_position_local scanned in
    if ltb 0 scanned
    then (
      (calls, scanned),
      record inner { sender_position = position },
      record { sender_position_local = position },
    )
    else ((calls, scanned), inner, s)

-- What the sender can tell of the publisher's cursor from the published position.
abbrev pub active_term_id_approx : PublicationInner → ℕ
active_term_id_approx inner =
    add32 inner.initial_term_id
      (shift_right inner.pub_position inner.position_bits_to_shift % 2 ^ 32)

abbrev pub term_offset_approx : PublicationInner → ℕ
term_offset_approx inner = inner.pub_position % (inner.term_length_mask + 1)
