-- ===== src/Publication.antt =====
-- src/media/network_publication.rs: a publication over a raw log, with its write cursor and the
-- sender's position. `&mut self` is passed and returned; `Err(InvalidState)` is `invalid_state`.
-- Positions are `i64` patterns; `x & term_length_mask` is `x % (term_length_mask + 1)`, the same for
-- the masks 2 ^ k - 1 that `new` builds.
pub mod Span
pub mod State
pub mod Rotate
pub mod Offer
pub mod Scan
pub mod New
pub mod Lapped
mod Tests
use aeron_rs.Prelude.{
  ℕ, zero, suc, ◌+◌, ◌-◌, ◌*◌, ◌/◌, ◌%◌, ◌^◌, Bool, not, Option, none, some, List, [], ltb, leb,
  ◌==◌, if◌then◌else◌, length,
}
use aeron_rs.Prelude.Word.{add32, sub32, add64, sub64, sign_extend, lt_i64}
use aeron_rs.Frame.{
  data_header_length, current_version, data_flag_begin, data_flag_end, frame_type_data,
}
use aeron_rs.Frame.Data.{DataHeader}
use aeron_rs.Log.{
  RawLog, Result, ok, err, AppendError, term_full, invalid_partition, partition_count,
  partition_index, append_frame, write_pad_frame, clean_partition, scan_frames,
}
use aeron_rs.Log

pub data OfferError : Type 0 where
  back_pressured admin_action payload_too_large invalid_state : OfferError

pub record NetworkPublication : Type 0 where
  pub raw_log : RawLog
  pub initial_term_id : ℕ
  pub active_term_id : ℕ
  pub term_offset : ℕ
  pub term_length : ℕ
  pub term_length_mask : ℕ
  pub position_bits_to_shift : ℕ
  pub pub_position : ℕ
  pub sender_position : ℕ
  pub session_id : ℕ
  pub stream_id : ℕ
  pub mtu : ℕ
  pub max_payload_length : ℕ

-- `u32::trailing_zeros`, with fuel for the width.
pub zeros_below : ℕ → ℕ → ℕ
zeros_below zero x = 0
zeros_below (suc n) x = let rest = zeros_below n (x / 2) in if x % 2 == 0 then suc rest else 0

abbrev pub trailing_zeros : ℕ → ℕ
trailing_zeros x = zeros_below 32 x

unfoldable pub new : ℕ → ℕ → ℕ → ℕ → ℕ → Option NetworkPublication
new session_id stream_id initial_term_id term_length mtu =
    if ltb mtu data_header_length then none else elim (Log.new term_length) [
      | none ↦ none
      | some raw_log ↦ some (record {
        raw_log = raw_log;
        initial_term_id = initial_term_id;
        active_term_id = initial_term_id;
        term_offset = 0;
        term_length = term_length;
        term_length_mask = term_length - 1;
        position_bits_to_shift = trailing_zeros term_length;
        pub_position = 0;
        sender_position = 0;
        session_id = session_id;
        stream_id = stream_id;
        mtu = mtu;
        max_payload_length = mtu - data_header_length;
      })
    ]

unfoldable pub compute_position : NetworkPublication → ℕ → ℕ → ℕ
compute_position p term_id term_offset =
    add64 (sign_extend (sub32 term_id p.initial_term_id) * p.term_length) term_offset

unfoldable pub rotate_term : NetworkPublication → NetworkPublication
rotate_term p = record p {
  active_term_id = add32 p.active_term_id 1;
  term_offset = 0;
  raw_log =
      clean_partition p.raw_log (partition_index (add32 p.active_term_id 1) p.initial_term_id);
}

-- The header that `offer` builds for a payload.
abbrev pub data_header : NetworkPublication → List ℕ → DataHeader
data_header p payload = record {
  frame_header = record {
    frame_length = (data_header_length + length payload) % 2 ^ 32;
    version = current_version;
    flags = data_flag_begin + data_flag_end;
    frame_type = frame_type_data;
  };
  term_offset = p.term_offset;
  session_id = p.session_id;
  stream_id = p.stream_id;
  term_id = p.active_term_id;
  reserved_value = 0;
}

-- The `match` on the outcome of the append.
unfoldable pub appended :
    NetworkPublication → Result AppendError ℕ × RawLog → Result OfferError ℕ × NetworkPublication
appended p (ok new_offset, raw_log) =
    let pub_position = compute_position p p.active_term_id new_offset in
    (
      ok pub_position,
      record p { raw_log = raw_log; term_offset = new_offset; pub_position = pub_position },
    )
appended p (err term_full, raw_log) = (
  err admin_action,
  rotate_term (record p {
    raw_log =
        write_pad_frame raw_log (partition_index p.active_term_id p.initial_term_id) p.term_offset;
  }),
)
appended p (err invalid_partition, raw_log) = (err invalid_state, record p { raw_log = raw_log })

abbrev pub max_ahead : NetworkPublication → ℕ
max_ahead p = p.term_length * (partition_count - 1)

unfoldable pub offer : NetworkPublication → List ℕ → Result OfferError ℕ × NetworkPublication
offer p payload =
    if ltb p.max_payload_length (length payload)
    then (err payload_too_large, p)
    else if not (lt_i64 (sub64 p.pub_position p.sender_position) (max_ahead p))
    then (err back_pressured, p)
    else appended p (
        append_frame p.raw_log (partition_index p.active_term_id p.initial_term_id) p.term_offset
          (data_header p payload) payload)

-- `x >> k` of an `i64` copies the sign.
abbrev pub shift_right : ℕ → ℕ → ℕ
shift_right x k = if ltb x (2 ^ 63) then x / 2 ^ k else 2 ^ 64 - 1 - (2 ^ 64 - 1 - x) / 2 ^ k

abbrev pub sender_term_id : NetworkPublication → ℕ
sender_term_id p =
    add32 p.initial_term_id (shift_right p.sender_position p.position_bits_to_shift % 2 ^ 32)

abbrev pub sender_term_offset : NetworkPublication → ℕ
sender_term_offset p = p.sender_position % (p.term_length_mask + 1)

unfoldable pub sender_scan : NetworkPublication → ℕ → (List (ℕ × List ℕ) × ℕ) × NetworkPublication
sender_scan p limit =
    let remaining_in_term = p.term_length - sender_term_offset p in
    let effective_limit = if ltb limit remaining_in_term then limit else remaining_in_term in
    let (calls, scanned) =
      scan_frames p.raw_log (partition_index (sender_term_id p) p.initial_term_id)
        (sender_term_offset p) effective_limit in
    ((calls, scanned), record p { sender_position = add64 p.sender_position scanned })
