-- ===== src/Log.antt =====
-- src/media/term_buffer.rs: the raw log of a publication, one buffer of four partitions of
-- `term_length` bytes. The `Vec<u8>` is a memory with its length; `u32` sums wrap, as in a release
-- build. A scan returns the calls of `emit` beside the number of bytes scanned.
pub mod Layout
pub mod Scan
pub mod Append
pub mod Pad
pub mod New
pub mod Shared
pub mod Stores
mod Tests
use aeron_rs.Prelude.{
  ℕ, zero, suc, ◌+◌, ◌-◌, ◌*◌, ◌/◌, ◌%◌, ◌^◌, Bool, true, false, ◌&&◌, ◌||◌, not, Option, none,
  some, List, [], ◌∷◌, ◌++◌, ltb, leb, ◌==◌, if◌then◌else◌, length,
}
use aeron_rs.Prelude.Word.{add32, sub32, nonneg32}
use aeron_rs.Prelude.Memory.{Memory, write_bytes, fill_zero, read_bytes, read_i32}
use aeron_rs.Frame.{FrameHeader, data_header_length, current_version, frame_type_pad}
use aeron_rs.Frame.Data.{DataHeader, bytes}

abbrev pub partition_count : ℕ
partition_count = 4

abbrev pub frame_alignment : ℕ
frame_alignment = data_header_length

abbrev pub min_term_length : ℕ
min_term_length = frame_alignment

-- `(len + FRAME_ALIGNMENT - 1) & !(FRAME_ALIGNMENT - 1)`
abbrev pub align_frame_length : ℕ → ℕ
align_frame_length len = (len + (frame_alignment - 1)) / frame_alignment * frame_alignment

-- Whether `x` is one of the powers of two below 2 ^ n.
unfoldable pub is_power_below : ℕ → ℕ → Bool
is_power_below zero x = false
is_power_below (suc n) x = x == 2 ^ n || is_power_below n x

-- `u32::is_power_of_two`
unfoldable pub is_power_of_two : ℕ → Bool
unfolding is_power_below
is_power_of_two x = is_power_below 32 x

pub data AppendError : Type 0 where
  term_full invalid_partition : AppendError

pub data Result {ℓ} (E : Type 0) (A : Type ℓ) : Type ℓ where
  ok : A → Result E A
  err : E → Result E A

pub record RawLog : Type 0 where
  pub buffer : Memory
  pub capacity : ℕ
  pub term_length : ℕ

-- `checked_mul` fails from 2 ^ 64 on.
unfoldable pub new : ℕ → Option RawLog
new term_length =
    if ltb term_length min_term_length || not (is_power_of_two term_length)
    then none
    else if leb (2 ^ 64) (term_length * partition_count)
    then none
    else some (record {
      buffer = λ _. 0;
      capacity = term_length * partition_count;
      term_length = term_length;
    })

-- `& 3` on the wrapped difference.
abbrev pub partition_index : ℕ → ℕ → ℕ
partition_index term_id initial_term_id = sub32 term_id initial_term_id % 4

-- A partition is where it begins; `none` for an index out of range.
abbrev pub partition : RawLog → ℕ → Option ℕ
partition log partition_idx =
    if leb partition_count partition_idx then none else some (partition_idx * log.term_length)

unfoldable pub append_frame : RawLog → ℕ → ℕ → DataHeader → List ℕ → Result AppendError ℕ × RawLog
append_frame log partition_idx term_offset header payload =
    if leb partition_count partition_idx
    then (err invalid_partition, log)
    else if ltb log.term_length new_offset
    then (err term_full, log)
    else (
      ok new_offset,
      record log {
        buffer =
            write_bytes (write_bytes log.buffer base (bytes header)) (base + data_header_length)
              payload;
      },
    )
  where
    new_offset : ℕ
    new_offset =
        add32 term_offset (align_frame_length (data_header_length + length payload) % 2 ^ 32)

    base : ℕ
    base = partition_idx * log.term_length + term_offset

-- The checks that one round of a scan makes on the frame at `pos` of the partition that begins at
-- `base`: `none` for a `break`, else the length of the frame.
unfoldable pub frame_length_at : Memory → ℕ → ℕ → ℕ → Option ℕ
frame_length_at m base term_length pos =
    if ltb (term_length - pos) 4
    then none
    else if frame_length == 0 || not (nonneg32 frame_length)
    then none
    else if ltb frame_length data_header_length
    then none
    else if ltb term_length (pos + align_frame_length frame_length)
    then none
    else some frame_length
  where
    frame_length : ℕ
    frame_length = read_i32 m (base + pos)

-- The loop of a scan, with fuel for the rounds left.
unfoldable pub scan_loop : ℕ → Memory → ℕ → ℕ → ℕ → ℕ → ℕ → List (ℕ × List ℕ) × ℕ
scan_loop zero m base term_length limit pos scanned = ([], scanned)
scan_loop (suc fuel) m base term_length limit pos scanned =
    if ltb pos term_length && ltb scanned limit
    then elim (frame_length_at m base term_length pos) [
      | none ↦ ([], scanned)
      | some len ↦
          let (calls, total) =
            scan_loop fuel m base term_length limit (pos + align_frame_length len)
              (scanned + align_frame_length len) in
          ((pos, read_bytes m (base + pos) len) ∷ calls, total)
    ]
    else ([], scanned)

-- A round advances by at least 32 bytes, so `term_length` rounds are more than the loop makes.
unfoldable pub scan_frames : RawLog → ℕ → ℕ → ℕ → List (ℕ × List ℕ) × ℕ
scan_frames log partition_idx offset limit = elim (partition log partition_idx) [
  | none ↦ ([], 0)
  | some base ↦ scan_loop log.term_length log.buffer base log.term_length limit offset 0
]

unfoldable pub clean_partition : RawLog → ℕ → RawLog
clean_partition log partition_idx = elim (partition log partition_idx) [
  | none ↦ log
  | some base ↦ record log { buffer = fill_zero log.buffer base log.term_length }
]

abbrev pub pad_header : ℕ → ℕ → DataHeader
pad_header remaining term_offset = record {
  frame_header = record {
    frame_length = remaining;
    version = current_version;
    flags = 0;
    frame_type = frame_type_pad;
  };
  term_offset = term_offset;
  session_id = 0;
  stream_id = 0;
  term_id = 0;
  reserved_value = 0;
}

unfoldable pub write_pad_frame : RawLog → ℕ → ℕ → RawLog
write_pad_frame log partition_idx term_offset =
    if leb partition_count partition_idx
    then log
    else if leb log.term_length term_offset
    then log
    else if ltb (log.term_length - term_offset) data_header_length
    then log
    else record log {
      buffer =
          write_bytes log.buffer (partition_idx * log.term_length + term_offset)
            (bytes (pad_header (log.term_length - term_offset) term_offset));
    }
