-- ===== src/Frame.antt =====
-- src/frame.rs: the wire frames. A `repr(C, packed)` struct on a little-endian target is the
-- concatenation of its fields' bytes; `parse` is an overlay, so it reads each field at its offset,
-- and `write` copies the bytes over the start of the buffer, which has room (`debug_assert`). The headers have a child each.
pub mod Data
pub mod Status
pub mod Nak
pub mod Setup
pub mod Rttm
pub mod Laws
mod Tests
use aeron_rs.Prelude.{
  ℕ, Bool, ◌≡◌, Option, none, some, List, ◌++◌, ltb, ◌==◌, if◌then◌else◌, length, take, drop,
}
use aeron_rs.Prelude.Memory.{le_bytes, of_le}

abbrev pub frame_header_length : ℕ
frame_header_length = 8

abbrev pub data_header_length : ℕ
data_header_length = 32

abbrev pub sm_header_length : ℕ
sm_header_length = 36

abbrev pub nak_header_length : ℕ
nak_header_length = 28

abbrev pub setup_header_length : ℕ
setup_header_length = 40

abbrev pub rttm_header_length : ℕ
rttm_header_length = 40

abbrev pub current_version : ℕ
current_version = 0

abbrev pub frame_type_pad : ℕ
frame_type_pad = 0

abbrev pub frame_type_data : ℕ
frame_type_data = 1

abbrev pub frame_type_nak : ℕ
frame_type_nak = 0x0002

abbrev pub frame_type_sm : ℕ
frame_type_sm = 0x0003

abbrev pub frame_type_err : ℕ
frame_type_err = 0x0004

abbrev pub frame_type_setup : ℕ
frame_type_setup = 0x0005

abbrev pub frame_type_rttm : ℕ
frame_type_rttm = 0x0006

abbrev pub frame_type_resolution : ℕ
frame_type_resolution = 0x0007

abbrev pub frame_type_heartbeat : ℕ
frame_type_heartbeat = 0x0008

abbrev pub data_flag_begin : ℕ
data_flag_begin = 0x80

abbrev pub data_flag_end : ℕ
data_flag_end = 0x40

-- The number in the `n` bytes from offset `off`.
abbrev pub field : List ℕ → ℕ → ℕ → ℕ
field buf off n = of_le (take n (drop off buf))

pub record FrameHeader : Type 0 where
  pub frame_length : ℕ
  pub version : ℕ
  pub flags : ℕ
  pub frame_type : ℕ

abbrev pub frame_header_bytes : FrameHeader → List ℕ
frame_header_bytes h =
    le_bytes 4 h.frame_length
    ++ (le_bytes 1 h.version ++ (le_bytes 1 h.flags ++ le_bytes 2 h.frame_type))

abbrev pub overlay_frame_header : List ℕ → FrameHeader
overlay_frame_header buf = record {
  frame_length = field buf 0 4;
  version = field buf 4 1;
  flags = field buf 5 1;
  frame_type = field buf 6 2;
}

pub parse : List ℕ → Option FrameHeader
parse buf = if ltb (length buf) frame_header_length then none else some (overlay_frame_header buf)

-- `none` where the `debug_assert` on the length of the buffer fails.
pub write : FrameHeader → List ℕ → Option (List ℕ)
write h buf =
    if ltb (length buf) frame_header_length
    then none
    else some (frame_header_bytes h ++ drop frame_header_length buf)

-- The write into this buffer succeeds, what it leaves parses to the header, and the bytes from `n`
-- on are those of the buffer.
abbrev pub ReadBack {ℓ} :
    {H : Type ℓ} → (H → List ℕ → Option (List ℕ)) → (List ℕ → Option H) → ℕ → H → List ℕ → Type ℓ
ReadBack write parse n h buf =
    (out : List ℕ) × (write h buf ≡ some out) × (parse out ≡ some h) × (drop n out ≡ drop n buf)

pub data FrameType : Type 0 where
  pad dat nak status_message error setup rttm resolution heartbeat : FrameType
  unknown : ℕ → FrameType

pub frame_type_from : ℕ → FrameType
frame_type_from val =
    if val == frame_type_pad
    then pad
    else if val == frame_type_data
    then dat
    else if val == frame_type_nak
    then nak
    else if val == frame_type_sm
    then status_message
    else if val == frame_type_err
    then error
    else if val == frame_type_setup
    then setup
    else if val == frame_type_rttm
    then rttm
    else if val == frame_type_resolution
    then resolution
    else if val == frame_type_heartbeat
    then heartbeat
    else unknown val

pub classify_frame : List ℕ → Option FrameType
classify_frame buf = elim (parse buf) [
  | none ↦ none
  | some hdr ↦ some (frame_type_from hdr.frame_type)
]
