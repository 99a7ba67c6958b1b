-- ===== src/Frame/Data.antt =====
-- The 32-byte Data (or Pad) frame header.
use aeron_rs.Prelude.{
  ℕ, ◌^◌, ◌<◌, ◌≡◌, Option, none, some, List, [], ◌++◌, arith, ltb, leb, ◌&&◌, ◌-◌, if◌then◌else◌,
  length, take, drop,
}
use aeron_rs.Prelude.Word.{sign_extend}
use aeron_rs.Prelude.Memory.{
  le_bytes, of_le-le_bytes_1, of_le-le_bytes_2, of_le-le_bytes_4, of_le-le_bytes_8,
}
use aeron_rs.Frame.{
  FrameHeader, frame_header_bytes, overlay_frame_header, field, data_header_length,
}

pub record DataHeader : Type 0 where
  pub frame_header : FrameHeader
  pub term_offset : ℕ
  pub session_id : ℕ
  pub stream_id : ℕ
  pub term_id : ℕ
  pub reserved_value : ℕ

abbrev pub overlay : List ℕ → DataHeader
overlay buf = record {
  frame_header = overlay_frame_header buf;
  term_offset = field buf 8 4;
  session_id = field buf 12 4;
  stream_id = field buf 16 4;
  term_id = field buf 20 4;
  reserved_value = field buf 24 8;
}

pub parse : List ℕ → Option DataHeader
parse buf = if ltb (length buf) data_header_length then none else some (overlay buf)

abbrev pub bytes : DataHeader → List ℕ
bytes h =
    frame_header_bytes h.frame_header
    ++ (le_bytes 4 h.term_offset
        ++ (le_bytes 4 h.session_id
            ++ (le_bytes 4 h.stream_id ++ (le_bytes 4 h.term_id ++ (le_bytes 8 h.reserved_value)))))

unfoldable pub payload : DataHeader → List ℕ → List ℕ
payload h buf =
    if ltb data_header_length (sign_extend h.frame_header.frame_length)
      && leb (sign_extend h.frame_header.frame_length) (length buf)
    then take (sign_extend h.frame_header.frame_length - data_header_length)
        (drop data_header_length buf)
    else []

-- The fields are values of their types.
pub record InRange (h : DataHeader) : Type 0 where
  pub frame_length : h.frame_header.frame_length < 2 ^ 32
  pub version : h.frame_header.version < 2 ^ 8
  pub flags : h.frame_header.flags < 2 ^ 8
  pub frame_type : h.frame_header.frame_type < 2 ^ 16
  pub term_offset : h.term_offset < 2 ^ 32
  pub session_id : h.session_id < 2 ^ 32
  pub stream_id : h.stream_id < 2 ^ 32
  pub term_id : h.term_id < 2 ^ 32
  pub reserved_value : h.reserved_value < 2 ^ 64

overlay-bytes : (h : DataHeader) (rest : List ℕ) → InRange h → overlay (bytes h ++ rest) ≡ h
overlay-bytes h rest v = λ i. record {
  frame_header = record {
    frame_length = of_le-le_bytes_4 _ v.frame_length i;
    version = of_le-le_bytes_1 _ v.version i;
    flags = of_le-le_bytes_1 _ v.flags i;
    frame_type = of_le-le_bytes_2 _ v.frame_type i;
  };
  term_offset = of_le-le_bytes_4 _ v.term_offset i;
  session_id = of_le-le_bytes_4 _ v.session_id i;
  stream_id = of_le-le_bytes_4 _ v.stream_id i;
  term_id = of_le-le_bytes_4 _ v.term_id i;
  reserved_value = of_le-le_bytes_8 _ v.reserved_value i;
}

-- The bytes of a header are parsed to it, whatever follows them.
pub parse-bytes : (h : DataHeader) (rest : List ℕ) → InRange h → parse (bytes h ++ rest) ≡ some h
unfolding parse
parse-bytes h rest v = rw (overlay-bytes h rest v) (ground arith)
