-- ===== src/Frame/Rttm.antt =====
-- The 40-byte RTT measurement frame.
use aeron_rs.Prelude.{
  ℕ, ◌^◌, ◌<◌, ◌≡◌, ◌≤◌, refl, Option, none, some, List, ◌++◌, arith, ltb, if◌then◌else◌, length,
  drop,
}
use aeron_rs.Prelude.Memory.{
  le_bytes, of_le-le_bytes_1, of_le-le_bytes_2, of_le-le_bytes_4, of_le-le_bytes_8,
}
use aeron_rs.Frame.{
  ReadBack, FrameHeader, frame_header_bytes, overlay_frame_header, field, rttm_header_length,
}

pub record RttmHeader : Type 0 where
  pub frame_header : FrameHeader
  pub session_id : ℕ
  pub stream_id : ℕ
  pub echo_timestamp : ℕ
  pub reception_delta : ℕ
  pub receiver_id : ℕ

abbrev pub overlay : List ℕ → RttmHeader
overlay buf = record {
  frame_header = overlay_frame_header buf;
  session_id = field buf 8 4;
  stream_id = field buf 12 4;
  echo_timestamp = field buf 16 8;
  reception_delta = field buf 24 8;
  receiver_id = field buf 32 8;
}

pub parse : List ℕ → Option RttmHeader
parse buf = if ltb (length buf) rttm_header_length then none else some (overlay buf)

abbrev pub bytes : RttmHeader → List ℕ
bytes h =
    frame_header_bytes h.frame_header
    ++ (le_bytes 4 h.session_id
        ++ (le_bytes 4 h.stream_id
            ++ (le_bytes 8 h.echo_timestamp
                ++ (le_bytes 8 h.reception_delta ++ (le_bytes 8 h.receiver_id)))))

-- `none` where the `debug_assert` on the length of the buffer fails.
pub write : RttmHeader → List ℕ → Option (List ℕ)
write h buf =
    if ltb (length buf) rttm_header_length
    then none
    else some (bytes h ++ drop rttm_header_length buf)

-- The fields are values of their types.
pub record InRange (h : RttmHeader) : Type 0 where
  pub frame_length : h.frame_header.frame_length < 2 ^ 32
  pub version : h.frame_header.version < 2 ^ 8
  pub flags : h.frame_header.flags < 2 ^ 8
  pub frame_type : h.frame_header.frame_type < 2 ^ 16
  pub session_id : h.session_id < 2 ^ 32
  pub stream_id : h.stream_id < 2 ^ 32
  pub echo_timestamp : h.echo_timestamp < 2 ^ 64
  pub reception_delta : h.reception_delta < 2 ^ 64
  pub receiver_id : h.receiver_id < 2 ^ 64

overlay-bytes : (h : RttmHeader) (rest : List ℕ) → InRange h → overlay (bytes h ++ rest) ≡ h
overlay-bytes h rest v = λ i. record {
  frame_header = record {
    frame_length = of_le-le_bytes_4 _ v.frame_length i;
    version = of_le-le_bytes_1 _ v.version i;
    flags = of_le-le_bytes_1 _ v.flags i;
    frame_type = of_le-le_bytes_2 _ v.frame_type i;
  };
  session_id = of_le-le_bytes_4 _ v.session_id i;
  stream_id = of_le-le_bytes_4 _ v.stream_id i;
  echo_timestamp = of_le-le_bytes_8 _ v.echo_timestamp i;
  reception_delta = of_le-le_bytes_8 _ v.reception_delta i;
  receiver_id = of_le-le_bytes_8 _ v.receiver_id i;
}

-- What is written into a buffer with room is read back, and the bytes behind it stay.
pub parse-write :
    (h : RttmHeader) (buf : List ℕ)
    → InRange h
    → rttm_header_length ≤ length buf
    → ReadBack write parse rttm_header_length h buf
unfolding parse write
parse-write h buf v room =
    let e : overlay (bytes h ++ drop rttm_header_length buf) ≡ h =
      overlay-bytes h (drop rttm_header_length buf) v in
    (bytes h ++ drop rttm_header_length buf, ground arith, rw e (ground arith), refl)
