-- ===== src/Frame/Status.antt =====
-- The 36-byte Status Message frame.
use aeron_rs.Prelude.{
  ℕ, ◌^◌, ◌<◌, ◌≡◌, ◌≤◌, refl, Option, none, some, List, ◌++◌, arith, ltb, if◌then◌else◌, length,
  drop,
}
use aeron_rs.Prelude.Memory.{
  le_bytes, of_le-le_bytes_1, of_le-le_bytes_2, of_le-le_bytes_4, of_le-le_bytes_8,
}
use aeron_rs.Frame.{
  ReadBack, FrameHeader, frame_header_bytes, overlay_frame_header, field, sm_header_length,
}

pub record StatusMessage : Type 0 where
  pub frame_header : FrameHeader
  pub session_id : ℕ
  pub stream_id : ℕ
  pub consumption_term_id : ℕ
  pub consumption_term_offset : ℕ
  pub receiver_window : ℕ
  pub receiver_id : ℕ

abbrev pub overlay : List ℕ → StatusMessage
overlay buf = record {
  frame_header = overlay_frame_header buf;
  session_id = field buf 8 4;
  stream_id = field buf 12 4;
  consumption_term_id = field buf 16 4;
  consumption_term_offset = field buf 20 4;
  receiver_window = field buf 24 4;
  receiver_id = field buf 28 8;
}

pub parse : List ℕ → Option StatusMessage
parse buf = if ltb (length buf) sm_header_length then none else some (overlay buf)

abbrev pub bytes : StatusMessage → List ℕ
bytes h =
    frame_header_bytes h.frame_header
    ++ (le_bytes 4 h.session_id
        ++ (le_bytes 4 h.stream_id
            ++ (le_bytes 4 h.consumption_term_id
                ++ (le_bytes 4 h.consumption_term_offset
                    ++ (le_bytes 4 h.receiver_window ++ (le_bytes 8 h.receiver_id))))))

-- `none` where the `debug_assert` on the length of the buffer fails.
pub write : StatusMessage → List ℕ → Option (List ℕ)
write h buf =
    if ltb (length buf) sm_header_length then none else some (bytes h ++ drop sm_header_length buf)

-- The fields are values of their types.
pub record InRange (h : StatusMessage) : Type 0 where
  pub frame_length : h.frame_header.frame_length < 2 ^ 32
  pub version : h.frame_header.version < 2 ^ 8
  pub flags : h.frame_header.flags < 2 ^ 8
  pub frame_type : h.frame_header.frame_type < 2 ^ 16
  pub session_id : h.session_id < 2 ^ 32
  pub stream_id : h.stream_id < 2 ^ 32
  pub consumption_term_id : h.consumption_term_id < 2 ^ 32
  pub consumption_term_offset : h.consumption_term_offset < 2 ^ 32
  pub receiver_window : h.receiver_window < 2 ^ 32
  pub receiver_id : h.receiver_id < 2 ^ 64

overlay-bytes : (h : StatusMessage) (rest : List ℕ) → InRange h → overlay (bytes h ++ rest) ≡ h
overlay-bytes h rest v = λ i. record {
  frame_header = record {
    frame_length = of_le-le_bytes_4 _ v.frame_length i;
    version = of_le-le_bytes_1 _ v.version i;
    flags = of_le-le_bytes_1 _ v.flags i;
    frame_type = of_le-le_bytes_2 _ v.frame_type i;
  };
  session_id = of_le-le_bytes_4 _ v.session_id i;
  stream_id = of_le-le_bytes_4 _ v.stream_id i;
  consumption_term_id = of_le-le_bytes_4 _ v.consumption_term_id i;
  consumption_term_offset = of_le-le_bytes_4 _ v.consumption_term_offset i;
  receiver_window = of_le-le_bytes_4 _ v.receiver_window i;
  receiver_id = of_le-le_bytes_8 _ v.receiver_id i;
}

-- What is written into a buffer with room is read back, and the bytes behind it stay.
pub parse-write :
    (h : StatusMessage) (buf : List ℕ)
    → InRange h
    → sm_header_length ≤ length buf
    → ReadBack write parse sm_header_length h buf
unfolding parse write
parse-write h buf v room =
    let e : overlay (bytes h ++ drop sm_header_length buf) ≡ h =
      overlay-bytes h (drop sm_header_length buf) v in
    (bytes h ++ drop sm_header_length buf, ground arith, rw e (ground arith), refl)
