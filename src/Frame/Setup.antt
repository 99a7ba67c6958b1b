-- ===== src/Frame/Setup.antt =====
-- The 40-byte Setup frame.
use aeron_rs.Prelude.{
  ℕ, ◌^◌, ◌<◌, ◌≡◌, ◌≤◌, refl, Option, none, some, List, ◌++◌, arith, ltb, if◌then◌else◌, length,
  drop,
}
use aeron_rs.Prelude.Memory.{le_bytes, of_le-le_bytes_1, of_le-le_bytes_2, of_le-le_bytes_4}
use aeron_rs.Frame.{
  ReadBack, FrameHeader, frame_header_bytes, overlay_frame_header, field, setup_header_length,
}

pub record SetupHeader : Type 0 where
  pub frame_header : FrameHeader
  pub term_offset : ℕ
  pub session_id : ℕ
  pub stream_id : ℕ
  pub initial_term_id : ℕ
  pub active_term_id : ℕ
  pub term_length : ℕ
  pub mtu : ℕ
  pub ttl : ℕ

abbrev pub overlay : List ℕ → SetupHeader
overlay buf = record {
  frame_header = overlay_frame_header buf;
  term_offset = field buf 8 4;
  session_id = field buf 12 4;
  stream_id = field buf 16 4;
  initial_term_id = field buf 20 4;
  active_term_id = field buf 24 4;
  term_length = field buf 28 4;
  mtu = field buf 32 4;
  ttl = field buf 36 4;
}

pub parse : List ℕ → Option SetupHeader
parse buf = if ltb (length buf) setup_header_length then none else some (overlay buf)

abbrev pub bytes : SetupHeader → List ℕ
bytes h =
    frame_header_bytes h.frame_header
    ++ (le_bytes 4 h.term_offset
        ++ (le_bytes 4 h.session_id
            ++ (le_bytes 4 h.stream_id
                ++ (le_bytes 4 h.initial_term_id
                    ++ (le_bytes 4 h.active_term_id
                        ++ (le_bytes 4 h.term_length
                            ++ (le_bytes 4 h.mtu ++ (le_bytes 4 h.ttl))))))))

-- `none` where the `debug_assert` on the length of the buffer fails.
pub write : SetupHeader → List ℕ → Option (List ℕ)
write h buf =
    if ltb (length buf) setup_header_length
    then none
    else some (bytes h ++ drop setup_header_length buf)

-- The fields are values of their types.
pub record InRange (h : SetupHeader) : Type 0 where
  pub frame_length : h.frame_header.frame_length < 2 ^ 32
  pub version : h.frame_header.version < 2 ^ 8
  pub flags : h.frame_header.flags < 2 ^ 8
  pub frame_type : h.frame_header.frame_type < 2 ^ 16
  pub term_offset : h.term_offset < 2 ^ 32
  pub session_id : h.session_id < 2 ^ 32
  pub stream_id : h.stream_id < 2 ^ 32
  pub initial_term_id : h.initial_term_id < 2 ^ 32
  pub active_term_id : h.active_term_id < 2 ^ 32
  pub term_length : h.term_length < 2 ^ 32
  pub mtu : h.mtu < 2 ^ 32
  pub ttl : h.ttl < 2 ^ 32

overlay-bytes : (h : SetupHeader) (rest : List ℕ) → InRange h → overlay (bytes h ++ rest) ≡ h
overlay-bytes h rest v = λ i. record {
  frame_header = record {
    frame_length = of_le-le_bytes_4 _ v.frame_length i;
    version = of_le-le_bytes_1 _ v.version i;
    flags = of_le-le_bytes_1 _ v.flags i;
    frame_type = of_le-le_bytes_2 _ v.frame_type i;
  };
  term_offset = of_le-le_bytes_4 _ v.term_offset i;
  session_id = of_le-le_bytes_4 _ v.session_id i;
  stream_id = of_le-le_bytes_4 _ v.stream_id i;
  initial_term_id = of_le-le_bytes_4 _ v.initial_term_id i;
  active_term_id = of_le-le_bytes_4 _ v.active_term_id i;
  term_length = of_le-le_bytes_4 _ v.term_length i;
  mtu = of_le-le_bytes_4 _ v.mtu i;
  ttl = of_le-le_bytes_4 _ v.ttl i;
}

-- What is written into a buffer with room is read back, and the bytes behind it stay.
pub parse-write :
    (h : SetupHeader) (buf : List ℕ)
    → InRange h
    → setup_header_length ≤ length buf
    → ReadBack write parse setup_header_length h buf
unfolding parse write
parse-write h buf v room =
    let e : overlay (bytes h ++ drop setup_header_length buf) ≡ h =
      overlay-bytes h (drop setup_header_length buf) v in
    (bytes h ++ drop setup_header_length buf, ground arith, rw e (ground arith), refl)
