-- ===== src/Frame/Tests.antt =====
-- The theorems on the wire format at concrete frames.
use aeron_rs.Prelude.{ℕ, List, true, drop, replicate, ◌≡◌, refl, some, [], ◌∷◌, ◌++◌, arith}
use aeron_rs.Frame.{FrameHeader, FrameType, parse, write, classify_frame, ReadBack}
use aeron_rs.Frame.Data
use aeron_rs.Frame.Data.{DataHeader}
use aeron_rs.Frame.Status
use aeron_rs.Frame.Status.{StatusMessage}
use aeron_rs.Frame.Nak
use aeron_rs.Frame.Nak.{NakHeader}
use aeron_rs.Frame.Setup
use aeron_rs.Frame.Setup.{SetupHeader}
use aeron_rs.Frame.Rttm
use aeron_rs.Frame.Rttm.{RttmHeader}
use aeron_rs.Frame.Laws.{
  InRange, code_of, is_known, classify_frame-write, headers_roundtrip, payload-bytes,
}

-- Of a data frame with a payload of three bytes.
abbrev frame : FrameHeader
frame = record { frame_length = 35; version = 0; flags = 0xC0; frame_type = 1 }

abbrev data_frame : DataHeader
data_frame = record {
  frame_header = frame;
  term_offset = 64;
  session_id = 42;
  stream_id = 7;
  term_id = 3;
  reserved_value = 0;
}

abbrev status_frame : StatusMessage
status_frame = record {
  frame_header = frame;
  session_id = 42;
  stream_id = 7;
  consumption_term_id = 3;
  consumption_term_offset = 64;
  receiver_window = 128;
  receiver_id = 99;
}

abbrev nak_frame : NakHeader
nak_frame = record {
  frame_header = frame;
  session_id = 42;
  stream_id = 7;
  active_term_id = 3;
  term_offset = 64;
  length = 128;
}

abbrev setup_frame : SetupHeader
setup_frame = record {
  frame_header = frame;
  term_offset = 64;
  session_id = 42;
  stream_id = 7;
  initial_term_id = 1;
  active_term_id = 3;
  term_length = 65536;
  mtu = 1408;
  ttl = 0;
}

abbrev rttm_frame : RttmHeader
rttm_frame = record {
  frame_header = frame;
  session_id = 42;
  stream_id = 7;
  echo_timestamp = 1000;
  reception_delta = 10;
  receiver_id = 99;
}

frame-InRange : InRange frame
frame-InRange = record {
  frame_length = omega arith;
  version = omega arith;
  flags = omega arith;
  frame_type = omega arith;
}

data_frame-InRange : Data.InRange data_frame
data_frame-InRange = record {
  frame_length = omega arith;
  version = omega arith;
  flags = omega arith;
  frame_type = omega arith;
  term_offset = omega arith;
  session_id = omega arith;
  stream_id = omega arith;
  term_id = omega arith;
  reserved_value = omega arith;
}

status_frame-InRange : Status.InRange status_frame
status_frame-InRange = record {
  frame_length = omega arith;
  version = omega arith;
  flags = omega arith;
  frame_type = omega arith;
  session_id = omega arith;
  stream_id = omega arith;
  consumption_term_id = omega arith;
  consumption_term_offset = omega arith;
  receiver_window = omega arith;
  receiver_id = omega arith;
}

nak_frame-InRange : Nak.InRange nak_frame
nak_frame-InRange = record {
  frame_length = omega arith;
  version = omega arith;
  flags = omega arith;
  frame_type = omega arith;
  session_id = omega arith;
  stream_id = omega arith;
  active_term_id = omega arith;
  term_offset = omega arith;
  length = omega arith;
}

setup_frame-InRange : Setup.InRange setup_frame
setup_frame-InRange = record {
  frame_length = omega arith;
  version = omega arith;
  flags = omega arith;
  frame_type = omega arith;
  term_offset = omega arith;
  session_id = omega arith;
  stream_id = omega arith;
  initial_term_id = omega arith;
  active_term_id = omega arith;
  term_length = omega arith;
  mtu = omega arith;
  ttl = omega arith;
}

rttm_frame-InRange : Rttm.InRange rttm_frame
rttm_frame-InRange = record {
  frame_length = omega arith;
  version = omega arith;
  flags = omega arith;
  frame_type = omega arith;
  session_id = omega arith;
  stream_id = omega arith;
  echo_timestamp = omega arith;
  reception_delta = omega arith;
  receiver_id = omega arith;
}

-- Of 64 bytes.
abbrev buffer : List ℕ
buffer = replicate 64 7

classify_frame-write_example :
    (out : List ℕ) × (write frame buffer ≡ some out)
    × (parse out ≡ some frame)
    × (drop 8 out ≡ replicate 56 7)
    × (t : FrameType) × (classify_frame out ≡ some t)
    × (code_of t ≡ 1)
    × (is_known t ≡ true)
classify_frame-write_example = classify_frame-write frame buffer frame-InRange (omega arith)

headers_roundtrip_example :
    (Data.parse (Data.bytes data_frame ++ buffer) ≡ some data_frame)
    × ReadBack Status.write Status.parse 36 status_frame buffer
    × ReadBack Nak.write Nak.parse 28 nak_frame buffer
    × ReadBack Setup.write Setup.parse 40 setup_frame buffer
    × ReadBack Rttm.write Rttm.parse 40 rttm_frame buffer
headers_roundtrip_example =
    headers_roundtrip data_frame status_frame nak_frame setup_frame rttm_frame buffer
      data_frame-InRange status_frame-InRange nak_frame-InRange setup_frame-InRange
      rttm_frame-InRange (omega arith)

payload-bytes_example :
    Data.payload data_frame (Data.bytes data_frame ++ ((1 ∷ 2 ∷ 3 ∷ []) ++ (0 ∷ [])))
    ≡ 1 ∷ 2 ∷ 3 ∷ []
payload-bytes_example = payload-bytes data_frame (1 ∷ 2 ∷ 3 ∷ []) (0 ∷ []) refl (omega arith)
