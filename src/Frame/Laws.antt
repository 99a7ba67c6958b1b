-- ===== src/Frame/Laws.antt =====
-- The wire format as a whole: every header is read back as it was written.
use aeron_rs.Prelude.{
  ℕ, ◌+◌, ◌^◌, ◌<◌, ◌≤◌, leb, Bool, true, false, ◌≡◌, refl, some, List, [], ◌∷◌, ◌++◌, arith,
  length, take, drop, length-append, take-append, none, ap,
}
use aeron_rs.Prelude.Memory.{of_le-le_bytes_1, of_le-le_bytes_2, of_le-le_bytes_4}
use aeron_rs.Prelude.{◌-◌}
use aeron_rs.Prelude.Word.{sign_extend}
use aeron_rs.Frame.{
  FrameHeader, FrameType, frame_header_bytes, overlay_frame_header, parse, write, frame_type_from,
  classify_frame, pad, dat, nak, status_message, error, setup, rttm, resolution, heartbeat, unknown,
  data_header_length, frame_header_length, sm_header_length, nak_header_length, setup_header_length,
  rttm_header_length, ReadBack,
}
use aeron_rs.Frame.Data
use aeron_rs.Frame.Data.{DataHeader}
use aeron_rs.Frame.Status
use aeron_rs.Frame.Nak
use aeron_rs.Frame.Setup
use aeron_rs.Frame.Rttm

-- The fields of a frame header are values of their types.
pub record InRange (h : FrameHeader) : Type 0 where
  pub frame_length : h.frame_length < 2 ^ 32
  pub version : h.version < 2 ^ 8
  pub flags : h.flags < 2 ^ 8
  pub frame_type : h.frame_type < 2 ^ 16

overlay-bytes :
    (h : FrameHeader) (rest : List ℕ)
    → InRange h
    → overlay_frame_header (frame_header_bytes h ++ rest) ≡ h
overlay-bytes h rest v = λ i. record {
  frame_length = of_le-le_bytes_4 _ v.frame_length i;
  version = of_le-le_bytes_1 _ v.version i;
  flags = of_le-le_bytes_1 _ v.flags i;
  frame_type = of_le-le_bytes_2 _ v.frame_type i;
}

parse-write :
    (h : FrameHeader) (buf : List ℕ)
    → InRange h
    → frame_header_length ≤ length buf
    → ReadBack write parse frame_header_length h buf
unfolding parse write
parse-write h buf v room =
    let e : overlay_frame_header (frame_header_bytes h ++ drop 8 buf) ≡ h =
      overlay-bytes h (drop 8 buf) v in
    (frame_header_bytes h ++ drop 8 buf, ground arith, rw e (ground arith), refl)

-- The code of a frame type on the wire.
pub code_of : FrameType → ℕ
code_of pad = 0
code_of dat = 1
code_of nak = 2
code_of status_message = 3
code_of error = 4
code_of setup = 5
code_of rttm = 6
code_of resolution = 7
code_of heartbeat = 8
code_of (unknown val) = val

-- Not `Unknown`.
pub is_known : FrameType → Bool
is_known (unknown val) = false
is_known pad = true
is_known dat = true
is_known nak = true
is_known status_message = true
is_known error = true
is_known setup = true
is_known rttm = true
is_known resolution = true
is_known heartbeat = true

frame_type_from_lem :
    (val : ℕ) → (code_of (frame_type_from val) ≡ val) × (is_known (frame_type_from val) ≡ leb val 8)
unfolding code_of is_known frame_type_from
frame_type_from_lem val = ground arith

classify_parsed :
    (buf : List ℕ) (h : FrameHeader)
    → parse buf ≡ some h
    → classify_frame buf ≡ some (frame_type_from h.frame_type)
unfolding classify_frame
classify_parsed buf h e =
    ap (λ o. elim o [ none ↦ none | some hdr ↦ some (frame_type_from hdr.frame_type) ]) e

-- A frame header with fields in the ranges of their types that is written into a buffer with room
-- for it is read back, the bytes behind it stay, and the frame is classified by its type: up to code
-- 8 by the named type with that code, and from 9 on as unknown, with the code.
pub classify_frame-write :
    (h : FrameHeader) (buf : List ℕ)
    → InRange h
    → frame_header_length ≤ length buf
    → (out : List ℕ) × (write h buf ≡ some out)
      × (parse out ≡ some h)
      × (drop frame_header_length out ≡ drop frame_header_length buf)
      × (t : FrameType) × (classify_frame out ≡ some t)
      × (code_of t ≡ h.frame_type)
      × (is_known t ≡ leb h.frame_type 8)
classify_frame-write h buf v room =
    let (out, written, parsed, kept) = parse-write h buf v room in
    (
      out,
      written,
      parsed,
      kept,
      frame_type_from h.frame_type,
      classify_parsed out h parsed,
      (frame_type_from_lem h.frame_type).0,
      (frame_type_from_lem h.frame_type).1,
    )

-- Each of the four control headers, with fields in the ranges of their types, is written into a
-- buffer of at least 40 bytes and is read back as it was, and the bytes behind it stay. The bytes of
-- a data header are parsed to it, whatever follows them.
pub headers_roundtrip :
    (d : DataHeader) (s : Status.StatusMessage) (n : Nak.NakHeader) (u : Setup.SetupHeader)
    (r : Rttm.RttmHeader) (buf : List ℕ)
    → Data.InRange d
    → Status.InRange s
    → Nak.InRange n
    → Setup.InRange u
    → Rttm.InRange r
    → rttm_header_length ≤ length buf
    → (Data.parse (Data.bytes d ++ buf) ≡ some d)
      × ReadBack Status.write Status.parse sm_header_length s buf
      × ReadBack Nak.write Nak.parse nak_header_length n buf
      × ReadBack Setup.write Setup.parse setup_header_length u buf
      × ReadBack Rttm.write Rttm.parse rttm_header_length r buf
headers_roundtrip d s n u r buf vd vs vn vu vr room = (
  Data.parse-bytes d buf vd,
  Status.parse-write s buf vs (omega (arith, room)),
  Nak.parse-write n buf vn (omega (arith, room)),
  Setup.parse-write u buf vu room,
  Rttm.parse-write r buf vr room,
)

take_payload :
    (body rest : List ℕ)
    → length body < 2 ^ 30
    → take (sign_extend (data_header_length + length body) - data_header_length) (body ++ rest)
      ≡ body
take_payload body rest small =
    let e : sign_extend (data_header_length + length body) - data_header_length ≡ length body =
      grind arith in
    rw e (take-append body rest refl)

-- The payload of a frame, of less than 1 GiB and with the right length in its header, is what
-- stands between its header and its length, whatever follows it.
pub payload-bytes :
    (h : DataHeader) (body rest : List ℕ)
    → h.frame_header.frame_length ≡ data_header_length + length body
    → length body < 2 ^ 30
    → Data.payload h (Data.bytes h ++ (body ++ rest)) ≡ body
unfolding Data.payload
payload-bytes h [] rest e small = ground arith
payload-bytes h (b ∷ body) rest e small =
    rw e (ground (arith, length-append (b ∷ body) rest, take_payload (b ∷ body) rest small))
