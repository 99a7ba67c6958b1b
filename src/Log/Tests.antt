-- ===== src/Log/Tests.antt =====
-- Runs of a raw log, and its theorems at concrete inputs.
use aeron_rs.Prelude.{ℕ, ◌+◌, ◌*◌, ◌^◌, ◌≤◌, ◌<◌, ◌≡◌, refl, ◌⊎◌, inl, some, List, [], ◌∷◌, arith}
use aeron_rs.Prelude.Memory.{read_i32, read_bytes, write_bytes}
use aeron_rs.Frame.{frame_type_data}
use aeron_rs.Frame.Data.{DataHeader}
use aeron_rs.Log.{
  RawLog, ok, err, term_full, new, append_frame, scan_loop, scan_frames, frame_length_at,
  write_pad_frame,
}
use aeron_rs.Log.Layout.{Laid}
use aeron_rs.Log.Scan.{taken, InPartition, scan_loop_enough, scan_frames_safe, scan_frames_lem}
use aeron_rs.Log.Append.{frame_of, append_frame_lem}
use aeron_rs.Log.Pad.{pad_frame, write_pad_frame_whole}
use aeron_rs.Log.New.{new_power}

-- Terms of 64 bytes.
abbrev empty : RawLog
empty = record { buffer = λ _. 0; capacity = 256; term_length = 64 }

abbrev header : DataHeader
header = record {
  frame_header = record {
    frame_length = 35;
    version = 0;
    flags = 0xC0;
    frame_type = frame_type_data;
  };
  term_offset = 0;
  session_id = 42;
  stream_id = 7;
  term_id = 0;
  reserved_value = 0;
}

abbrev message : List ℕ
message = 1 ∷ 2 ∷ 3 ∷ []

-- The log after one append to partition 1.
abbrev written : RawLog
written = (append_frame empty 1 0 header message).1

new_power_example :
    new (2 ^ 6) ≡ some (record { buffer = λ _. 0; capacity = 2 ^ 6 * 4; term_length = 2 ^ 6 })
new_power_example = new_power 6 (omega arith) (omega arith)

append_frame_lem_example :
    let (r, log') = append_frame empty 1 0 header message in
    ((64 < 64) × (r ≡ err term_full) × (log' ≡ empty))
    ⊎ ((64 ≤ 64)
        × (r ≡ ok 64)
        × (log'.term_length ≡ 64)
        × Laid log'.buffer 64 0 (frame_of header message ∷ []) 64
        × ((x : ℕ) → (x < 64) ⊎ (128 ≤ x) → log'.buffer x ≡ 0))
append_frame_lem_example =
    append_frame_lem empty 1 0 0 header message [] (omega arith) (omega arith) (omega arith)
      (omega arith) refl refl

written_Laid : Laid written.buffer 64 0 (frame_of header message ∷ []) 64
unfolding append_frame read_i32 read_bytes write_bytes
written_Laid = ((refl, refl, omega arith, omega arith), refl)

scan_frames_lem_example :
    scan_frames written 1 0 100 ≡ taken 64 100 0 0 (frame_of header message ∷ [])
unfolding append_frame
scan_frames_lem_example =
    scan_frames_lem written 1 0 100 (frame_of header message ∷ []) 64 (omega arith) written_Laid
      (omega arith) (inl refl)

scan_run : scan_frames written 1 0 100 ≡ ((0, frame_of header message) ∷ [], 64)
unfolding append_frame scan_frames scan_loop frame_length_at read_i32 read_bytes write_bytes
scan_run = refl

scan_frames_safe_example :
    let (calls, scanned) = scan_frames written 1 0 100 in
    InPartition written.buffer 64 64 calls × (0 + scanned ≤ 64)
unfolding append_frame
scan_frames_safe_example = scan_frames_safe written 1 0 100 (omega arith)

scan_loop_enough_example :
    scan_loop (64 + 10) written.buffer 64 64 100 0 0 ≡ scan_loop 64 written.buffer 64 64 100 0 0
scan_loop_enough_example = scan_loop_enough 64 10 written.buffer 64 64 100 0 0 (omega arith)

write_pad_frame_whole_example :
    write_pad_frame empty 2 0
    ≡ record empty { buffer = write_bytes empty.buffer 128 (pad_frame 64 0) }
write_pad_frame_whole_example =
    write_pad_frame_whole empty 2 0 (omega arith) (omega arith) (λ x lo hi. refl)
