-- ===== src/Image/Tests.antt =====
-- Runs of an image, and its theorems at concrete inputs.
use aeron_rs.Prelude.{ℕ, ◌+◌, ◌-◌, ◌^◌, ◌≤◌, ◌<◌, ◌⊎◌, ◌≡◌, refl, false, List, [], ◌∷◌, arith, some}
use aeron_rs.Prelude.Memory.{Memory, read_i32}
use aeron_rs.Frame.Data.{DataHeader}
use aeron_rs.Log.{ok, err, invalid_partition, term_full}
use aeron_rs.Image.{
  ImageInner, ReceiverImage, SubscriberImage, new_shared_image, append_frame, poll_fragments,
  fragments_of, poll_round, poll_loop, skipped, delivered,
}
use aeron_rs.Image.Append.{append_frame_outcomes}
use aeron_rs.Image.Bounds.{Bounded, poll_fragments-Bounded, poll_loop_enough}
use aeron_rs.Image.Waiting.{Waits, Delivered, poll_fragments_lem}
use aeron_rs.Image.Received.{AllFit, frames_of, receive, receive-Waits, received_is_polled}
use aeron_rs.Image.New.{new_shared_image-Waits}
use aeron_rs.Image.Hazards.{late_message_is_skipped, negative_offset_escapes}

-- Terms of 128 bytes, session 42, stream 7, from the start of the first term.
abbrev image : ImageInner
image = record {
  log = record { buffer = λ _. 0; capacity = 512; term_length = 128 };
  receiver_position = 0;
  subscriber_position = 0;
  closed = false;
  session_id = 42;
  stream_id = 7;
  initial_term_id = 0;
  term_length = 128;
  term_length_mask = 127;
  position_bits_to_shift = 7;
}

abbrev writer : ReceiverImage
writer = record { receiver_position_local = 0 }

abbrev reader : SubscriberImage
reader = record { subscriber_position_local = 0 }

abbrev header : DataHeader
header = record {
  frame_header = record { frame_length = 0; version = 0; flags = 192; frame_type = 1 };
  term_offset = 0;
  session_id = 42;
  stream_id = 7;
  term_id = 0;
  reserved_value = 0;
}

abbrev messages : List (DataHeader × List ℕ)
messages = (header, 1 ∷ 2 ∷ []) ∷ (header, 3 ∷ []) ∷ []

new_shared_image-Waits_example :
    (new_shared_image 42 7 0 0 128 0 ≡ some (image, writer, reader)) × Waits image reader 0 0 [] 0
new_shared_image-Waits_example =
    new_shared_image-Waits 42 7 0 0 7 0 0 (omega arith) (omega arith) (omega arith) refl
      (omega arith) (omega arith) refl

image-Waits : Waits image reader 0 0 [] 0
image-Waits = new_shared_image-Waits_example.1

messages-AllFit : AllFit 128 0 messages
messages-AllFit = (
  omega arith,
  omega arith,
  omega arith,
  omega arith,
  (omega arith, omega arith, omega arith, omega arith, tt),
)

received_is_polled_example :
    (poll_fragments (receive image writer 0 0 messages).0 reader 10).0
    ≡ (fragments_of image ((1 ∷ 2 ∷ []) ∷ (3 ∷ []) ∷ []), 2)
received_is_polled_example =
    received_is_polled image writer reader 0 0 10 messages image-Waits messages-AllFit (omega arith)
      (omega arith) (omega arith)

poll_fragments-Bounded_example : Bounded image reader 5 (poll_fragments image reader 5)
poll_fragments-Bounded_example = poll_fragments-Bounded image reader 5 refl (omega arith)

poll_loop_enough_example :
    poll_loop (96 + 10) (λ x. x) 500 0 128 0 5 32 0 0 ≡ poll_loop 96 (λ x. x) 500 0 128 0 5 32 0 0
poll_loop_enough_example = poll_loop_enough 96 10 (λ x. x) 500 0 128 0 5 32 0 0 (omega arith)

late_message_is_skipped_example :
    let (inner', r') = receive image writer 0 0 ((header, 1 ∷ 2 ∷ []) ∷ []) in
    let round =
      λ (loaded : Memory). poll_round loaded inner'.receiver_position inner'.log.buffer 0 128 0 0 in
    (round inner'.log.buffer ≡ delivered 64 (1 ∷ 2 ∷ []))
    × ((n : ℕ) × (32 ≤ n) × (round image.log.buffer ≡ skipped n))
late_message_is_skipped_example =
    late_message_is_skipped image writer reader 0 0 header (1 ∷ 2 ∷ []) image-Waits (omega arith)
      (omega arith) (omega arith) (omega arith)

negative_offset_escapes_example :
    let (outcome, inner') = append_frame image 1 (2 ^ 32 - 32) header [] in
    (outcome ≡ ok 0)
    × (inner'.log.capacity ≤ 128 + (2 ^ 32 - 32))
    × (read_i32 inner'.log.buffer (128 + (2 ^ 32 - 32)) ≡ 32)
negative_offset_escapes_example =
    negative_offset_escapes image 1 (2 ^ 32 - 32) header [] (omega arith) (omega arith) refl
      (omega arith) (omega arith) (omega arith) (omega arith)

append_frame_outcomes_example :
    let (outcome, inner') = append_frame image 5 0 header [] in
    ((4 ≤ 5) × (outcome ≡ err invalid_partition) × (inner' ≡ image))
    ⊎ (((5 < 4) × (128 < 32) × (outcome ≡ err term_full) × (inner' ≡ image))
        ⊎ ((5 < 4)
            × (32 ≤ 128)
            × (outcome ≡ ok 32)
            × ((x : ℕ) → (x < 640) ⊎ (672 ≤ x) → inner'.log.buffer x ≡ image.log.buffer x)))
append_frame_outcomes_example = append_frame_outcomes image 5 0 header []

-- After both messages.
abbrev filled : ImageInner
filled = (receive image writer 0 0 messages).0

filled-Waits : (end : ℕ) × Waits filled reader 0 0 (frames_of messages) end
filled-Waits =
    let (end, w, _, _) =
      receive-Waits image writer reader 0 0 0 [] messages image-Waits messages-AllFit in
    (end, w)

poll_fragments_lem_example :
    Delivered filled reader 0 0
      (frames_of messages)
      filled-Waits.0
      1
      (poll_fragments filled reader 1)
poll_fragments_lem_example =
    poll_fragments_lem filled reader 0 0 (frames_of messages) filled-Waits.0 filled-Waits.1 1
      (omega arith) (omega arith)
