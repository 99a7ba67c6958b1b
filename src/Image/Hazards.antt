-- ===== src/Image/Hazards.antt =====
-- Two things that go wrong in an image: a subscriber that reads the length word just before a
-- message is committed, and a message whose term offset is negative.
use aeron_rs.Prelude.{
  ℕ, ◌+◌, ◌-◌, ◌*◌, ◌%◌, ◌^◌, ◌≤◌, ◌<◌, ◌≡◌, sym, ap, ◌∙◌, List, [], ◌∷◌, arith, length, true,
  false, if_false,
}
use mathlib.Core.Path.{subst}
use aeron_rs.Prelude.Word.{lt_i64, add32}
use aeron_rs.Prelude.Memory.{Memory, read_i32, read_i32-eq-zero, read_i32-write_bytes}
use aeron_rs.Frame.Data.{DataHeader}
use aeron_rs.Log.{ok, align_frame_length}
use aeron_rs.Log.Append.{frame_of, end_of, IsFrame-write}
use aeron_rs.Publication.State.{product_lt}
use aeron_rs.Image.{
  ImageInner, ReceiverImage, SubscriberImage, poll_round, clamp_skip, skipped, delivered,
  append_frame, skip_gap,
}
use aeron_rs.Image.Append.{wrote, opened}
use aeron_rs.Image.Polled.{is_pad, round_frame}
use aeron_rs.Image.Bounds.{skip_gap_ge}
use aeron_rs.Image.Waiting.{Waits}
use aeron_rs.Image.Received.{receive, arrived, stored, receive_step}

round_gap :
    (loaded m : Memory) (r base term_length pos cur : ℕ)
    → pos + 32 ≤ term_length
    → read_i32 loaded (base + pos) ≡ 0
    → lt_i64 cur r ≡ true
    → (n : ℕ) × (32 ≤ n) × (poll_round loaded r m base term_length pos cur ≡ skipped n)
unfolding poll_round
round_gap loaded m r base term_length pos cur room zero_word behind = (
  clamp_skip term_length pos (skip_gap term_length m base term_length pos 32),
  ground (arith, skip_gap_ge term_length m base term_length pos 32),
  ground arith,
)

length_frame :
    (header : DataHeader) (payload : List ℕ)
    → length (frame_of (stored header payload) payload) ≡ 32 + length payload
length_frame header payload = omega arith

abbrev Late : ImageInner → SubscriberImage → ℕ → ℕ → List ℕ → ImageInner × ReceiverImage → Type 0
Late inner s t off payload (inner', r') =
    let round = λ (loaded : Memory).
      poll_round loaded inner'.receiver_position inner'.log.buffer (t % 4 * inner.term_length)
        inner.term_length off s.subscriber_position_local in
    (round inner'.log.buffer ≡ delivered (align_frame_length (32 + length payload)) payload)
    × ((n : ℕ) × (32 ≤ n) × (round inner.log.buffer ≡ skipped n))

-- Nothing waits for the subscriber of an image; then the receiver appends one message that fits the
-- term and is no pad, and advances. The round of a poll that loads the length word after this
-- delivers the message. A round that loaded the word before, and the receiver's position
-- afterwards, takes the message for a gap: it skips at least 32 bytes and delivers nothing.
pub late_message_is_skipped :
    (inner : ImageInner) (r : ReceiverImage) (s : SubscriberImage) (t off : ℕ) (header : DataHeader)
    (payload : List ℕ)
    → Waits inner s t off [] off
    → length payload < 2 ^ 30
    → end_of off payload ≤ inner.term_length
    → 0 < header.frame_header.frame_type
    → header.frame_header.frame_type < 2 ^ 16
    → let (inner', r') = receive inner r t off ((header, payload) ∷ []) in
      let round = λ (loaded : Memory).
        poll_round loaded inner'.receiver_position inner'.log.buffer
          (t % 4 * inner.term_length)
          inner.term_length
          off
          s.subscriber_position_local in
      (round inner'.log.buffer ≡ delivered (align_frame_length (32 + length payload)) payload)
      × ((n : ℕ) × (32 ≤ n) × (round inner.log.buffer ≡ skipped n))
unfolding receive
late_message_is_skipped inner r s t off header payload w small fits kind bound =
    let frame = frame_of (stored header payload) payload in
    let message : is_pad frame ≡ false = ground arith in
    subst (Late inner s t off payload)
      (sym (receive_step inner r t off header payload [] w.large w.end_in small fits))
      (
        round_frame (arrived inner r t off header payload).log.buffer _ (t % 4 * inner.term_length)
              inner.term_length off s.subscriber_position_local frame
              (IsFrame-write inner.log.buffer (t % 4 * inner.term_length + off)
                (stored header payload) payload (omega (arith, small)) (omega (arith, small)))
              (omega (arith, fits))
            ∙ if_false (is_pad frame) _ _ message
            ∙ ap (λ n. delivered (align_frame_length n) payload) (length_frame header payload),
        round_gap inner.log.buffer _ _ (t % 4 * inner.term_length) inner.term_length off
            s.subscriber_position_local (omega arith)
            (read_i32-eq-zero inner.log.buffer _
              (λ x lo hi. w.clean x lo (omega (arith, hi, fits))))
            (ground (arith, w.subscriber, product_lt t inner.term_length w.term w.large)),
      )

-- With terms of at most 512 MiB, a buffer of four terms and a payload below 1 GiB: a term offset that
-- is negative as an `i32`, and for which the end of the frame wraps round to an offset in the term,
-- is accepted, in any of the four partitions. The length word of the frame is then written behind
-- the end of the buffer.
pub negative_offset_escapes :
    (inner : ImageInner) (idx off : ℕ) (header : DataHeader) (payload : List ℕ)
    → idx < 4
    → inner.term_length ≤ 2 ^ 29
    → inner.log.capacity ≡ inner.term_length * 4
    → length payload < 2 ^ 30
    → off < 2 ^ 32
    → 2 ^ 32 ≤ end_of off payload
    → end_of off payload ≤ 2 ^ 32 + inner.term_length
    → let (outcome, inner') = append_frame inner idx off header payload in
      let base = idx * inner.term_length + off in
      (outcome ≡ ok (end_of off payload - 2 ^ 32))
      × (inner'.log.capacity ≤ base)
      × (read_i32 inner'.log.buffer base ≡ 32 + length payload)
negative_offset_escapes inner idx off header payload i large cap small lt wraps fits =
    let end : add32 off (align_frame_length (32 + length payload) % 2 ^ 32)
        ≡ end_of off payload - 2 ^ 32 =
      omega (arith, small, lt, wraps) in
    rw (wrote inner idx off header payload i (omega (arith, end, fits))) (
      ap ok end,
      omega (arith, cap, large, wraps, small),
      read_i32-write_bytes (opened inner idx off header payload) (idx * inner.term_length + off)
            ((32 + length payload) % 2 ^ 32) [] (omega arith)
          ∙ omega (arith, small),
    )
