-- ===== src/Image/Steps.antt =====
-- A poll as its loop, and what it makes of the loop's outcome.
use aeron_rs.Prelude.{ℕ, ◌*◌, ◌^◌, ◌<◌, ◌≡◌, List, arith, ltb, if◌then◌else◌}
use aeron_rs.Prelude.Word.{add64}
use aeron_rs.Log.{partition_index}
use aeron_rs.Image.{
  ImageInner, SubscriberImage, Fragment, poll_loop, poll_fragments, fragments_of,
  subscriber_term_id, subscriber_term_offset,
}

module _ (inner : ImageInner) (s : SubscriberImage) where
  abbrev pub found : ℕ → List (List ℕ) × ℕ × ℕ
  found limit =
      poll_loop inner.term_length inner.log.buffer inner.receiver_position
        (partition_index (subscriber_term_id inner s) inner.initial_term_id * inner.term_length)
        inner.term_length s.subscriber_position_local limit (subscriber_term_offset inner s) 0 0

  abbrev pub after : List (List ℕ) × ℕ × ℕ → (List Fragment × ℕ) × ImageInner × SubscriberImage
  after (payloads, count, scanned) =
      if ltb 0 scanned
      then (
        (fragments_of inner payloads, count),
        record inner { subscriber_position = add64 s.subscriber_position_local scanned },
        record { subscriber_position_local = add64 s.subscriber_position_local scanned },
      )
      else ((fragments_of inner payloads, count), inner, s)

  pub after-found :
      (limit : ℕ) → 0 < limit → limit < 2 ^ 31 → poll_fragments inner s limit ≡ after (found limit)
  unfolding poll_fragments
  after-found limit h k = ground arith
