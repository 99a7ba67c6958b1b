-- ===== src/Image/New.antt =====
-- A new image: where its two handles stand.
use native.Mathlib.Nat.{pow-le-pow_right}
use aeron_rs.Prelude.{
  ℕ, ◌+◌, ◌-◌, ◌*◌, ◌%◌, ◌^◌, ◌≤◌, ◌<◌, ◌≡◌, refl, ap, ap₂, ◌∙◌, none, some, false, [], arith,
}
use aeron_rs.Prelude.Word.{add64, sub32, sign_extend}
use aeron_rs.Log.{RawLog}
use aeron_rs.Log.New.{new_power}
use aeron_rs.Publication.{trailing_zeros}
use aeron_rs.Publication.New.{zeros_below_power, thirty_two}
use aeron_rs.Publication.State.{product_lt}
use aeron_rs.Concurrent.Runs.{shared_new}
use aeron_rs.Image.{ImageInner, ReceiverImage, SubscriberImage, new_shared_image}
use aeron_rs.Image.Waiting.{Waits}

-- An image with terms of 2 ^ k bytes at a position.
abbrev pub fresh_image : ℕ → ℕ → ℕ → ℕ → ℕ → ImageInner
fresh_image session_id stream_id initial_term_id k position = record {
  log = record { buffer = λ _. 0; capacity = 2 ^ k * 4; term_length = 2 ^ k };
  receiver_position = position;
  subscriber_position = position;
  closed = false;
  session_id = session_id;
  stream_id = stream_id;
  initial_term_id = initial_term_id;
  term_length = 2 ^ k;
  term_length_mask = 2 ^ k - 1;
  position_bits_to_shift = k;
}

abbrev pub receiver_at : ℕ → ReceiverImage
receiver_at position = record { receiver_position_local = position }

abbrev pub subscriber_at : ℕ → SubscriberImage
subscriber_at position = record { subscriber_position_local = position }

place :
    (initial_term_id active_term_id l off t : ℕ)
    → sub32 active_term_id initial_term_id ≡ t
    → t < 2 ^ 31
    → l ≤ 2 ^ 30
    → off < l
    → add64 (sign_extend (sub32 active_term_id initial_term_id) * l) (sign_extend off) ≡ t * l + off
place initial_term_id active_term_id l off t e ht hl ho =
    rw e (ground (arith, product_lt t l ht hl))

made :
    (session_id stream_id initial_term_id active_term_id k off t : ℕ)
    → 5 ≤ k
    → k ≤ 30
    → sub32 active_term_id initial_term_id ≡ t
    → t < 2 ^ 31
    → off < 2 ^ k
    → new_shared_image session_id stream_id initial_term_id active_term_id (2 ^ k) off
      ≡ some (
        fresh_image session_id stream_id initial_term_id k (t * 2 ^ k + off),
        receiver_at (t * 2 ^ k + off),
        subscriber_at (t * 2 ^ k + off),
      )
unfolding new_shared_image
made session_id stream_id initial_term_id active_term_id k off t lo up e ht ho =
    ap (λ l. elim l [ none ↦ none | some log ↦ some (handles log) ])
      (shared_new (2 ^ k) ∙ new_power k lo (omega arith))
    ∙ ap₂
        (λ position shift. some (
          record (fresh_image session_id stream_id initial_term_id k position) {
            position_bits_to_shift = shift;
          },
          receiver_at position,
          subscriber_at position,
        ))
        (place initial_term_id active_term_id (2 ^ k) off t e ht
          (pow-le-pow_right {n = 2} (omega arith) up) ho)
        (zeros_below_power 32 k (omega arith))
  where
    handles : RawLog → ImageInner × ReceiverImage × SubscriberImage
    handles log =
        let position =
          add64 (sign_extend (sub32 active_term_id initial_term_id) * 2 ^ k) (sign_extend off) in
        (
          record (fresh_image session_id stream_id initial_term_id k position) {
            log = log;
            position_bits_to_shift = trailing_zeros (2 ^ k);
          },
          receiver_at position,
          subscriber_at position,
        )

-- With terms of 2 ^ k bytes, from 32 bytes to 1 GiB, and an aligned offset in the active term, which
-- is `t` terms past the initial one, an image is made, with both handles at that offset of term
-- `t`, where nothing waits yet.
pub new_shared_image-Waits :
    (session_id stream_id initial_term_id active_term_id k off t : ℕ)
    → 5 ≤ k
    → k ≤ 30
    → initial_term_id < 2 ^ 32
    → sub32 active_term_id initial_term_id ≡ t
    → t < 2 ^ 31
    → off < 2 ^ k
    → off % 32 ≡ 0
    → (new_shared_image session_id stream_id initial_term_id active_term_id (2 ^ k) off
        ≡ some (
          fresh_image session_id stream_id initial_term_id k (t * 2 ^ k + off),
          receiver_at (t * 2 ^ k + off),
          subscriber_at (t * 2 ^ k + off),
        ))
      × Waits
          (fresh_image session_id stream_id initial_term_id k (t * 2 ^ k + off))
          (subscriber_at (t * 2 ^ k + off))
          t
          off
          []
          off
new_shared_image-Waits session_id stream_id initial_term_id active_term_id k off t lo up hi e ht ho
      al =
    (
      made session_id stream_id initial_term_id active_term_id k off t lo up e ht ho,
      record {
        power = refl;
        aligned = omega (arith, term);
        large = pow-le-pow_right {n = 2} (omega arith) up;
        log = refl;
        mask = omega (arith, ho);
        initial = hi;
        term = ht;
        inside = ho;
        subscriber = refl;
        receiver = refl;
        end_in = omega (arith, ho);
        end_aligned = al;
        laid = refl;
        clean = λ x lo hi. refl;
      },
    )
  where
    term : 2 ^ k ≡ 32 * 2 ^ (k - 5)
    term = let e : k ≡ k - 5 + 5 = omega arith in ap (λ n. 2 ^ n) e ∙ thirty_two (k - 5)
