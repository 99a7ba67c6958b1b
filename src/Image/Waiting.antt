-- ===== src/Image/Waiting.antt =====
-- What waits in an image between the subscriber and the receiver, within a term: a poll takes it in
-- order, and an append adds to it.
use aeron_rs.Prelude.{
  ℕ, ◌+◌, ◌*◌, ◌%◌, ◌^◌, ◌≤◌, ◌<◌, ◌≡◌, refl, sym, ap, ap₂, ◌∙◌, ◌⊎◌, inl, inr, List, [], ◌++◌,
  arith, ltb, length, Bool-cases,
}
use native.Mathlib.Nat.{sub-zero}
use native.Mathlib.Decide.{dec_lt}
use mathlib.Core.Path.{subst}
use aeron_rs.Prelude.Word.{add64}
use aeron_rs.Prelude.Memory.{read_i32, read_i32-eq-zero}
use aeron_rs.Log.{partition_index}
use aeron_rs.Log.Layout.{Laid, Laid-le}
use aeron_rs.Publication.Span.{frames, nil_at_end}
use aeron_rs.Publication.State.{product_lt, term_of_position, mod_of_term}
use aeron_rs.Image.{
  ImageInner, SubscriberImage, Fragment, poll_loop, poll_fragments, fragments_of,
  subscriber_term_id, subscriber_term_offset,
}
use aeron_rs.Image.Steps.{found, after, after-found}
use aeron_rs.Image.Polled.{polled, messages, Took, polled-Took, poll_loop_lem}

-- The subscriber stands at `off` of term `t`; the frames `fs` wait up to `end`, where the receiver
-- stands, and what follows in the term is zero.
pub record Waits (inner : ImageInner) (s : SubscriberImage) (t off : ℕ) (fs : List (List ℕ))
    (end : ℕ) : Type 0 where
  pub power : inner.term_length ≡ 2 ^ inner.position_bits_to_shift
  pub aligned : inner.term_length % 32 ≡ 0
  pub large : inner.term_length ≤ 2 ^ 30
  pub log : inner.log.term_length ≡ inner.term_length
  pub mask : inner.term_length_mask + 1 ≡ inner.term_length
  pub initial : inner.initial_term_id < 2 ^ 32
  pub term : t < 2 ^ 31
  pub inside : off < inner.term_length
  pub subscriber : s.subscriber_position_local ≡ t * inner.term_length + off
  pub receiver : inner.receiver_position ≡ t * inner.term_length + end
  pub end_in : end ≤ inner.term_length
  pub end_aligned : end % 32 ≡ 0
  pub laid : Laid inner.log.buffer (t % 4 * inner.term_length) off fs end
  pub clean :
      (x : ℕ)
      → t % 4 * inner.term_length + end ≤ x
      → x < t % 4 * inner.term_length + inner.term_length
      → inner.log.buffer x ≡ 0

-- A poll that took some of the frames `fs` in front, all of them unless it delivered as many
-- messages as its limit, and left the others; with none left at the end of the term.
abbrev pub Delivered :
    ImageInner
    → SubscriberImage
    → ℕ
    → ℕ
    → List (List ℕ)
    → ℕ
    → ℕ
    → (List Fragment × ℕ) × ImageInner × SubscriberImage
    → Type 0
Delivered inner s t off fs end limit ((fragments, count), inner', s') =
    (took : List (List ℕ)) × (rest : List (List ℕ)) × (n : ℕ) × (fs ≡ took ++ rest)
    × (fragments ≡ fragments_of inner (messages took))
    × (count ≡ length (messages took))
    × ((rest ≡ []) ⊎ (limit ≤ count))
    × (s'.subscriber_position_local ≡ s.subscriber_position_local + n)
    × (((off + n ≡ inner.term_length) × (rest ≡ [])) ⊎ Waits inner' s' t (off + n) rest end)

module _ (inner : ImageInner) (s : SubscriberImage) (t off : ℕ) (fs : List (List ℕ)) (end : ℕ)
    (w : Waits inner s t off fs end) where
  place :
      (partition_index (subscriber_term_id inner s) inner.initial_term_id ≡ t % 4)
      × (subscriber_term_offset inner s ≡ off)
  place = (
    ap (λ n. n % 4)
        (term_of_position inner.initial_term_id t inner.term_length off inner.position_bits_to_shift
          s.subscriber_position_local w.power w.initial w.term w.large w.inside w.subscriber),
    rw (w.mask, w.subscriber) (mod_of_term t inner.term_length off w.inside),
  )

  ends :
      (end ≡ inner.term_length) ⊎ (read_i32 inner.log.buffer (t % 4 * inner.term_length + end) ≡ 0)
  ends = elim (dec_lt end inner.term_length) [
    | yes room ↦ inr (
        read_i32-eq-zero inner.log.buffer _
          (λ x lo hi. w.clean x lo (omega (arith, room, hi, w.aligned, w.end_aligned))))
    | no full ↦ inl (omega (arith, w.end_in))
  ]

  found_lem : (limit : ℕ) → found inner s limit ≡ polled inner.term_length limit off 0 0 fs
  found_lem limit =
      ap₂
        (λ i o.
          poll_loop inner.term_length inner.log.buffer inner.receiver_position
            (i * inner.term_length) inner.term_length s.subscriber_position_local limit o 0 0)
        place.0 place.1
      ∙ poll_loop_lem inner.term_length inner.log.buffer inner.receiver_position
          (t % 4 * inner.term_length) inner.term_length s.subscriber_position_local limit off 0 0
          (t * inner.term_length) fs end w.laid w.end_in ends (omega (arith, w.subscriber))
          w.receiver (omega (arith, product_lt t inner.term_length w.term w.large)) (omega arith)

  count_lem :
      (count : ℕ) (payloads took : List (List ℕ))
      → count ≡ 0 + length payloads
      → payloads ≡ messages took
      → count ≡ length (messages took)
  count_lem count payloads took c p = omega (arith, c, ap length p)

  moved :
      (inner' : ImageInner) (s' : SubscriberImage) (n : ℕ) (rest : List (List ℕ))
      → inner' ≡ record inner { subscriber_position = inner'.subscriber_position }
      → s'.subscriber_position_local ≡ t * inner.term_length + (off + n)
      → Laid inner.log.buffer (t % 4 * inner.term_length) (off + n) rest end
      → ((off + n ≡ inner.term_length) × (rest ≡ [])) ⊎ Waits inner' s' t (off + n) rest end
  unfolding frames
  moved inner' s' n rest same at h = elim (dec_lt (off + n) inner.term_length) [
    | yes room ↦ inr (
        subst (λ i. Waits i s' t (off + n) rest end) (sym same)
          (record {
            power = w.power;
            aligned = w.aligned;
            large = w.large;
            log = w.log;
            mask = w.mask;
            initial = w.initial;
            term = w.term;
            inside = room;
            subscriber = at;
            receiver = w.receiver;
            end_in = w.end_in;
            end_aligned = w.end_aligned;
            laid = h;
            clean = w.clean;
          }))
    | no full ↦
        let edge : off + n ≡ inner.term_length =
          omega (arith, Laid-le inner.log.buffer _ (off + n) rest end h, w.end_in) in
        let last : off + n ≡ end =
          omega (arith, edge, Laid-le inner.log.buffer _ (off + n) rest end h, w.end_in) in
        inl (
          edge,
          nil_at_end inner.log.buffer inner.term_length t rest [] end
              (subst (λ o. Laid inner.log.buffer (t % 4 * inner.term_length) o rest end) last h)
              refl,
        )
  ]

  finish :
      (limit : ℕ) (r : List (List ℕ) × ℕ × ℕ)
      → Took inner.log.buffer (t % 4 * inner.term_length) limit off 0 0 fs end r
      → Delivered inner s t off fs end limit (after inner s r)
  finish limit (payloads, count, scanned) (took, rest, e, p, c, le, h, why) =
      let laid = rw sub-zero at h in
      let fits : off + scanned ≤ end = Laid-le inner.log.buffer _ (off + scanned) rest end laid in
      let frags = ap (fragments_of inner) p in
      let counted = count_lem count payloads took c p in
      elim (Bool-cases (ltb 0 scanned)) [
        | inl some_bytes ↦
            let at : add64 s.subscriber_position_local scanned
                ≡ s.subscriber_position_local + scanned =
              omega (
                arith,
                w.subscriber,
                fits,
                w.end_in,
                w.large,
                product_lt t inner.term_length w.term w.large,
              ) in
            rw some_bytes (
              took,
              rest,
              scanned,
              e,
              frags,
              counted,
              why,
              at,
              moved _ _ scanned rest refl (omega (arith, at, w.subscriber)) laid,
            )
        | inr nothing ↦
            let zero_bytes : scanned ≡ 0 = ground (arith, nothing) in
            rw nothing (
              took,
              rest,
              scanned,
              e,
              frags,
              counted,
              why,
              omega (arith, zero_bytes),
              moved inner s scanned rest refl (omega (arith, zero_bytes, w.subscriber)) laid,
            )
      ]

  -- The subscriber stands at the frames `fs` that wait for it in its term. A poll with a positive
  -- limit takes the front of them, all of them unless the limit is reached; it delivers the
  -- payloads of those that are no pads, in order, returns how many, and moves the subscriber to
  -- where the others lie.
  pub poll_fragments_lem :
      (limit : ℕ)
      → 0 < limit
      → limit < 2 ^ 31
      → Delivered inner s t off fs end limit (poll_fragments inner s limit)
  poll_fragments_lem limit h k =
      subst (Delivered inner s t off fs end limit)
        (sym (after-found inner s limit h k ∙ ap (after inner s) (found_lem limit)))
        (finish limit (polled inner.term_length limit off 0 0 fs) (
          polled-Took inner.log.buffer (t % 4 * inner.term_length) inner.term_length limit off 0 0
            fs end w.laid w.end_in))
