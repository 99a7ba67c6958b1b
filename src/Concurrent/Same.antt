-- ===== src/Concurrent/Same.antt =====
-- Each operation of the two handles does what that of the network publication does.
use native.Mathlib.Decide.{dec_lt}
use mathlib.Core.Path.{subst}
use aeron_rs.Prelude.{
  ℕ, ◌+◌, ◌-◌, ◌*◌, ◌%◌, ◌^◌, ◌≤◌, ◌<◌, ◌≡◌, refl, sym, ap, ap₂, ◌∙◌, not, Bool-cases, inl, inr,
  List, [], ◌∷◌, arith, length, ltb, ltb-false, if◌then◌else◌, if_true, if_false, true, false,
  lt→ltb,
}
use aeron_rs.Prelude.Word.{lt_i64, sub64, add32}
use aeron_rs.Prelude.Memory.{write_bytes}
use aeron_rs.Frame.{data_header_length}
use aeron_rs.Frame.Data.{bytes}
use aeron_rs.Log.{
  RawLog, Result, ok, err, AppendError, partition_index, append_frame, write_pad_frame,
  clean_partition, pad_header,
}
use aeron_rs.Log.Append.{frame_of, end_of, append_frame-full, append_frame-fits, with_frame}
use aeron_rs.Log.Pad.{write_pad_frame_lem, write_pad_frame_small, term_length-write_pad_frame}
use aeron_rs.Log.Stores.{frame_stores, pad_stores}
use aeron_rs.Log.Shared
use aeron_rs.Publication.{
  NetworkPublication, OfferError, back_pressured, admin_action, payload_too_large, data_header,
  appended,
}
use aeron_rs.Publication
use aeron_rs.Publication.Offer.{offer_tries, offer_large, offer_pressed}
use aeron_rs.Concurrent.{
  PublicationInner, ConcurrentPublication, SenderPublication, offer, offer_stores, outcome,
  rotate_term, compute_position, open_header, frame_base, write_header, write_payload, commit,
  new_offset, publish, write_pad_tail, commit_pad, has_pad, max_ahead,
}

-- The network publication that the shared state and the handles make up.
abbrev pub joined :
    PublicationInner → ConcurrentPublication → SenderPublication → NetworkPublication
joined inner c s = record {
  raw_log = inner.log;
  initial_term_id = inner.initial_term_id;
  active_term_id = c.active_term_id;
  term_offset = c.term_offset;
  term_length = inner.term_length;
  term_length_mask = inner.term_length_mask;
  position_bits_to_shift = inner.position_bits_to_shift;
  pub_position = c.pub_position_local;
  sender_position = s.sender_position_local;
  session_id = inner.session_id;
  stream_id = inner.stream_id;
  mtu = inner.mtu;
  max_payload_length = inner.max_payload_length;
}

-- What the handles keep between two operations.
pub record Agree (inner : PublicationInner) (c : ConcurrentPublication) (s : SenderPublication)
    : Type 0 where
  pub log : inner.log.term_length ≡ inner.term_length
  pub large : inner.term_length ≤ 2 ^ 30
  pub aligned : inner.term_length % 32 ≡ 0
  pub offset : c.term_offset ≤ inner.term_length
  pub offset_aligned : c.term_offset % 32 ≡ 0
  pub payload : inner.max_payload_length < 2 ^ 30
  pub published : inner.pub_position ≡ c.pub_position_local
  pub scanned : inner.sender_position ≡ s.sender_position_local

clean_same :
    (log : RawLog) (idx : ℕ) → idx < 4 → Shared.clean_partition log idx ≡ clean_partition log idx
unfolding Shared.clean_partition clean_partition
clean_same log idx h = ground arith

term_length-clean :
    (log : RawLog) (idx : ℕ) → (Shared.clean_partition log idx).term_length ≡ log.term_length
unfolding Shared.clean_partition
term_length-clean log idx = ground arith

module _ (inner : PublicationInner) (c : ConcurrentPublication) (s : SenderPublication)
    (v : Agree inner c s) (payload : List ℕ) where
  offset_lem :
      length payload ≤ inner.max_payload_length
      → new_offset c payload ≡ end_of c.term_offset payload
  offset_lem h = omega (arith, v.payload, v.large, v.offset)

  -- The publication after the four steps.
  abbrev wrote : PublicationInner × ConcurrentPublication
  wrote = publish (commit (write_payload (write_header inner c) c payload) c payload) c payload

  abbrev padded : PublicationInner
  padded = if has_pad inner c then commit_pad (write_pad_tail inner c) c else inner

  wrote_log :
      length payload ≤ inner.max_payload_length
      → wrote.0.log ≡ record inner.log {
        buffer =
            write_bytes inner.log.buffer
              (frame_base inner c)
              (frame_of (data_header (joined inner c s) payload) payload);
      }
  wrote_log h =
      ap (λ b. record inner.log { buffer = b })
        (frame_stores inner.log.buffer (frame_base inner c) (open_header inner c)
          ((data_header_length + length payload) % 2 ^ 32) payload)

  padded_log :
      padded.log
      ≡ write_pad_frame inner.log
          (partition_index c.active_term_id inner.initial_term_id)
          c.term_offset
  padded_log = elim (dec_lt inner.term_length (c.term_offset + 32)) [
    | yes short ↦
        ap (λ i. i.log)
          (if_false (has_pad inner c) (commit_pad (write_pad_tail inner c) c) inner (ground arith))
        ∙ sym (write_pad_frame_small inner.log _ c.term_offset (omega (arith, v.log)))
    | no room ↦
        ap (λ i. i.log)
          (if_true (has_pad inner c) (commit_pad (write_pad_tail inner c) c) inner (ground arith))
        ∙ ap (λ b. record inner.log { buffer = b })
            (pad_stores inner.log.buffer (frame_base inner c) (inner.term_length - c.term_offset)
              c.term_offset)
        ∙ ap
            (λ l. record inner.log {
              buffer =
                  write_bytes inner.log.buffer
                    (partition_index c.active_term_id inner.initial_term_id * l + c.term_offset)
                    (bytes (pad_header (l - c.term_offset) c.term_offset));
            })
            (sym v.log)
        ∙ sym (
            write_pad_frame_lem inner.log (partition_index c.active_term_id inner.initial_term_id)
              c.term_offset (omega arith) (omega (arith, v.log)))
  ]

  refused_large :
      inner.max_payload_length < length payload
      → offer inner c payload ≡ (err payload_too_large, inner, c)
  unfolding offer offer_stores
  refused_large h = ground arith

  refused_pressed :
      length payload ≤ inner.max_payload_length
      → lt_i64 (sub64 c.pub_position_local inner.sender_position) (max_ahead inner) ≡ false
      → offer inner c payload ≡ (err back_pressured, inner, c)
  unfolding offer offer_stores
  refused_pressed h e = ap outcome (
      if_false _ _ _ (ltb-false inner.max_payload_length (length payload) h)
      ∙ if_true (not (lt_i64 (sub64 c.pub_position_local inner.sender_position) (max_ahead inner)))
          _ _ (ap not e))

  -- The shared states between the stores of a frame, and of a pad.
  abbrev frame_states : List PublicationInner
  frame_states =
      write_header inner c
      ∷ write_payload (write_header inner c) c payload
      ∷ commit (write_payload (write_header inner c) c payload) c payload
      ∷ []

  abbrev pad_states : List PublicationInner
  pad_states =
      if has_pad inner c
      then write_pad_tail inner c ∷ commit_pad (write_pad_tail inner c) c ∷ []
      else []

  tries :
      length payload ≤ inner.max_payload_length
      → lt_i64 (sub64 c.pub_position_local inner.sender_position) (max_ahead inner) ≡ true
      → offer_stores inner c payload ≡ (
          if ltb inner.term_length (new_offset c payload)
          then (pad_states, err admin_action, (rotate_term padded c).0, (rotate_term padded c).1)
          else (frame_states, ok (wrote.1).pub_position_local, wrote.0, wrote.1))
  unfolding offer_stores
  tries h e =
      if_false _ _ _ (ltb-false inner.max_payload_length (length payload) h)
      ∙ if_false (not (lt_i64 (sub64 c.pub_position_local inner.sender_position) (max_ahead inner)))
          _ _ (ap not e)

  padded_eq : padded ≡ record inner { log = padded.log }
  padded_eq = elim (Bool-cases (has_pad inner c)) [ inl h ↦ simp h refl | inr h ↦ simp h refl ]

  wrote_same :
      length payload ≤ inner.max_payload_length
      → end_of c.term_offset payload ≤ inner.term_length
      → (ok (wrote.1).pub_position_local, joined wrote.0 wrote.1 s)
        ≡ appended (joined inner c s) (
            append_frame inner.log
              (partition_index c.active_term_id inner.initial_term_id)
              c.term_offset
              (data_header (joined inner c s) payload)
              payload)
  unfolding appended compute_position Publication.compute_position
  wrote_same h fits =
      ap₂ place (offset_lem h) log
      ∙ ap (appended (joined inner c s)) (
          sym (
            append_frame-fits inner.log (partition_index c.active_term_id inner.initial_term_id)
              c.term_offset (data_header (joined inner c s) payload) payload (omega arith)
              (omega (arith, v.log, v.large)) (omega (arith, v.log, v.offset))
              (omega (arith, v.payload, h)) (omega (arith, v.log, fits))))
    where
      place : ℕ → RawLog → Result OfferError ℕ × NetworkPublication
      place o l = (
        ok (Publication.compute_position (joined inner c s) c.active_term_id o),
        record (joined inner c s) {
          raw_log = l;
          term_offset = o;
          pub_position = Publication.compute_position (joined inner c s) c.active_term_id o;
        },
      )

      log :
          wrote.0.log
          ≡ with_frame inner.log
              (partition_index c.active_term_id inner.initial_term_id)
              c.term_offset
              (data_header (joined inner c s) payload)
              payload
      log =
          wrote_log h
          ∙ ap
              (λ l. record inner.log {
                buffer =
                    write_bytes inner.log.buffer
                      (partition_index c.active_term_id inner.initial_term_id * l + c.term_offset)
                      (frame_of (data_header (joined inner c s) payload) payload);
              })
              (sym v.log)

  rotated_same :
      joined (rotate_term padded c).0 (rotate_term padded c).1 s
      ≡ Publication.rotate_term (record (joined inner c s) {
        raw_log =
            write_pad_frame inner.log
              (partition_index c.active_term_id inner.initial_term_id)
              c.term_offset;
      })
  unfolding rotate_term Publication.rotate_term
  rotated_same =
      ap (λ i. joined (rotate_term i c).0 (rotate_term i c).1 s) padded_eq
      ∙ ap
          (λ l. record (joined inner c s) {
            active_term_id = add32 c.active_term_id 1;
            term_offset = 0;
            raw_log = l;
          })
          (clean_same padded.log (partition_index (add32 c.active_term_id 1) inner.initial_term_id)
              (omega arith)
            ∙ ap
                (λ l.
                  clean_partition l
                    (partition_index (add32 c.active_term_id 1) inner.initial_term_id))
                padded_log)

  abbrev both :
      Result OfferError ℕ × PublicationInner × ConcurrentPublication
      → Result OfferError ℕ × NetworkPublication
  both z = (z.0, joined z.1 z.2 s)

  abbrev append : Result AppendError ℕ × RawLog
  append =
      append_frame inner.log (partition_index c.active_term_id inner.initial_term_id) c.term_offset
        (data_header (joined inner c s) payload) payload

  append_full :
      length payload ≤ inner.max_payload_length
      → inner.term_length < end_of c.term_offset payload
      → appended (joined inner c s) append
        ≡ (err admin_action, joined (rotate_term padded c).0 (rotate_term padded c).1 s)
  unfolding appended
  append_full h full =
      ap (appended (joined inner c s)) (
        append_frame-full inner.log (partition_index c.active_term_id inner.initial_term_id)
          c.term_offset (data_header (joined inner c s) payload) payload (omega arith)
          (omega (arith, v.log, v.large)) (omega (arith, v.log, v.offset))
          (omega (arith, v.payload, h)) (omega (arith, v.log, full)))
      ∙ (λ i. (err admin_action, sym rotated_same i))

  passes :
      length payload ≤ inner.max_payload_length
      → lt_i64 (sub64 c.pub_position_local inner.sender_position) (max_ahead inner) ≡ true
      → both (offer inner c payload) ≡ appended (joined inner c s) append
  unfolding offer
  passes h e = elim (dec_lt inner.term_length (end_of c.term_offset payload)) [
    | yes full ↦
        ap (λ z. both (outcome z))
          (tries h e
            ∙ if_true (ltb inner.term_length (new_offset c payload)) _ _
                (lt→ltb _ _ (omega (arith, offset_lem h))))
        ∙ sym (append_full h full)
    | no fits ↦
        ap (λ z. both (outcome z))
          (tries h e
            ∙ if_false (ltb inner.term_length (new_offset c payload)) _ _
                (ltb-false _ _ (omega (arith, offset_lem h))))
        ∙ wrote_same h (omega arith)
  ]

  pub offer_same : both (offer inner c payload) ≡ Publication.offer (joined inner c s) payload
  offer_same = elim (dec_lt inner.max_payload_length (length payload)) [
    | yes large ↦ ap both (refused_large large) ∙ sym (offer_large (joined inner c s) payload large)
    | no short ↦
        elim (Bool-cases
          (lt_i64 (sub64 c.pub_position_local inner.sender_position) (max_ahead inner))) [
            | inl room ↦
                passes (omega arith) room
                ∙ sym (offer_tries (joined inner c s) payload (omega arith) (rw v.scanned at room))
            | inr behind ↦
                ap both (refused_pressed (omega arith) behind)
                ∙ sym (
                    offer_pressed (joined inner c s) payload (omega arith) (rw v.scanned at behind))
          ]
  ]

  wrote-Agree :
      length payload ≤ inner.max_payload_length
      → end_of c.term_offset payload ≤ inner.term_length
      → Agree wrote.0 wrote.1 s
  wrote-Agree h fits = record {
    log = v.log;
    large = v.large;
    aligned = v.aligned;
    offset = omega (arith, offset_lem h, fits);
    offset_aligned = omega (arith, offset_lem h, v.offset_aligned);
    payload = v.payload;
    published = refl;
    scanned = v.scanned;
  }

  rotated-Agree : Agree (rotate_term padded c).0 (rotate_term padded c).1 s
  unfolding rotate_term
  rotated-Agree =
      subst (λ i. Agree (rotate_term i c).0 (rotate_term i c).1 s) (sym padded_eq)
        (record {
          log =
              term_length-clean padded.log
                (partition_index (add32 c.active_term_id 1) inner.initial_term_id)
              ∙ ap (λ l. l.term_length) padded_log
              ∙ term_length-write_pad_frame inner.log _ c.term_offset
              ∙ v.log;
          large = v.large;
          aligned = v.aligned;
          offset = omega arith;
          offset_aligned = refl;
          payload = v.payload;
          published = v.published;
          scanned = v.scanned;
        })

  abbrev Agrees : Result OfferError ℕ × PublicationInner × ConcurrentPublication → Type 0
  Agrees z = Agree z.1 z.2 s

  passes-Agree :
      length payload ≤ inner.max_payload_length
      → lt_i64 (sub64 c.pub_position_local inner.sender_position) (max_ahead inner) ≡ true
      → Agrees (offer inner c payload)
  unfolding offer
  passes-Agree h e = elim (dec_lt inner.term_length (end_of c.term_offset payload)) [
    | yes full ↦
        subst (λ z. Agrees (outcome z))
          (sym (
            tries h e
            ∙ if_true (ltb inner.term_length (new_offset c payload)) _ _
                (lt→ltb _ _ (omega (arith, offset_lem h)))))
          rotated-Agree
    | no fits ↦
        subst (λ z. Agrees (outcome z))
          (sym (
            tries h e
            ∙ if_false (ltb inner.term_length (new_offset c payload)) _ _
                (ltb-false _ _ (omega (arith, offset_lem h)))))
          (wrote-Agree h (omega arith))
  ]

  pub offer-Agree : Agree (offer inner c payload).1 (offer inner c payload).2 s
  offer-Agree = elim (dec_lt inner.max_payload_length (length payload)) [
    | yes large ↦ subst Agrees (sym (refused_large large)) v
    | no short ↦
        elim (Bool-cases
          (lt_i64 (sub64 c.pub_position_local inner.sender_position) (max_ahead inner))) [
            | inl room ↦ passes-Agree (omega arith) room
            | inr behind ↦ subst Agrees (sym (refused_pressed (omega arith) behind)) v
          ]
  ]

  -- An offer that returns a position had room for its frame, and made all its stores.
  pub went :
      (position : ℕ)
      → (offer inner c payload).0 ≡ ok position
      → (length payload ≤ inner.max_payload_length)
        × (end_of c.term_offset payload ≤ inner.term_length)
        × (offer_stores inner c payload
            ≡ (frame_states, ok (wrote.1).pub_position_local, wrote.0, wrote.1))
  unfolding offer
  went position e = elim (dec_lt inner.max_payload_length (length payload)) [
    | yes large ↦ absurd (ground (arith, sym (ap (λ z. z.0) (refused_large large)), e))
    | no short ↦
        elim (Bool-cases
          (lt_i64 (sub64 c.pub_position_local inner.sender_position) (max_ahead inner))) [
            | inl room ↦ elim (dec_lt inner.term_length (end_of c.term_offset payload)) [
              | yes full ↦ absurd (
                  ground (
                    arith,
                    e,
                    ap (λ z. (outcome z).0)
                        (tries (omega arith) room
                          ∙ if_true (ltb inner.term_length (new_offset c payload)) _ _
                              (lt→ltb _ _ (omega (arith, offset_lem (omega arith))))),
                  ))
              | no fits ↦ (
                omega arith,
                omega arith,
                tries (omega arith) room
                    ∙ if_false (ltb inner.term_length (new_offset c payload)) _ _
                        (ltb-false _ _ (omega (arith, offset_lem (omega arith)))),
              )
            ]
            | inr behind ↦ absurd (ground (arith, e, refused_pressed (omega arith) behind))
          ]
  ]
