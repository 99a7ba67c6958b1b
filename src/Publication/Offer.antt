-- ===== src/Publication/Offer.antt =====
-- `offer`: what it returns, and the frames that the publication holds afterwards.
use aeron_rs.Prelude.{
  ℕ, suc, ◌+◌, ◌*◌, ◌/◌, ◌%◌, ◌^◌, ◌≤◌, ◌<◌, ◌≡◌, refl, sym, ap, ap₂, ◌∙◌, inl, inr, List, [], ◌∷◌,
  ◌++◌, arith, length, ltb, if◌then◌else◌, Bool-cases, true, false,
}
use aeron_rs.Prelude.Word.{lt_i64, sub64}
use mathlib.Core.Path.{subst}
use native.Mathlib.Decide.{dec_lt}
use aeron_rs.Prelude.Memory.{write_bytes, write_bytes_apart}
use aeron_rs.Log.{Result, ok, err, partition_index, append_frame, write_pad_frame}
use aeron_rs.Log.Append.{frame_of, with_frame, end_of, append_frame-full, append_frame-fits}
use aeron_rs.Publication.{
  NetworkPublication, OfferError, back_pressured, admin_action, payload_too_large, invalid_state,
  data_header, appended, offer, max_ahead, rotate_term, compute_position,
}
use aeron_rs.Publication.Span.{
  Span, frames, push_head, push_rest, push_term, frames-push, length-push_rest, frames-push_term,
  off_le_last, nil_at_end,
}
use aeron_rs.Log.Pad.{pad_frame}
use aeron_rs.Publication.Rotate.{
  padded, padded_length, padded-Span, padded_full, entered, entered-At, drained-At,
}
use aeron_rs.Publication.State.{
  Span-write, At, Holds, term_count, position_lem, product_lt, div_of_term,
}

-- The frame that `offer` writes for a payload.
abbrev pub offered_frame : NetworkPublication → List ℕ → List ℕ
offered_frame p payload = frame_of (data_header p payload) payload

module _ (p : NetworkPublication) (t off : ℕ) (fs : List (List ℕ)) (gs : List (List (List ℕ)))
    (a : At p t off fs gs) (payload : List ℕ) (short : length payload ≤ p.max_payload_length) where
  partition_lem :
      partition_index p.active_term_id p.initial_term_id * p.raw_log.term_length
      ≡ (t + length gs) % 4 * p.term_length
  partition_lem = ap₂ (λ n l. n % 4 * l) a.term a.log

  -- The publication after an append that fits.
  abbrev pub extended : NetworkPublication
  extended = record p {
    raw_log =
        with_frame p.raw_log (partition_index p.active_term_id p.initial_term_id) p.term_offset
          (data_header p payload) payload;
    term_offset = end_of p.term_offset payload;
    pub_position = compute_position p p.active_term_id (end_of p.term_offset payload);
  }

  -- The publication after a term was padded and the next one entered.
  abbrev pub rotated : NetworkPublication
  rotated = rotate_term (record p {
    raw_log =
        write_pad_frame p.raw_log (partition_index p.active_term_id p.initial_term_id)
          p.term_offset;
  })

  extended_buffer :
      extended.raw_log.buffer
      ≡ write_bytes p.raw_log.buffer
          ((t + length gs) % 4 * p.term_length + p.term_offset)
          (offered_frame p payload)
  extended_buffer =
      ap (λ b. write_bytes p.raw_log.buffer (b + p.term_offset) (offered_frame p payload))
        partition_lem

  pub small : length payload < 2 ^ 30
  small = omega (arith, a.payload, a.large)

  extended-Span :
      end_of p.term_offset payload ≤ p.term_length
      → Span extended.raw_log.buffer p.term_length t off
          (push_head fs gs (offered_frame p payload))
          (push_rest gs (offered_frame p payload))
          (end_of p.term_offset payload)
  extended-Span fits = rw extended_buffer (
      Span-write p t off fs gs a (data_header p payload) payload (omega (arith, small))
        (omega (arith, small)) fits)

  pub extended-At :
      end_of p.term_offset payload ≤ p.term_length
      → At extended t off
          (push_head fs gs (offered_frame p payload))
          (push_rest gs (offered_frame p payload))
  extended-At fits = record {
    power = a.power;
    aligned = a.aligned;
    positive = a.positive;
    large = a.large;
    log = a.log;
    mask = a.mask;
    payload = a.payload;
    initial = a.initial;
    active = a.active;
    term = rw (length-push_rest gs (offered_frame p payload)) a.term;
    terms = rw (length-push_rest gs (offered_frame p payload)) a.terms;
    ahead = rw (length-push_rest gs (offered_frame p payload)) a.ahead;
    sender = a.sender;
    sender_in = a.sender_in;
    sender_term = rw (length-push_rest gs (offered_frame p payload)) a.sender_term;
    offset = fits;
    offset_aligned = omega (arith, a.offset_aligned);
    not_ahead =
        rw (length-push_rest gs (offered_frame p payload))
          (omega (arith, position_lem p t off fs gs a (end_of p.term_offset payload) fits));
    not_behind =
        rw (length-push_rest gs (offered_frame p payload))
          (omega (arith, position_lem p t off fs gs a (end_of p.term_offset payload) fits));
    published = inl (
        rw (length-push_rest gs (offered_frame p payload))
          (position_lem p t off fs gs a (end_of p.term_offset payload) fits));
    span = extended-Span fits;
    clean =
        rw (length-push_rest gs (offered_frame p payload), extended_buffer)
          (λ x lo hi.
            write_bytes_apart p.raw_log.buffer _ (offered_frame p payload) x (omega arith)
            ∙ a.clean x (omega arith) hi);
  }

  -- An append that fits.
  pub offer_fits :
      end_of p.term_offset payload ≤ p.term_length
      → appended p (
          append_frame p.raw_log
            (partition_index p.active_term_id p.initial_term_id)
            p.term_offset
            (data_header p payload)
            payload)
        ≡ (ok (compute_position p p.active_term_id (end_of p.term_offset payload)), extended)
  unfolding appended
  offer_fits fits = rw (
      append_frame-fits p.raw_log (partition_index p.active_term_id p.initial_term_id) p.term_offset
        (data_header p payload) payload (omega arith) (omega (arith, a.large, a.log))
        (omega (arith, a.log, a.offset)) small (omega (arith, a.log)))

  pub offer_full :
      p.term_length < end_of p.term_offset payload
      → appended p (
          append_frame p.raw_log
            (partition_index p.active_term_id p.initial_term_id)
            p.term_offset
            (data_header p payload)
            payload)
        ≡ (err admin_action, rotated)
  unfolding appended
  offer_full full = rw (
      append_frame-full p.raw_log (partition_index p.active_term_id p.initial_term_id) p.term_offset
        (data_header p payload) payload (omega arith) (omega (arith, a.large, a.log))
        (omega (arith, a.log, a.offset)) small (omega (arith, a.log)))

-- The sender is at most two terms behind the writer, and the term count does not wrap.
abbrev pub CanRotate : NetworkPublication → Type 0
CanRotate p = (term_count p ≤ p.sender_position / p.term_length + 2) × (suc (term_count p) < 2 ^ 31)

module _ (p : NetworkPublication) (t off : ℕ) (fs : List (List ℕ)) (gs : List (List (List ℕ)))
    (a : At p t off fs gs) (can : CanRotate p) (used : 0 < p.term_offset) where
  two_terms : off < p.term_length → length gs ≤ 2
  two_terms h = omega (
    arith,
    can.0,
    a.term,
    ap (λ s. s / p.term_length) a.sender,
    div_of_term t p.term_length off h,
  )

  counted : suc (t + length gs) < 2 ^ 31
  counted = omega (arith, can.1, a.term)

  at_offset : p.pub_position ≡ (t + length gs) * p.term_length + p.term_offset
  at_offset = omega (arith, a.published)

  -- The term has room for a pad.
  rotated_padded :
      p.term_offset < p.term_length
      → Holds
          (entered p t off fs gs a (padded p t off fs gs a) (padded_length p t off fs gs a) counted)
          (frames fs gs ++ pad_frame p.term_length p.term_offset ∷ [])
  rotated_padded room = (
    t,
    off,
    push_head fs gs (pad_frame p.term_length p.term_offset),
    push_term (push_rest gs (pad_frame p.term_length p.term_offset)),
    entered-At p t off fs gs a (padded p t off fs gs a) (padded_length p t off fs gs a) counted _ _
        (length-push_rest gs _) (two_terms inside) inside at_offset
        (padded-Span p t off fs gs a room),
    frames-push_term _ _ ∙ frames-push fs gs _,
  )
    where
      inside : off < p.term_length
      inside = elim a.sender_term [
        | inl h ↦ h
        | inr none ↦ omega (
          arith,
          off_le_last p.raw_log.buffer p.term_length t off fs gs p.term_offset a.span none,
        )
      ]

  -- The term is full to its end.
  rotated_unpadded :
      p.term_offset ≡ p.term_length
      → Holds
          (entered p t off fs gs a (padded p t off fs gs a) (padded_length p t off fs gs a) counted)
          (frames fs gs)
  rotated_unpadded full = elim (dec_lt off p.term_length) [
    | yes inside ↦ (
      t,
      off,
      fs,
      push_term gs,
      entered-At p t off fs gs a (padded p t off fs gs a) (padded_length p t off fs gs a) counted fs
          gs refl (two_terms inside) inside at_offset full_span,
      frames-push_term fs gs,
    )
    | no edge ↦ (
      suc t,
      0,
      [],
      [],
      drained-At p t off fs gs a (padded p t off fs gs a) (padded_length p t off fs gs a) counted
          (at_edge edge) (none edge) at_offset,
      unfold frames in
          sym (
            nil_at_end p.raw_log.buffer p.term_length t fs gs p.term_offset
              (subst (λ o. Span p.raw_log.buffer p.term_length t o fs gs p.term_offset)
                (at_edge edge ∙ sym full) a.span)
              (none edge)),
    )
  ]
    where
      at_edge : ¬ (off < p.term_length) → off ≡ p.term_length
      at_edge h = omega (arith, a.sender_in)

      none : ¬ (off < p.term_length) → length gs ≡ 0
      none h = omega (arith, a.sender_term)

      full_span : Span (padded p t off fs gs a).buffer p.term_length t off fs gs p.term_length
      full_span =
          rw (padded_full p t off fs gs a full)
            (subst (Span p.raw_log.buffer p.term_length t off fs gs) full a.span)

-- The payload is within the limit, and the writer less than three terms ahead of the sender.
abbrev pub WasFree : NetworkPublication → List ℕ → Type 0
WasFree p payload =
    (length payload ≤ p.max_payload_length)
    × (p.pub_position < p.sender_position + 3 * p.term_length)

-- What `offer` does, for each of its results.
abbrev pub Offered :
    NetworkPublication → List ℕ → List (List ℕ) → Result OfferError ℕ × NetworkPublication → Type 0
Offered p payload q (ok pos, p') =
    Holds p' (q ++ offered_frame p payload ∷ [])
    × (pos ≡ term_count p * p.term_length + p'.term_offset)
    × (p'.term_offset ≡ end_of p.term_offset payload)
    × (p'.pub_position ≡ pos)
    × WasFree p payload
Offered p payload q (err admin_action, p') =
    (p.term_length < end_of p.term_offset payload)
    × Holds p' (
        if ltb p.term_offset p.term_length
        then q ++ pad_frame p.term_length p.term_offset ∷ []
        else q)
    × WasFree p payload
Offered p payload q (err back_pressured, p') =
    (p.sender_position + 3 * p.term_length ≤ p.pub_position)
    × (length payload ≤ p.max_payload_length)
    × (p' ≡ p)
Offered p payload q (err payload_too_large, p') = (p.max_payload_length < length payload) × (p' ≡ p)
Offered p payload q (err invalid_state, p') = ⊥

if_lt {ℓ} : {A : Type ℓ} (x y : A) (a b : ℕ) → a < b → (if ltb a b then x else y) ≡ x
if_lt x y a b h = ground arith

if_not_lt {ℓ} : {A : Type ℓ} (x y : A) (a b : ℕ) → ¬ (a < b) → (if ltb a b then x else y) ≡ y
if_not_lt x y a b h = ground arith

module _ (p : NetworkPublication) (t off : ℕ) (fs : List (List ℕ)) (gs : List (List (List ℕ)))
    (a : At p t off fs gs) (payload : List ℕ) (can : CanRotate p)
    (short : length payload ≤ p.max_payload_length)
    (near : p.pub_position < p.sender_position + 3 * p.term_length) where
  written_fits :
      end_of p.term_offset payload ≤ p.term_length
      → Offered p payload (frames fs gs) (
          appended p (
            append_frame p.raw_log
              (partition_index p.active_term_id p.initial_term_id)
              p.term_offset
              (data_header p payload)
              payload))
  written_fits fits = rw (offer_fits p t off fs gs a payload short fits) (
    (
      t,
      off,
      push_head fs gs (offered_frame p payload),
      push_rest gs (offered_frame p payload),
      extended-At p t off fs gs a payload short fits,
      frames-push fs gs (offered_frame p payload),
    ),
    rw a.term (position_lem p t off fs gs a (end_of p.term_offset payload) fits),
    refl,
    refl,
    (short, near),
  )

  written_full :
      p.term_length < end_of p.term_offset payload
      → Offered p payload (frames fs gs) (
          appended p (
            append_frame p.raw_log
              (partition_index p.active_term_id p.initial_term_id)
              p.term_offset
              (data_header p payload)
              payload))
  written_full full = rw (offer_full p t off fs gs a payload short full) (
    full,
    elim (dec_lt p.term_offset p.term_length) [
      | yes room ↦
          subst (Holds (rotated p t off fs gs a payload short)) (sym (if_lt _ _ _ _ room))
            (rotated_padded p t off fs gs a can used room)
      | no edge ↦
          subst (Holds (rotated p t off fs gs a payload short)) (sym (if_not_lt _ _ _ _ edge))
            (rotated_unpadded p t off fs gs a can used (omega (arith, a.offset)))
    ],
    (short, near),
  )
    where
      used : 0 < p.term_offset
      used = omega (arith, a.payload, a.aligned, full, short)

pressed :
    (a b m : ℕ) → a ≤ 2 ^ 61 → b ≤ 2 ^ 61 → m ≤ 2 ^ 61 → lt_i64 (sub64 a b) m ≡ false → b + m ≤ a
pressed a b m ha hb hm h = ground arith

unpressed :
    (a b m : ℕ) → a ≤ 2 ^ 61 → b ≤ 2 ^ 61 → m ≤ 2 ^ 61 → lt_i64 (sub64 a b) m ≡ true → a < b + m
unpressed a b m ha hb hm h = ground arith

pub offer_large :
    (p : NetworkPublication) (payload : List ℕ)
    → p.max_payload_length < length payload
    → offer p payload ≡ (err payload_too_large, p)
unfolding offer
offer_large p payload h = ground arith

pub offer_pressed :
    (p : NetworkPublication) (payload : List ℕ)
    → length payload ≤ p.max_payload_length
    → lt_i64 (sub64 p.pub_position p.sender_position) (max_ahead p) ≡ false
    → offer p payload ≡ (err back_pressured, p)
unfolding offer
offer_pressed p payload h e = rw e (ground arith)

pub offer_tries :
    (p : NetworkPublication) (payload : List ℕ)
    → length payload ≤ p.max_payload_length
    → lt_i64 (sub64 p.pub_position p.sender_position) (max_ahead p) ≡ true
    → offer p payload
      ≡ appended p (
          append_frame p.raw_log
            (partition_index p.active_term_id p.initial_term_id)
            p.term_offset
            (data_header p payload)
            payload)
unfolding offer
offer_tries p payload h e = rw e (ground arith)

-- From a publication that holds the frames `q`, whose sender is at most two terms behind and whose
-- term count does not wrap, `offer` returns one of four results. `Ok` and `AdminAction` come only for
-- a payload within the limit and a sender less than three terms behind in bytes. With `Ok` the new frame, the header and the payload, is
-- behind `q`, and the result is the new publication position, the end of the padded frame. With
-- `AdminAction` the frame did not fit the term: the rest of the term is behind `q` as one pad frame,
-- if there is a rest, and the next term is entered. `BackPressured` comes only for a payload
-- within the limit and a sender at least three terms of bytes behind, `PayloadTooLarge` only for a
-- payload over the limit, and both change nothing.
-- `InvalidState` does not come.
pub offer_lem :
    (p : NetworkPublication) (payload : List ℕ) (q : List (List ℕ))
    → Holds p q
    → CanRotate p
    → Offered p payload q (offer p payload)
offer_lem p payload q (t, off, fs, gs, a, e) can =
    subst (λ q. Offered p payload q (offer p payload)) e
      (elim (dec_lt p.max_payload_length (length payload)) [
        | yes large ↦ rw (offer_large p payload large) (large, refl)
        | no short ↦
            elim (Bool-cases (lt_i64 (sub64 p.pub_position p.sender_position) (max_ahead p))) [
              | inl room ↦
                  rw (offer_tries p payload (omega arith) room)
                    (elim (dec_lt p.term_length (end_of p.term_offset payload)) [
                      | yes full ↦
                          written_full p t off fs gs a payload can (omega arith)
                            (omega (arith, close room)) full
                      | no fits ↦
                          written_fits p t off fs gs a payload can (omega arith)
                            (omega (arith, close room)) (omega arith)
                    ])
              | inr behind ↦
                  rw (offer_pressed p payload (omega arith) behind)
                    (omega (arith, far behind), omega arith, refl)
            ]
      ])
  where
    writer : p.pub_position ≤ 2 ^ 61
    writer =
        omega
          (arith, a.not_ahead, a.offset, product_lt (t + length gs) p.term_length a.terms a.large)

    reader : p.sender_position ≤ 2 ^ 61
    reader =
        omega (
          arith,
          a.sender,
          a.sender_in,
          product_lt t p.term_length (omega (arith, a.terms)) a.large,
        )

    far :
        lt_i64 (sub64 p.pub_position p.sender_position) (max_ahead p) ≡ false
        → p.sender_position + max_ahead p ≤ p.pub_position
    far h =
        pressed p.pub_position p.sender_position (max_ahead p) writer reader
          (omega (arith, a.large)) h

    close :
        lt_i64 (sub64 p.pub_position p.sender_position) (max_ahead p) ≡ true
        → p.pub_position < p.sender_position + max_ahead p
    close h =
        unpressed p.pub_position p.sender_position (max_ahead p) writer reader
          (omega (arith, a.large)) h
