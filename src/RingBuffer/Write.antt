-- ===== src/RingBuffer/Write.antt =====
-- `write`: what a message becomes in the ring, and when there is no room for it.
use native.Mathlib.Nat.{add_assoc}
use native.Mathlib.Decide.{dec_lt}
use mathlib.Core.Path.{subst}
use mathlib.Core.List.{append-nil}
use aeron_rs.Prelude.{
  ℕ, ◌+◌, ◌%◌, ◌^◌, ◌≤◌, ◌<◌, ◌≡◌, refl, sym, ap, ◌∙◌, ◌⊎◌, inl, inr, Option, none, some, List, [],
  ◌∷◌, ◌++◌, arith, length, ltb, if◌then◌else◌, if_true, if_false, lt→ltb, ltb-false,
}
use aeron_rs.Prelude.Memory.{Memory}
use aeron_rs.RingBuffer.{
  MpscRingBuffer, RingBufferError, full, message_too_large, align_record, put_record, put_padding,
  contiguous, wrapped, claim, write, write_claimed, fill,
}
use aeron_rs.Records.{
  Entry, message, padding, mod_aligned, mod_turn, messages_of, messages_of-append,
}
use aeron_rs.RingBuffer.Room.{
  Ringed, to_end, claim_full, claim_full_end, claim_wrapped, claim_contiguous,
}
use aeron_rs.RingBuffer.Layout.{
  EntryAt, Lay, Lay-push, put_record_apart, put_record-EntryAt, put_padding_apart,
  put_padding-EntryAt,
}

module _ (r : MpscRingBuffer) (es : List Entry) (v : Ringed r es) where
  module _ (msg_type : ℕ) (payload : List ℕ) (pos : 0 < msg_type) (low : msg_type < 2 ^ 31)
      (short : length payload + 8 ≤ r.capacity)
      (more : r.tail_position + r.capacity + r.capacity < 2 ^ 62) where
    abbrev size : ℕ
    size = align_record (length payload + 8)

    size_le : size ≤ r.capacity
    size_le = omega (arith, short, v.aligned)

    index_lt : r.tail_position % r.capacity < r.capacity
    index_lt = ground (arith, v.positive)

    written_contiguous :
        size ≤ to_end r
        → r.tail_position + size ≤ r.head_position + r.capacity
        → Ringed
            (fill
              (record r { tail_position = r.tail_position + size })
              (contiguous (r.tail_position % r.capacity))
              msg_type
              payload)
            (es ++ message msg_type payload ∷ [])
    written_contiguous fits room = record {
      mask = v.mask;
      aligned = v.aligned;
      positive = v.positive;
      large = v.large;
      tail_aligned = omega (arith, v.tail_aligned);
      ahead = omega (arith, v.ahead);
      bounded = room;
      small = omega (arith, more, size_le);
      laid =
          Lay-push r.buffer _ r.capacity r.head_position es r.tail_position
            (message msg_type payload) v.laid
            (put_record-EntryAt r.buffer (r.tail_position % r.capacity) msg_type payload pos
              (omega (arith, low)) (omega (arith, short, v.large)))
            (omega (arith, fits, index_lt)) room (omega arith)
            (λ x out.
              sym
                (put_record_apart r.buffer (r.tail_position % r.capacity) msg_type payload x out));
    }

    to_end_aligned : to_end r % 32 ≡ 0
    to_end_aligned = omega (
      arith,
      v.aligned,
      index_lt,
      mod_aligned r.tail_position r.capacity v.tail_aligned v.aligned,
    )

    abbrev padded : Memory
    padded = put_padding r.buffer (r.tail_position % r.capacity) (to_end r % 2 ^ 32)

    start : (r.tail_position + to_end r) % r.capacity ≡ 0
    start = mod_turn r.tail_position r.capacity (omega (arith, v.positive))

    padded-Lay :
        r.tail_position + (to_end r + size) ≤ r.head_position + r.capacity
        → Lay padded r.capacity r.head_position
            (es ++ padding (to_end r) ∷ [])
            (r.tail_position + to_end r)
    padded-Lay room =
        let whole : to_end r % 2 ^ 32 ≡ to_end r = omega (arith, v.large) in
        let least : 32 ≤ to_end r = omega (arith, to_end_aligned, index_lt) in
        Lay-push r.buffer padded r.capacity r.head_position es r.tail_position (padding (to_end r))
          v.laid
          (subst
            (λ n.
              EntryAt (put_padding r.buffer (r.tail_position % r.capacity) n)
                (r.tail_position % r.capacity) (padding (to_end r)))
            (sym whole)
            (put_padding-EntryAt r.buffer (r.tail_position % r.capacity) (to_end r) least
              to_end_aligned (omega (arith, v.large))))
          (omega (arith, index_lt)) (omega (arith, room)) (omega (arith, least))
          (λ x out. sym (
            put_padding_apart r.buffer (r.tail_position % r.capacity) (to_end r % 2 ^ 32) x
              (omega (arith, whole, least)) (omega (arith, whole, out))))

    written_wrapped :
        r.tail_position + (to_end r + size) ≤ r.head_position + r.capacity
        → Ringed
            (fill
              (record r { tail_position = r.tail_position + (to_end r + size) })
              (wrapped (r.tail_position % r.capacity) (to_end r))
              msg_type
              payload)
            ((es ++ padding (to_end r) ∷ []) ++ message msg_type payload ∷ [])
    written_wrapped room = record {
      mask = v.mask;
      aligned = v.aligned;
      positive = v.positive;
      large = v.large;
      tail_aligned = omega (arith, v.tail_aligned, to_end_aligned);
      ahead = omega (arith, v.ahead);
      bounded = room;
      small = omega (arith, more, size_le);
      laid =
          subst (Lay _ r.capacity r.head_position _) (add_assoc r.tail_position (to_end r) size) (
            Lay-push padded _ r.capacity r.head_position (es ++ padding (to_end r) ∷ [])
              (r.tail_position + to_end r) (message msg_type payload) (padded-Lay room)
              (subst
                (λ i. EntryAt (put_record padded 0 msg_type payload) i (message msg_type payload))
                (sym start)
                (put_record-EntryAt padded 0 msg_type payload pos (omega (arith, low))
                  (omega (arith, short, v.large))))
              (omega (arith, start, size_le)) (omega (arith, room)) (omega arith)
              (λ x out.
                sym (put_record_apart padded 0 msg_type payload x (omega (arith, start, out)))));
    }

-- The ring holds the messages `q`, the oldest first.
abbrev pub Holds : MpscRingBuffer → List (ℕ × List ℕ) → Type 0
Holds r q = (es : List Entry) × Ringed r es × (messages_of es ≡ q)

-- What a record takes at the tail: with the padding in front of it, if it does not fit before the
-- end of the ring.
abbrev pub needed : MpscRingBuffer → ℕ → ℕ
needed r n = if ltb (to_end r) n then to_end r + n else n

-- The outcome of a write of a record that is not too large, to a ring that holds `q`.
abbrev pub Placed :
    MpscRingBuffer
    → ℕ
    → List ℕ
    → List (ℕ × List ℕ)
    → Option RingBufferError × MpscRingBuffer
    → Type 0
Placed r msg_type payload q (outcome, r') =
    let bytes = needed r (align_record (length payload + 8)) in
    ((r.head_position + r.capacity < r.tail_position + bytes) × (outcome ≡ some full) × (r' ≡ r))
    ⊎ ((outcome ≡ none)
        × Holds r' (q ++ (msg_type, payload) ∷ [])
        × (r'.tail_position ≡ r.tail_position + bytes)
        × (r'.head_position ≡ r.head_position)
        × (r'.capacity ≡ r.capacity))

-- The outcome of a write to a ring that holds `q`.
abbrev pub Written :
    MpscRingBuffer
    → ℕ
    → List ℕ
    → List (ℕ × List ℕ)
    → Option RingBufferError × MpscRingBuffer
    → Type 0
Written r msg_type payload q z =
    ((r.capacity < length payload + 8) × (z ≡ (some message_too_large, r)))
    ⊎ ((length payload + 8 ≤ r.capacity) × Placed r msg_type payload q z)

write_steps :
    (r : MpscRingBuffer) (msg_type : ℕ) (payload : List ℕ)
    → length payload + 8 ≤ r.capacity
    → write r msg_type payload
      ≡ write_claimed (claim r (align_record (length payload + 8))) msg_type payload
unfolding write
write_steps r msg_type payload h = ground arith

write_large :
    (r : MpscRingBuffer) (msg_type : ℕ) (payload : List ℕ)
    → r.capacity < length payload + 8
    → write r msg_type payload ≡ (some message_too_large, r)
unfolding write
write_large r msg_type payload h = ground arith

pub needed_far : (r : MpscRingBuffer) (n : ℕ) → to_end r < n → needed r n ≡ to_end r + n
needed_far r n h = if_true (ltb (to_end r) n) _ _ (lt→ltb _ _ h)

needed_near : (r : MpscRingBuffer) (n : ℕ) → n ≤ to_end r → needed r n ≡ n
needed_near r n h = if_false (ltb (to_end r) n) _ _ (ltb-false _ _ h)

module _ (r : MpscRingBuffer) (es : List Entry) (v : Ringed r es) (msg_type : ℕ) (payload : List ℕ)
    (pos : 0 < msg_type) (low : msg_type < 2 ^ 31) (short : length payload + 8 ≤ r.capacity)
    (more : r.tail_position + r.capacity + r.capacity < 2 ^ 62) where
  abbrev n : ℕ
  n = align_record (length payload + 8)

  n_le : n ≤ r.capacity
  n_le = omega (arith, short, v.aligned)

  write_claimed-far :
      to_end r < n
      → Placed r msg_type payload (messages_of es) (write_claimed (claim r n) msg_type payload)
  unfolding messages_of
  write_claimed-far far =
      elim (dec_lt (r.head_position + r.capacity) (r.tail_position + (to_end r + n))) [
        | yes no_room ↦
            rw (claim_full_end r es v n n_le far no_room)
              (inl (omega (arith, needed_far r n far, no_room), refl, refl))
        | no room ↦
            let fits : r.tail_position + (to_end r + n) ≤ r.head_position + r.capacity =
              omega arith in
            rw (claim_wrapped r es v n n_le far fits) (
              inr (
                refl,
                (
                  (es ++ padding (to_end r) ∷ []) ++ message msg_type payload ∷ [],
                  written_wrapped r es v msg_type payload pos low short more fits,
                  messages_of-append (es ++ padding (to_end r) ∷ []) (message msg_type payload ∷ [])
                      ∙ ap (λ l. l ++ (msg_type, payload) ∷ [])
                          (messages_of-append es (padding (to_end r) ∷ [])
                            ∙ append-nil (messages_of es)),
                ),
                ap (λ x. r.tail_position + x) (sym (needed_far r n far)),
                refl,
                refl,
              ))
      ]

  write_claimed-near :
      n ≤ to_end r
      → Placed r msg_type payload (messages_of es) (write_claimed (claim r n) msg_type payload)
  unfolding messages_of
  write_claimed-near near = elim (dec_lt (r.head_position + r.capacity) (r.tail_position + n)) [
    | yes no_room ↦
        rw (claim_full r es v n n_le no_room)
          (inl (omega (arith, needed_near r n near, no_room), refl, refl))
    | no room ↦
        let fits : r.tail_position + n ≤ r.head_position + r.capacity = omega arith in
        rw (claim_contiguous r es v n near fits) (
          inr (
            refl,
            (
              es ++ message msg_type payload ∷ [],
              written_contiguous r es v msg_type payload pos low short more near fits,
              messages_of-append es (message msg_type payload ∷ []),
            ),
            ap (λ x. r.tail_position + x) (sym (needed_near r n near)),
            refl,
            refl,
          ))
  ]

  placed : Placed r msg_type payload (messages_of es) (write_claimed (claim r n) msg_type payload)
  placed = elim (dec_lt (to_end r) n) [
    | yes far ↦ write_claimed-far far
    | no near ↦ write_claimed-near (omega arith)
  ]

-- On a ring that holds the messages `q`, with positions below 2 ^ 62, a write of a message with a
-- positive type has three outcomes: a record above the capacity is refused as too large; one that
-- does not fit between the tail and the head, together with the padding before the end of the ring,
-- is refused as the ring is full; else the message is behind those of `q`.
pub write_lem :
    (r : MpscRingBuffer) (msg_type : ℕ) (payload : List ℕ) (q : List (ℕ × List ℕ))
    → Holds r q
    → 0 < msg_type
    → msg_type < 2 ^ 31
    → r.tail_position + r.capacity + r.capacity < 2 ^ 62
    → Written r msg_type payload q (write r msg_type payload)
write_lem r msg_type payload q (es, v, e) pos low more =
    elim (dec_lt r.capacity (length payload + 8)) [
      | yes large ↦ inl (large, write_large r msg_type payload large)
      | no fits ↦
          let short : length payload + 8 ≤ r.capacity = omega arith in
          inr (
            short,
            subst (λ l. Placed r msg_type payload l (write r msg_type payload)) e
                (subst (Placed r msg_type payload (messages_of es))
                  (sym (write_steps r msg_type payload short))
                  (placed r es v msg_type payload pos low short more)),
          )
    ]
