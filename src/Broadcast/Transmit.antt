-- ===== src/Broadcast/Transmit.antt =====
-- `transmit`: a message joins those that a receiver has not read, as long as it does not overwrite
-- them.
use native.Mathlib.Decide.{dec_lt}
use mathlib.Core.Path.{subst}
use mathlib.Core.List.{append-nil}
use aeron_rs.Prelude.{
  ℕ, ◌+◌, ◌-◌, ◌%◌, ◌^◌, ◌≤◌, ◌<◌, ◌≡◌, refl, sym, ap, ◌∙◌, Option, none, some, List, [], ◌∷◌, ◌++◌,
  arith, length, ltb, if◌then◌else◌, if_true, if_false, lt→ltb, ltb-false,
}
use aeron_rs.Prelude.Memory.{Memory}
use aeron_rs.Records
use aeron_rs.Records.{
  Entry, message, padding, size_of, align_record, messages_of, messages_of-append, mod_aligned,
  mod_turn,
}
use aeron_rs.Broadcast.{
  BroadcastBuffer, BroadcastTransmitter, BroadcastError, message_too_large, msg_type_padding,
  transmit, write_record, write_padding,
}
use aeron_rs.Broadcast.Layout.{
  Lay, EntryAt, EntryAt-ext, write_record_apart, write_record-EntryAt, write_padding_apart,
  write_padding-EntryAt,
}

-- The records `es` lie between `cursor` and the tail, less than a turn away.
pub record Sent (t : BroadcastTransmitter) (b : BroadcastBuffer) (cursor : ℕ) (es : List Entry)
    : Type 0 where
  pub mask : t.mask + 1 ≡ t.capacity
  pub aligned : t.capacity % 32 ≡ 0
  pub positive : 32 ≤ t.capacity
  pub large : t.capacity ≤ 2 ^ 30
  pub tail_aligned : b.tail_counter % 32 ≡ 0
  pub ahead : cursor ≤ b.tail_counter
  pub bounded : b.tail_counter ≤ cursor + t.capacity
  pub small : b.tail_counter < 2 ^ 62
  pub laid : Lay b.buffer t.capacity cursor es b.tail_counter

-- A receiver at `cursor` has the messages `q` to read, the oldest first.
abbrev pub Unread : BroadcastTransmitter → BroadcastBuffer → ℕ → List (ℕ × List ℕ) → Type 0
Unread t b cursor q = (es : List Entry) × Sent t b cursor es × (messages_of es ≡ q)

-- The bytes between the tail and the end of the buffer.
abbrev pub to_end : BroadcastTransmitter → BroadcastBuffer → ℕ
to_end t b = t.capacity - b.tail_counter % t.capacity

-- What a record takes at the tail: with the padding in front of it, if it does not fit before the
-- end of the buffer.
abbrev pub needed : BroadcastTransmitter → BroadcastBuffer → ℕ → ℕ
needed t b n = if ltb (to_end t b) n then to_end t b + n else n

transmit_near :
    (t : BroadcastTransmitter) (b : BroadcastBuffer) (msg_type : ℕ) (payload : List ℕ)
    → t.mask + 1 ≡ t.capacity
    → t.capacity ≤ 2 ^ 30
    → b.tail_counter < 2 ^ 62
    → length payload + 8 ≤ t.capacity
    → align_record (length payload + 8) ≤ to_end t b
    → transmit t b msg_type payload ≡ (
      none,
      record {
        buffer = write_record b.buffer (b.tail_counter % t.capacity) msg_type payload;
        tail_counter = b.tail_counter + align_record (length payload + 8);
        latest_counter = b.tail_counter;
      },
    )
unfolding transmit
transmit_near t b msg_type payload mask large small short near = rw mask (ground arith)

transmit_far :
    (t : BroadcastTransmitter) (b : BroadcastBuffer) (msg_type : ℕ) (payload : List ℕ)
    → t.mask + 1 ≡ t.capacity
    → t.capacity ≤ 2 ^ 30
    → b.tail_counter < 2 ^ 62
    → length payload + 8 ≤ t.capacity
    → to_end t b < align_record (length payload + 8)
    → transmit t b msg_type payload ≡ (
      none,
      record {
        buffer =
            write_record
              (write_padding b.buffer (b.tail_counter % t.capacity) (to_end t b % 2 ^ 32))
              0
              msg_type
              payload;
        tail_counter = b.tail_counter + to_end t b + align_record (length payload + 8);
        latest_counter = b.tail_counter + to_end t b;
      },
    )
unfolding transmit
transmit_far t b msg_type payload mask large small short far = rw mask (ground arith)

transmit_large :
    (t : BroadcastTransmitter) (b : BroadcastBuffer) (msg_type : ℕ) (payload : List ℕ)
    → t.capacity < length payload + 8
    → transmit t b msg_type payload ≡ (some message_too_large, b)
unfolding transmit
transmit_large t b msg_type payload h = ground arith

module _ (t : BroadcastTransmitter) (b : BroadcastBuffer) (cursor : ℕ) (es : List Entry)
    (v : Sent t b cursor es) (msg_type : ℕ) (payload : List ℕ) (low : msg_type < msg_type_padding)
    (short : length payload + 8 ≤ t.capacity) where
  abbrev size : ℕ
  size = align_record (length payload + 8)

  index_lt : b.tail_counter % t.capacity < t.capacity
  index_lt = ground (arith, v.positive)

  to_end_aligned : to_end t b % 32 ≡ 0
  to_end_aligned =
      omega
        (arith, v.aligned, index_lt, mod_aligned b.tail_counter t.capacity v.tail_aligned v.aligned)

  Sent-near :
      size ≤ to_end t b
      → b.tail_counter + size ≤ cursor + t.capacity
      → b.tail_counter + t.capacity + t.capacity < 2 ^ 62
      → Sent t
          (record {
            buffer = write_record b.buffer (b.tail_counter % t.capacity) msg_type payload;
            tail_counter = b.tail_counter + size;
            latest_counter = b.tail_counter;
          })
          cursor
          (es ++ message msg_type payload ∷ [])
  Sent-near fits room more = record {
    mask = v.mask;
    aligned = v.aligned;
    positive = v.positive;
    large = v.large;
    tail_aligned = omega (arith, v.tail_aligned);
    ahead = omega (arith, v.ahead);
    bounded = room;
    small = omega (arith, more, fits);
    laid =
        Records.Lay-push EntryAt EntryAt-ext b.buffer _ t.capacity cursor es b.tail_counter
          (message msg_type payload) v.laid
          (write_record-EntryAt b.buffer (b.tail_counter % t.capacity) msg_type payload low
            (omega (arith, short, v.large)))
          (omega (arith, fits, index_lt)) room (omega arith)
          (λ x out.
            sym (write_record_apart b.buffer (b.tail_counter % t.capacity) msg_type payload x out));
  }

  abbrev padded : Memory
  padded = write_padding b.buffer (b.tail_counter % t.capacity) (to_end t b % 2 ^ 32)

  start : (b.tail_counter + to_end t b) % t.capacity ≡ 0
  start = mod_turn b.tail_counter t.capacity (omega (arith, v.positive))

  padded-Lay :
      b.tail_counter + to_end t b ≤ cursor + t.capacity
      → Lay padded t.capacity cursor (es ++ padding (to_end t b) ∷ []) (b.tail_counter + to_end t b)
  padded-Lay room =
      let whole : to_end t b % 2 ^ 32 ≡ to_end t b = omega (arith, v.large) in
      let least : 32 ≤ to_end t b = omega (arith, to_end_aligned, index_lt) in
      Records.Lay-push EntryAt EntryAt-ext b.buffer padded t.capacity cursor es b.tail_counter
        (padding (to_end t b)) v.laid
        (subst
          (λ n.
            EntryAt (write_padding b.buffer (b.tail_counter % t.capacity) n)
              (b.tail_counter % t.capacity) (padding (to_end t b)))
          (sym whole)
          (write_padding-EntryAt b.buffer (b.tail_counter % t.capacity) (to_end t b) least
            to_end_aligned (omega (arith, v.large))))
        (omega (arith, index_lt)) room (omega (arith, least))
        (λ x out. sym (
          write_padding_apart b.buffer (b.tail_counter % t.capacity) (to_end t b % 2 ^ 32) x
            (omega (arith, whole, least)) (omega (arith, whole, out))))

  Sent-far :
      b.tail_counter + to_end t b + size ≤ cursor + t.capacity
      → b.tail_counter + t.capacity + t.capacity < 2 ^ 62
      → Sent t
          (record {
            buffer = write_record padded 0 msg_type payload;
            tail_counter = b.tail_counter + to_end t b + size;
            latest_counter = b.tail_counter + to_end t b;
          })
          cursor
          ((es ++ padding (to_end t b) ∷ []) ++ message msg_type payload ∷ [])
  Sent-far room more = record {
    mask = v.mask;
    aligned = v.aligned;
    positive = v.positive;
    large = v.large;
    tail_aligned = omega (arith, v.tail_aligned, to_end_aligned);
    ahead = omega (arith, v.ahead);
    bounded = room;
    small = omega (arith, more, size_le);
    laid =
        Records.Lay-push EntryAt EntryAt-ext padded _ t.capacity cursor
          (es ++ padding (to_end t b) ∷ []) (b.tail_counter + to_end t b) (message msg_type payload)
          (padded-Lay (omega (arith, room)))
          (subst
            (λ i. EntryAt (write_record padded 0 msg_type payload) i (message msg_type payload))
            (sym start)
            (write_record-EntryAt padded 0 msg_type payload low (omega (arith, short, v.large))))
          (omega (arith, start, size_le)) room (omega arith)
          (λ x out.
            sym (write_record_apart padded 0 msg_type payload x (omega (arith, start, out))));
  }
    where
      size_le : size ≤ t.capacity
      size_le = omega (arith, short, v.aligned)

-- The outcome of a transmission to a buffer of which a receiver at `cursor` has `q` to read.
abbrev pub Transmitted :
    BroadcastTransmitter
    → BroadcastBuffer
    → ℕ
    → List (ℕ × List ℕ)
    → ℕ
    → List ℕ
    → Option BroadcastError × BroadcastBuffer
    → Type 0
Transmitted t b cursor q msg_type payload (outcome, b') =
    (outcome ≡ none)
    × Unread t b' cursor (q ++ (msg_type, payload) ∷ [])
    × (b'.tail_counter ≡ b.tail_counter + needed t b (align_record (length payload + 8)))

-- A receiver at `cursor` has the messages `q` to read. A message whose record is not above the
-- capacity, and that with its padding does not pass the cursor by a turn, is transmitted: it is
-- behind those of `q`, and the tail is behind it.
pub transmit_lem :
    (t : BroadcastTransmitter) (b : BroadcastBuffer) (cursor : ℕ) (q : List (ℕ × List ℕ))
    (msg_type : ℕ) (payload : List ℕ)
    → Unread t b cursor q
    → msg_type < msg_type_padding
    → length payload + 8 ≤ t.capacity
    → b.tail_counter + needed t b (align_record (length payload + 8)) ≤ cursor + t.capacity
    → b.tail_counter + t.capacity + t.capacity < 2 ^ 62
    → Transmitted t b cursor q msg_type payload (transmit t b msg_type payload)
unfolding messages_of
transmit_lem t b cursor q msg_type payload (es, v, e) low short room more =
    elim (dec_lt (to_end t b) (align_record (length payload + 8))) [
      | yes far ↦
          let step =
            if_true (ltb (to_end t b) (align_record (length payload + 8)))
              (to_end t b + align_record (length payload + 8)) (align_record (length payload + 8))
              (lt→ltb _ _ far) in
          subst (Transmitted t b cursor q msg_type payload)
            (sym (transmit_far t b msg_type payload v.mask v.large v.small short far))
            (
              refl,
              (
                (es ++ padding (to_end t b) ∷ []) ++ message msg_type payload ∷ [],
                Sent-far t b cursor es v msg_type payload low short (omega (arith, room, step))
                    more,
                messages_of-append (es ++ padding (to_end t b) ∷ []) (message msg_type payload ∷ [])
                    ∙ ap (λ l. l ++ (msg_type, payload) ∷ [])
                        (messages_of-append es (padding (to_end t b) ∷ [])
                          ∙ append-nil (messages_of es)
                          ∙ e),
              ),
              omega (arith, step),
            )
      | no near ↦
          let fits : align_record (length payload + 8) ≤ to_end t b = omega arith in
          let step =
            if_false (ltb (to_end t b) (align_record (length payload + 8)))
              (to_end t b + align_record (length payload + 8)) (align_record (length payload + 8))
              (ltb-false _ _ fits) in
          subst (Transmitted t b cursor q msg_type payload)
            (sym (transmit_near t b msg_type payload v.mask v.large v.small short fits))
            (
              refl,
              (
                es ++ message msg_type payload ∷ [],
                Sent-near t b cursor es v msg_type payload low short fits
                    (omega (arith, room, step)) more,
                messages_of-append es (message msg_type payload ∷ [])
                    ∙ ap (λ l. l ++ (msg_type, payload) ∷ []) e,
              ),
              omega (arith, step),
            )
    ]
