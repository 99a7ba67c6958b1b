-- ===== src/Broadcast/Receive.antt =====
-- `receive`: a receiver that was not lapped is handed what was transmitted, in order.
use native.Mathlib.Decide.{ℕ_discrete}
use mathlib.Core.Path.{subst}
use mathlib.Core.List.{append-nil, append_assoc}
use aeron_rs.Prelude.{
  ℕ, zero, suc, ◌+◌, ◌%◌, ◌^◌, ◌≤◌, ◌<◌, ◌≡◌, refl, sym, ap, ap₂, ◌∙◌, List, [], ◌∷◌, ◌++◌, arith,
  length, ◌==◌, if_true, if_false,
}
use aeron_rs.Prelude.Word.{add64, sub64, sign_extend, lt_i64}
use aeron_rs.Prelude.Memory.{Memory}
use aeron_rs.Records
use aeron_rs.Records.{Entry, message, padding, size_of, align_record, messages_of}
use aeron_rs.Broadcast.{
  BroadcastBuffer, BroadcastTransmitter, BroadcastReceiver, msg_type_padding, transmit,
  receive_loop, receive, caught_up,
}
use aeron_rs.Broadcast.Layout.{Lay, EntryAt}
use aeron_rs.Broadcast.Transmit.{Unread, needed, transmit_lem}

receive_message :
    (fuel : ℕ) (m : Memory) (cap mask tail cur k msg_type : ℕ) (payload : List ℕ)
    → mask + 1 ≡ cap
    → EntryAt m (cur % cap) (message msg_type payload)
    → cur < tail
    → cur < 2 ^ 62
    → receive_loop (suc fuel) m mask tail cur k ≡ (
        let (calls, n, last) =
          receive_loop fuel m mask tail (cur + align_record (length payload + 8)) (k + 1) in
        ((msg_type, payload) ∷ calls, n, last))
unfolding receive_loop
receive_message fuel m cap mask tail cur k msg_type payload mk h lt low =
    let body : sub64 (sign_extend (length payload + 8)) 8 ≡ length payload = ground (arith, h.4) in
    let next : add64 cur (align_record (sign_extend (length payload + 8)))
        ≡ cur + align_record (length payload + 8) =
      ground (arith, h.4) in
    let some_length : sign_extend (length payload + 8) ≡ length payload + 8 = ground (arith, h.4) in
    rw (mk, h.0, h.1, body, next, some_length, h.2) (ground (arith, h.3, h.4))

receive_padding :
    (fuel : ℕ) (m : Memory) (cap mask tail cur k n : ℕ)
    → mask + 1 ≡ cap
    → EntryAt m (cur % cap) (padding n)
    → cur < tail
    → cur < 2 ^ 62
    → receive_loop (suc fuel) m mask tail cur k ≡ receive_loop fuel m mask tail (cur + n) k
unfolding receive_loop
receive_padding fuel m cap mask tail cur k n mk h lt low =
    let next : add64 cur (align_record (sign_extend n)) ≡ cur + n = ground (arith, h.3, h.4) in
    let some_length : sign_extend n ≡ n = ground (arith, h.4) in
    rw (mk, h.0, h.1, next, some_length) (ground (arith, h.2))

receive_end :
    (fuel : ℕ) (m : Memory) (mask tail k : ℕ) → receive_loop fuel m mask tail tail k ≡ ([], k, tail)
unfolding receive_loop
receive_end zero m mask tail k = refl
receive_end (suc fuel) m mask tail k = ground arith

receive_loop_lem :
    (fuel : ℕ) (m : Memory) (cap mask tail cur k : ℕ) (es : List Entry)
    → mask + 1 ≡ cap
    → Lay m cap cur es tail
    → tail < 2 ^ 62
    → tail ≤ cur + fuel
    → receive_loop fuel m mask tail cur k ≡ (messages_of es, k + length (messages_of es), tail)
unfolding messages_of
receive_loop_lem fuel m cap mask tail cur k [] mk h low enough =
    ap (λ c. receive_loop fuel m mask tail c k) h
    ∙ receive_end fuel m mask tail k
    ∙ ap (λ n. ([], n, tail)) (omega arith)
receive_loop_lem zero m cap mask tail cur k (message msg_type payload ∷ es) mk h low enough =
    absurd (
      omega (
        arith,
        enough,
        Records.Lay-le EntryAt m cap (cur + align_record (length payload + 8)) es tail h.2,
      ))
receive_loop_lem zero m cap mask tail cur k (padding n ∷ es) mk h low enough =
    absurd (omega (arith, enough, h.0.2, Records.Lay-le EntryAt m cap (cur + n) es tail h.2))
receive_loop_lem (suc fuel) m cap mask tail cur k (message msg_type payload ∷ es) mk h low enough =
    let le = Records.Lay-le EntryAt m cap (cur + align_record (length payload + 8)) es tail h.2 in
    receive_message fuel m cap mask tail cur k msg_type payload mk h.0 (omega (arith, le))
      (omega (arith, le, low))
    ∙ ap (λ z. let (calls, n, last) = z in ((msg_type, payload) ∷ calls, n, last))
        (receive_loop_lem fuel m cap mask tail (cur + align_record (length payload + 8)) (k + 1) es
          mk h.2 low (omega (arith, enough)))
    ∙ ap (λ n. ((msg_type, payload) ∷ messages_of es, n, tail)) (omega arith)
receive_loop_lem (suc fuel) m cap mask tail cur k (padding n ∷ es) mk h low enough =
    let le = Records.Lay-le EntryAt m cap (cur + n) es tail h.2 in
    receive_padding fuel m cap mask tail cur k n mk h.0 (omega (arith, le, h.0.2))
      (omega (arith, le, low))
    ∙ receive_loop_lem fuel m cap mask tail (cur + n) k es mk h.2 low (omega (arith, enough, h.0.2))

receive_steps :
    (r : BroadcastReceiver) (b : BroadcastBuffer)
    → caught_up r b.tail_counter ≡ r
    → receive r b ≡ (
        let (calls, n, last) = receive_loop r.capacity b.buffer r.mask b.tail_counter r.cursor 0 in
        ((calls, n), record r { cursor = last }))
unfolding receive
receive_steps r b same = elim (ℕ_discrete r.cursor b.tail_counter) [
  | yes none_sent ↦
      if_true (r.cursor == b.tail_counter) _ _ (ground arith)
      ∙ sym (
          ap
            (λ c.
              let (calls, n, last) = receive_loop r.capacity b.buffer r.mask b.tail_counter c 0 in
              ((calls, n), record r { cursor = last }))
            none_sent
          ∙ ap (λ z. let (calls, n, last) = z in ((calls, n), record r { cursor = last }))
              (receive_end r.capacity b.buffer r.mask b.tail_counter 0)
          ∙ ap (λ c. (([], 0), record r { cursor = c })) (sym none_sent))
  | no some_bytes ↦
      if_false (r.cursor == b.tail_counter) _ _ (ground arith)
      ∙ ap
          (λ r'.
            let (calls, n, last) =
              receive_loop r.capacity b.buffer r.mask b.tail_counter r'.cursor 0 in
            ((calls, n), record r' { cursor = last }))
          same
]

receive_lem :
    (t : BroadcastTransmitter) (b : BroadcastBuffer) (r : BroadcastReceiver) (q : List (ℕ × List ℕ))
    → Unread t b r.cursor q
    → r.capacity ≡ t.capacity
    → r.mask ≡ t.mask
    → receive r b ≡ ((q, length q), record r { cursor = b.tail_counter })
receive_lem t b r q (es, v, e) cap_same mask_same =
    receive_steps r b not_lapped
    ∙ ap (λ z. let (calls, n, last) = z in ((calls, n), record r { cursor = last }))
        (receive_loop_lem r.capacity b.buffer t.capacity r.mask b.tail_counter r.cursor 0 es
            (omega (arith, mask_same, v.mask)) v.laid v.small (omega (arith, cap_same, v.bounded))
          ∙ ap₂ (λ l n. (l, n, b.tail_counter)) e (omega (arith, ap length e)))
  where
    not_lapped : caught_up r b.tail_counter ≡ r
    not_lapped =
        if_false (lt_i64 r.capacity (sub64 b.tail_counter r.cursor)) _ _
          (ground (arith, cap_same, v.bounded, v.ahead, v.small, v.large))

-- The messages, transmitted one after another.
unfoldable pub transmit_all :
    BroadcastTransmitter → BroadcastBuffer → List (ℕ × List ℕ) → BroadcastBuffer
transmit_all t b [] = b
transmit_all t b ((msg_type, payload) ∷ ms) = transmit_all t (transmit t b msg_type payload).1 ms

-- None of the messages is padding or too large, or overwrites what a receiver at `cursor` has to read.
abbrev pub AllFit : BroadcastTransmitter → BroadcastBuffer → ℕ → List (ℕ × List ℕ) → Type 0
AllFit t b cursor [] = Unit
AllFit t b cursor ((msg_type, payload) ∷ ms) =
    (msg_type < msg_type_padding)
    × (length payload + 8 ≤ t.capacity)
    × (b.tail_counter + needed t b (align_record (length payload + 8)) ≤ cursor + t.capacity)
    × (b.tail_counter + t.capacity + t.capacity < 2 ^ 62)
    × AllFit t (transmit t b msg_type payload).1 cursor ms

-- A receiver over the transmitter's capacity has the messages `q` to read, and others are
-- transmitted one after another that overwrite none of these, nor one another. Then the receiver is
-- handed all of `q` and the others, in order, is told how many they are, and stands at the tail, not
-- lapped.
pub transmitted_is_received :
    (t : BroadcastTransmitter) (b : BroadcastBuffer) (r : BroadcastReceiver)
    (q ms : List (ℕ × List ℕ))
    → Unread t b r.cursor q
    → r.capacity ≡ t.capacity
    → r.mask ≡ t.mask
    → AllFit t b r.cursor ms
    → receive r (transmit_all t b ms)
      ≡ ((q ++ ms, length (q ++ ms)), record r { cursor = (transmit_all t b ms).tail_counter })
unfolding transmit_all
transmitted_is_received t b r q [] h cap_same mask_same fit =
    subst (λ l. receive r b ≡ ((l, length l), record r { cursor = b.tail_counter }))
      (sym (append-nil q)) (receive_lem t b r q h cap_same mask_same)
transmitted_is_received t b r q ((msg_type, payload) ∷ ms) h cap_same mask_same
      (low, short, room, more, fit) =
    let (outcome, h', tail) = transmit_lem t b r.cursor q msg_type payload h low short room more in
    let b' = (transmit t b msg_type payload).1 in
    subst
      (λ l.
        receive r (transmit_all t b' ms)
        ≡ ((l, length l), record r { cursor = (transmit_all t b' ms).tail_counter }))
      (append_assoc q ((msg_type, payload) ∷ []) ms)
      (transmitted_is_received t b' r (q ++ (msg_type, payload) ∷ []) ms h' cap_same mask_same fit)
