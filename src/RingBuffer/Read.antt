-- ===== src/RingBuffer/Read.antt =====
-- `read` hands on all messages of the ring, in order.
use native.Mathlib.Decide.{ℕ_discrete}
use mathlib.Core.Path.{subst}
use aeron_rs.Prelude.{
  ℕ, zero, suc, ◌+◌, ◌%◌, ◌^◌, ◌≤◌, ◌<◌, ◌≡◌, refl, sym, ap, ◌∙◌, List, [], ◌∷◌, arith, length,
  if_true, if_false, ◌==◌,
}
use aeron_rs.Prelude.Word.{add64, sub64, sign_extend}
use aeron_rs.Prelude.Memory.{Memory, write_bytes_apart, le_bytes}
use aeron_rs.RingBuffer.{MpscRingBuffer, read_loop, read, write_i32, align_record}
use aeron_rs.Records.{Entry, message, padding, size_of, messages_of}
use aeron_rs.RingBuffer.Layout.{EntryAt, Lay, Lay-le, Lay-behind}
use aeron_rs.RingBuffer.Room.{Ringed}
use aeron_rs.RingBuffer.Write.{Holds}

read_message :
    (fuel : ℕ) (m : Memory) (cap mask tail cur k msg_type : ℕ) (payload : List ℕ)
    → mask + 1 ≡ cap
    → EntryAt m (cur % cap) (message msg_type payload)
    → cur < tail
    → cur < 2 ^ 62
    → read_loop (suc fuel) m mask tail cur k ≡ (
        let (calls, n, m', last) =
          read_loop fuel
            (write_i32 m (cur % cap) 0)
            mask
            tail
            (cur + align_record (length payload + 8))
            (k + 1) in
        ((msg_type, payload) ∷ calls, n, m', last))
unfolding read_loop
read_message fuel m cap mask tail cur k msg_type payload mk h lt low =
    let body : sub64 (sign_extend (length payload + 8)) 8 ≡ length payload = ground (arith, h.5) in
    let next : add64 cur (align_record (sign_extend (length payload + 8)))
        ≡ cur + align_record (length payload + 8) =
      ground (arith, h.5) in
    rw (mk, h.0, h.1, body, next, h.2) (ground (arith, h.3, h.4))

read_padding :
    (fuel : ℕ) (m : Memory) (cap mask tail cur k n : ℕ)
    → mask + 1 ≡ cap
    → EntryAt m (cur % cap) (padding n)
    → cur < tail
    → cur < 2 ^ 62
    → read_loop (suc fuel) m mask tail cur k
      ≡ read_loop fuel (write_i32 m (cur % cap) 0) mask tail (cur + n) k
unfolding read_loop
read_padding fuel m cap mask tail cur k n mk h lt low =
    let next : add64 cur (align_record (sign_extend n)) ≡ cur + n = ground (arith, h.3, h.4) in
    rw (mk, h.0, h.1, next) (ground arith)

read_end :
    (fuel : ℕ) (m : Memory) (mask tail k : ℕ) → read_loop fuel m mask tail tail k ≡ ([], k, m, tail)
unfolding read_loop
read_end zero m mask tail k = refl
read_end (suc fuel) m mask tail k = ground arith

-- The loop read the records from `cur` to the tail, after `k` messages.
abbrev pub Drained : ℕ → ℕ → ℕ → ℕ → List Entry → List (ℕ × List ℕ) × ℕ × Memory × ℕ → Type 0
Drained mask tail cur k es (calls, n, m', last) =
    (calls ≡ messages_of es) × (n ≡ k + length (messages_of es)) × (last ≡ tail)

cleared-Lay :
    (m : Memory) (cap cur : ℕ) (e : Entry) (es : List Entry) (tail : ℕ)
    → Lay m cap cur (e ∷ es) tail
    → 4 ≤ size_of e
    → tail ≤ cur + cap
    → Lay (write_i32 m (cur % cap) 0) cap (cur + size_of e) es tail
cleared-Lay m cap cur e es tail h le room =
    Lay-behind m _ cap (cur + size_of e) es tail cur (size_of e) h.2 (omega arith) room h.1
      (λ x out. sym (write_bytes_apart m (cur % cap) (le_bytes 4 0) x (omega (arith, out, le))))

pub read_loop_lem :
    (fuel : ℕ) (m : Memory) (cap mask tail cur k : ℕ) (es : List Entry)
    → mask + 1 ≡ cap
    → Lay m cap cur es tail
    → tail ≤ cur + cap
    → tail < 2 ^ 62
    → tail ≤ cur + fuel
    → Drained mask tail cur k es (read_loop fuel m mask tail cur k)
unfolding messages_of
read_loop_lem fuel m cap mask tail cur k [] mk h room low enough =
    subst (λ c. Drained mask tail c k [] (read_loop fuel m mask tail c k)) (sym h)
      (rw (read_end fuel m mask tail k) (refl, omega arith, refl))
read_loop_lem zero m cap mask tail cur k (message msg_type payload ∷ es) mk h room low enough =
    absurd
      (omega (arith, enough, Lay-le m cap (cur + align_record (length payload + 8)) es tail h.2))
read_loop_lem zero m cap mask tail cur k (padding n ∷ es) mk h room low enough =
    absurd (omega (arith, enough, h.0.2, Lay-le m cap (cur + n) es tail h.2))
read_loop_lem (suc fuel) m cap mask tail cur k (message msg_type payload ∷ es) mk h room low
      enough =
    let le = Lay-le m cap (cur + align_record (length payload + 8)) es tail h.2 in
    let (calls, count, last) =
      read_loop_lem fuel (write_i32 m (cur % cap) 0) cap mask tail
        (cur + align_record (length payload + 8)) (k + 1) es mk
        (cleared-Lay m cap cur (message msg_type payload) es tail h (omega arith) room)
        (omega (arith, room)) low (omega (arith, enough)) in
    rw
      (read_message fuel m cap mask tail cur k msg_type payload mk h.0 (omega (arith, le))
        (omega (arith, le, low)))
      (ap (◌∷◌ (msg_type, payload)) calls, omega (arith, count), last)
read_loop_lem (suc fuel) m cap mask tail cur k (padding n ∷ es) mk h room low enough =
    let le = Lay-le m cap (cur + n) es tail h.2 in
    rw
      (read_padding fuel m cap mask tail cur k n mk h.0 (omega (arith, le, h.0.2))
        (omega (arith, le, low)))
      (read_loop_lem fuel (write_i32 m (cur % cap) 0) cap mask tail (cur + n) k es mk
        (cleared-Lay m cap cur (padding n) es tail h (omega (arith, h.0.2)) room)
        (omega (arith, room)) low (omega (arith, enough, h.0.2)))

-- The outcome of a read of a ring that holds `q`.
abbrev pub Read :
    MpscRingBuffer → List (ℕ × List ℕ) → (List (ℕ × List ℕ) × ℕ) × MpscRingBuffer → Type 0
Read r q ((calls, n), r') =
    (calls ≡ q)
    × (n ≡ length q)
    × Holds r' []
    × (r'.head_position ≡ r.tail_position)
    × (r'.tail_position ≡ r.tail_position)
    × (r'.capacity ≡ r.capacity)

abbrev after :
    MpscRingBuffer → List (ℕ × List ℕ) × ℕ × Memory × ℕ → (List (ℕ × List ℕ) × ℕ) × MpscRingBuffer
after r (calls, n, m', last) = ((calls, n), record r { buffer = m'; head_position = last })

read_steps :
    (r : MpscRingBuffer)
    → read r ≡ after r (read_loop r.capacity r.buffer r.mask r.tail_position r.head_position 0)
unfolding read
read_steps r = elim (ℕ_discrete r.head_position r.tail_position) [
  | yes empty ↦
      if_true (r.head_position == r.tail_position) _ _ (ground arith)
      ∙ sym (
          ap (λ h. after r (read_loop r.capacity r.buffer r.mask r.tail_position h 0)) empty
          ∙ ap (after r) (read_end r.capacity r.buffer r.mask r.tail_position 0)
          ∙ ap (λ h. (([], 0), record r { head_position = h })) (sym empty))
  | no some_bytes ↦ if_false (r.head_position == r.tail_position) _ _ (ground arith)
]

finish :
    (r : MpscRingBuffer) (es : List Entry) (z : List (ℕ × List ℕ) × ℕ × Memory × ℕ)
    → Ringed r es
    → Drained r.mask r.tail_position r.head_position 0 es z
    → Read r (messages_of es) (after r z)
unfolding messages_of
finish r es (calls, n, m', last) v (sent, count, at) = (
  sent,
  omega (arith, count),
  (
    [],
    record {
      mask = v.mask;
      aligned = v.aligned;
      positive = v.positive;
      large = v.large;
      tail_aligned = v.tail_aligned;
      ahead = omega (arith, at);
      bounded = omega (arith, at);
      small = v.small;
      laid = at;
    },
    refl,
  ),
  at,
  refl,
  refl,
)

-- A read of a ring that holds the messages `q` hands on all of them, in order, and returns how many;
-- the ring is empty afterwards.
pub read_lem : (r : MpscRingBuffer) (q : List (ℕ × List ℕ)) → Holds r q → Read r q (read r)
read_lem r q (es, v, e) =
    subst (λ q. Read r q (read r)) e
      (subst (Read r (messages_of es)) (sym (read_steps r)) (
        finish r es _ v (
          read_loop_lem r.capacity r.buffer r.capacity r.mask r.tail_position r.head_position 0 es
            v.mask v.laid v.bounded v.small v.bounded)))
