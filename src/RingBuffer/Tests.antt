-- ===== src/RingBuffer/Tests.antt =====
-- Runs of a ring, and its theorems at concrete inputs.
use aeron_rs.Prelude.{ℕ, ◌≡◌, refl, inl, inr, none, some, [], ◌∷◌, ◌++◌, arith, replicate}
use aeron_rs.Prelude.Memory.{Memory, read_i32, read_bytes, write_bytes, fill_zero}
use aeron_rs.Log.{ok}
use aeron_rs.RingBuffer.{MpscRingBuffer, full, contiguous, claim, fill, write, read, read_loop}
use aeron_rs.Records.{messages_of}
use aeron_rs.RingBuffer.Room.{Ringed}
use aeron_rs.RingBuffer.Write.{Holds, Written, write_lem}
use aeron_rs.RingBuffer.Read.{Read, read_lem}
use aeron_rs.RingBuffer.Stale.{empty_ring_is_full, stale_bytes_are_read}

-- A ring of 64 bytes with both positions there.
abbrev ring : Memory → ℕ → MpscRingBuffer
ring buffer position = record {
  buffer = buffer;
  capacity = 64;
  mask = 63;
  max_record_length = 56;
  head_position = position;
  tail_position = position;
}

abbrev zeros : Memory
zeros = λ _. 0

ring-Ringed : (m : Memory) → Ringed (ring m 0) []
ring-Ringed m = record {
  mask = refl;
  aligned = refl;
  positive = omega arith;
  large = omega arith;
  tail_aligned = refl;
  ahead = omega arith;
  bounded = omega arith;
  small = omega arith;
  laid = refl;
}

ring-Holds : Holds (ring zeros 0) []
unfolding messages_of
ring-Holds = ([], ring-Ringed zeros, refl)

write_lem_example : Written (ring zeros 0) 5 (1 ∷ 2 ∷ []) [] (write (ring zeros 0) 5 (1 ∷ 2 ∷ []))
write_lem_example =
    write_lem (ring zeros 0) 5 (1 ∷ 2 ∷ []) [] ring-Holds (omega arith) (omega arith) (omega arith)

-- After one message.
abbrev one : MpscRingBuffer
one = (write (ring zeros 0) 5 (1 ∷ 2 ∷ [])).1

one-Holds : Holds one ((5, 1 ∷ 2 ∷ []) ∷ [])
one-Holds = elim write_lem_example [
  | inl (large, _) ↦ absurd (omega (arith, large))
  | inr (_, placed) ↦ elim placed [
    | inl (over, _, _) ↦ absurd (omega (arith, over))
    | inr (_, h, _, _, _) ↦ h
  ]
]

read_lem_example : Read one ((5, 1 ∷ 2 ∷ []) ∷ []) (read one)
read_lem_example = read_lem one ((5, 1 ∷ 2 ∷ []) ∷ []) one-Holds

-- Two messages, the second behind the padding at the end, read after the first.
wrap_run :
    let (got, two) = read one in
    let (outcome, three) = write two 6 (3 ∷ []) in
    (got ≡ ((5, 1 ∷ 2 ∷ []) ∷ [], 1)) × (outcome ≡ none) × ((read three).0 ≡ ((6, 3 ∷ []) ∷ [], 1))
unfolding write read read_loop claim fill_zero write_bytes read_i32 read_bytes
wrap_run = (refl, refl, refl)

-- After a message of 33 bytes that looks like a record from its 25th byte on, and a short message,
-- both of them read.
abbrev worn : MpscRingBuffer
worn =
    let long = replicate 24 0 ++ 5 ∷ 0 ∷ 0 ∷ 0 ∷ 9 ∷ 0 ∷ 0 ∷ 0 ∷ 77 ∷ [] in
    (read (write (read (write (ring zeros 0) 1 long).1).1 2 []).1).1

worn-Ringed : Ringed worn []
unfolding write read read_loop claim fill_zero write_bytes read_i32 read_bytes
worn-Ringed = record {
  mask = refl;
  aligned = refl;
  positive = omega arith;
  large = omega arith;
  tail_aligned = refl;
  ahead = omega arith;
  bounded = omega arith;
  small = omega arith;
  laid = refl;
}

stale_bytes_are_read_example :
    ((claim worn 32).0 ≡ ok (contiguous 32))
    × ((read (claim worn 32).1).0 ≡ ((5, 77 ∷ []) ∷ [], 1))
    × ((read (fill (read (claim worn 32).1).1 (contiguous 32) 3 (4 ∷ []))).0 ≡ ([], 0))
unfolding write read read_loop claim fill_zero write_bytes read_i32 read_bytes
stale_bytes_are_read_example =
    stale_bytes_are_read worn 5 1 3 (4 ∷ []) worn-Ringed refl refl (omega arith) (omega arith)
      (omega arith) refl (omega arith) (omega arith)

-- An empty ring whose positions stand in the middle of it.
half-Holds : Holds (ring zeros 32) []
unfolding messages_of
half-Holds = (
  [],
  record {
    mask = refl;
    aligned = refl;
    positive = omega arith;
    large = omega arith;
    tail_aligned = refl;
    ahead = omega arith;
    bounded = omega arith;
    small = omega arith;
    laid = refl;
  },
  refl,
)

empty_ring_is_full_example :
    (write (ring zeros 32) 1 (replicate 40 7) ≡ (some full, ring zeros 32))
    × (read (ring zeros 32) ≡ (([], 0), ring zeros 32))
empty_ring_is_full_example =
    empty_ring_is_full (ring zeros 32) 1 (replicate 40 7) half-Holds refl (omega arith)
      (omega arith) (omega arith) (omega arith) (omega arith) (omega arith)
