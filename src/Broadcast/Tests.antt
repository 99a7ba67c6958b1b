-- ===== src/Broadcast/Tests.antt =====
-- Runs of the broadcast buffer, and its theorem at a concrete input.
use aeron_rs.Prelude.{ℕ, ◌≡◌, refl, List, [], ◌∷◌, ◌++◌, arith, replicate}
use aeron_rs.Prelude.Memory.{read_i32, read_bytes, write_bytes, fill_zero}
use aeron_rs.Records.{messages_of}
use aeron_rs.Broadcast.{
  BroadcastBuffer, BroadcastTransmitter, BroadcastReceiver, new_receiver, transmit, receive,
  receive_loop,
}
use aeron_rs.Broadcast.Transmit.{Unread}
use aeron_rs.Broadcast.Receive.{transmit_all, transmitted_is_received}

abbrev transmitter : BroadcastTransmitter
transmitter = record { capacity = 64; mask = 63; max_record_length = 56 }

abbrev empty : BroadcastBuffer
empty = record { buffer = λ _. 0; tail_counter = 0; latest_counter = 0 }

abbrev receiver : BroadcastReceiver
receiver = new_receiver 64 0

abbrev messages : List (ℕ × List ℕ)
messages = (5, 1 ∷ 2 ∷ []) ∷ (6, []) ∷ []

empty-Unread : Unread transmitter empty 0 []
unfolding messages_of
empty-Unread = (
  [],
  record {
    mask = refl;
    aligned = refl;
    positive = omega arith;
    large = omega arith;
    tail_aligned = refl;
    ahead = omega arith;
    bounded = omega arith;
    small = omega arith;
    laid = refl;
  },
  refl,
)

transmitted_is_received_example :
    receive receiver (transmit_all transmitter empty messages)
    ≡ ((messages, 2), record receiver { cursor = 64 })
unfolding transmit_all transmit
transmitted_is_received_example =
    transmitted_is_received transmitter empty receiver [] messages empty-Unread refl refl (
      omega arith,
      omega arith,
      omega arith,
      omega arith,
      (omega arith, omega arith, omega arith, omega arith, tt),
    )

-- A receiver that was lapped by a short message over a longer one goes on in the middle of the longer
-- one, and takes its payload for a record.
lapped_run :
    let long : List ℕ = replicate 24 0 ++ 9 ∷ 0 ∷ 0 ∷ 0 ∷ 5 ∷ 0 ∷ 0 ∷ 0 ∷ 77 ∷ [] in
    (receive receiver (transmit_all transmitter empty ((1, long) ∷ (2, []) ∷ []))).0
    ≡ ((5, 77 ∷ []) ∷ (2, []) ∷ [], 2)
unfolding transmit_all transmit receive receive_loop fill_zero write_bytes read_i32 read_bytes
lapped_run = refl
