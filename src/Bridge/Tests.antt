-- ===== src/Bridge/Tests.antt =====
-- Runs of a bridge, and its theorems at concrete inputs.
use aeron_rs.Prelude.{
  ℕ, ◌+◌, ◌≡◌, ◌≢◌, refl, ◌⊎◌, true, false, none, some, List, [], ◌∷◌, ◌==◌, arith,
}
use aeron_rs.Bridge.{
  BridgeSlot, slot_filled, new, deposit, try_take, PendingImage, peek_stream_id, empty_slot,
  filled_slot,
}
use aeron_rs.Bridge.Delivery.{Op, put, take_at, run, count, count_held, IsValid, run_delivers}
use aeron_rs.Bridge.Race.{
  World, Reach, update, outside, taking, start, next, call, load_empty, write_item, publish,
  load_filled, producer_at, consumer_at, has_item, threads_apart,
}

abbrev history : List (Op ℕ)
history = put 5 ∷ put 6 ∷ take_at 0 ∷ put 7 ∷ put 8 ∷ take_at 1 ∷ take_at 1 ∷ []

-- The fourth item meets a full bridge.
full_run : run history (new 2) ≡ (filled_slot 7 ∷ empty_slot ∷ [], 5 ∷ 6 ∷ 7 ∷ [], 5 ∷ 6 ∷ [])
unfolding run deposit try_take
full_run = refl

abbrev image : PendingImage ℕ
image = record { image = 0; session_id = 42; stream_id = 7; correlation_id = 1 }

peek_run :
    let l = (deposit (new 2) image).0 in
    (peek_stream_id l 0 ≡ some 7) × (peek_stream_id l 1 ≡ none) × (peek_stream_id l 2 ≡ none)
unfolding deposit peek_stream_id
peek_run = (refl, refl, refl)

run_delivers_example :
    let (end, accepted, delivered) = run history (new 2) in
    IsValid end
    × (count (λ x. x == 5) accepted ≡ count (λ x. x == 5) delivered + count_held (λ x. x == 5) end)
run_delivers_example = run_delivers (λ x. x == 5) history 2

abbrev fresh : ℕ → BridgeSlot ℕ
fresh i = empty_slot

abbrev written : ℕ → BridgeSlot ℕ
written = update fresh 0 (record { state = (fresh 0).state; content = some 5 })

abbrev stored : ℕ → BridgeSlot ℕ
stored = update written 0 (record { state = slot_filled; content = (written 0).content })

-- The consumer has seen the item that the producer stored in slot 0.
seen : Reach 2 (record { slots = stored; producer = outside; consumer = taking 0 })
seen =
    next _ _
      (next _ _
        (next _ _
          (next _ _ (next _ _ start (call fresh outside 5))
            (load_empty fresh outside 5 0 (omega arith) refl))
          (write_item fresh outside 5 0))
        (publish written outside 0))
      (load_filled stored outside 0 (omega arith) refl)

threads_apart_example :
    let apart : World ℕ = record { slots = stored; producer = outside; consumer = taking 0 } in
    ((producer_at apart.producer 0 ≡ 0) ⊎ (consumer_at apart.consumer 0 ≡ 0))
    × ((producer_at apart.producer 0 ≢ 1) ⊎ (has_item (stored 0).content ≡ false))
    × ((consumer_at apart.consumer 0 ≢ 1) ⊎ (has_item (stored 0).content ≡ true))
threads_apart_example =
    threads_apart 2 (record { slots = stored; producer = outside; consumer = taking 0 }) 0 seen
