-- ===== src/Pool/Tests.antt =====
-- A run of a pool, and the theorem at it.
use aeron_rs.Prelude.{◌+◌, ◌≡◌, refl, none, some, [], ◌∷◌, arith}
use aeron_rs.Pool.{SlotPool, new, fill, alloc_recv, free_recv, alloc_send}
use aeron_rs.Pool.Held.{Reach, take_recv, start, next, count_of, slots_held_once}

abbrev fresh : SlotPool
fresh = new 2 1

pool_run :
    ((alloc_recv fresh).0 ≡ some 1)
    × ((alloc_send (alloc_send fresh).1).0 ≡ none)
    × (free_recv fresh 2 ≡ none)
unfolding new fill alloc_recv alloc_send free_recv
pool_run = (refl, refl, refl)

abbrev taken : SlotPool
taken = (alloc_recv fresh).1

taken-Reach : Reach 2 1 taken (1 ∷ []) []
taken-Reach = next fresh taken [] (1 ∷ []) [] [] start (take_recv fresh [] [] 1 pool_run.0)

slots_held_once_example :
    (count_of 1 taken.recv_free + count_of 1 (1 ∷ []) ≡ 1)
    × (count_of 1 taken.send_free + count_of 1 [] ≡ 0)
slots_held_once_example =
    slots_held_once 2 1 taken (1 ∷ []) [] 1 (omega arith) (omega arith) taken-Reach
