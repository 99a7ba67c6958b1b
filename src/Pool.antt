-- ===== src/Pool.antt =====
-- src/media/buffer_pool.rs: the allocator of the receive and send slots. A slot is its state: the
-- message headers and buffers are the kernel's. A free list is a stack, its top first; an index
-- out of range, which panics, is `none`. The debug assertions are not in a release build.
pub mod Held
mod Tests
use aeron_rs.Prelude.{
  ℕ, zero, suc, ◌%◌, ◌^◌, Option, none, some, List, [], ◌∷◌, leb, if◌then◌else◌, length, replicate,
  set,
}

pub data SlotState : Type 0 where
  free in_flight : SlotState

pub record SlotPool : Type 0 where
  pub recv_slots : List SlotState
  pub send_slots : List SlotState
  pub recv_free : List ℕ
  pub send_free : List ℕ

-- `push(i as u16)` for `i` from 0 up.
pub fill : ℕ → List ℕ
fill zero = []
fill (suc n) = n % 2 ^ 16 ∷ fill n

pub new : ℕ → ℕ → SlotPool
new max_recv max_send = record {
  recv_slots = replicate max_recv free;
  send_slots = replicate max_send free;
  recv_free = fill max_recv;
  send_free = fill max_send;
}

pub alloc_recv : SlotPool → Option ℕ × SlotPool
alloc_recv p = elim p.recv_free [
  | [] ↦ (none, p)
  | idx ∷ l ↦ (some idx, record p { recv_free = l })
]

pub free_recv : SlotPool → ℕ → Option SlotPool
free_recv p idx =
    if leb (length p.recv_slots) idx
    then none
    else some (record p { recv_slots = set p.recv_slots idx free; recv_free = idx ∷ p.recv_free })

pub alloc_send : SlotPool → Option ℕ × SlotPool
alloc_send p = elim p.send_free [
  | [] ↦ (none, p)
  | idx ∷ l ↦ (some idx, record p { send_free = l })
]

pub free_send : SlotPool → ℕ → Option SlotPool
free_send p idx =
    if leb (length p.send_slots) idx
    then none
    else some (record p { send_slots = set p.send_slots idx free; send_free = idx ∷ p.send_free })

abbrev pub recv_available : SlotPool → ℕ
recv_available p = length p.recv_free

abbrev pub send_available : SlotPool → ℕ
send_available p = length p.send_free
