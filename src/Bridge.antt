-- ===== src/Bridge.antt =====
-- src/client/bridge.rs and src/client/sub_bridge.rs: the slots that carry handles between the client
-- and the agents, one producer and one consumer. The three bridges differ in the item and the
-- number of slots. An atomic operation takes effect at once; Bridge/Race interleaves them.
pub mod Delivery
pub mod Race
mod Tests
use aeron_rs.Prelude.{
  ℕ, Bool, true, false, Option, none, some, List, [], ◌∷◌, ◌==◌, if◌then◌else◌, length, replicate,
  get_elem?, set,
}

abbrev pub bridge_capacity : ℕ
bridge_capacity = 32

abbrev pub sub_bridge_capacity : ℕ
sub_bridge_capacity = 32

abbrev pub recv_endpoint_bridge_capacity : ℕ
recv_endpoint_bridge_capacity = 16

abbrev pub slot_empty : ℕ
slot_empty = 0

abbrev pub slot_filled : ℕ
slot_filled = 1

pub record BridgeSlot {ℓ} (A : Type ℓ) : Type ℓ where
  pub state : ℕ
  pub content : Option A

-- What the subscription bridge carries; the image is another component's.
pub record PendingImage {ℓ} (I : Type ℓ) : Type ℓ where
  pub image : I
  pub session_id : ℕ
  pub stream_id : ℕ
  pub correlation_id : ℕ

-- What the publication bridge carries, and what the endpoint bridge carries.
pub record PendingPublication {ℓ} (P E D : Type ℓ) : Type ℓ where
  pub sender_pub : P
  pub endpoint : E
  pub dest_addr : D

pub record PendingRecvEndpoint {ℓ} (E : Type ℓ) : Type ℓ where
  pub endpoint : E

abbrev pub empty_slot {ℓ} : {A : Type ℓ} → BridgeSlot A
empty_slot = record { state = slot_empty; content = none }

abbrev pub filled_slot {ℓ} : {A : Type ℓ} → A → BridgeSlot A
filled_slot x = record { state = slot_filled; content = some x }

abbrev pub new {ℓ} : {A : Type ℓ} → ℕ → List (BridgeSlot A)
new capacity = replicate capacity empty_slot

pub deposit {ℓ} : {A : Type ℓ} → List (BridgeSlot A) → A → List (BridgeSlot A) × Bool
deposit [] x = ([], false)
deposit (s ∷ l) x =
    let (l', done) = deposit l x in
    if s.state == slot_empty then (filled_slot x ∷ l, true) else (s ∷ l', done)

pub try_take {ℓ} : {A : Type ℓ} → List (BridgeSlot A) → ℕ → Option A × List (BridgeSlot A)
try_take l idx = elim (get_elem? l idx) [
  | none ↦ (none, l)
  | some s ↦ if s.state == slot_filled then (s.content, set l idx empty_slot) else (none, l)
]

pub peek_stream_id {ℓ} : {I : Type ℓ} → List (BridgeSlot (PendingImage I)) → ℕ → Option ℕ
peek_stream_id l idx = elim (get_elem? l idx) [
  | none ↦ none
  | some s ↦
      if s.state == slot_filled
      then (elim s.content [ none ↦ none | some p ↦ some p.stream_id ])
      else none
]
