-- ===== src/Bridge/Race.antt =====
-- The atomic accesses of the producer and the consumer, in every order.
use aeron_rs.Prelude.{
  ℕ, suc, ◌≤◌, ◌<◌, ◌≡◌, ◌≢◌, refl, ◌⊎◌, inl, inr, Bool, true, false, not, Option, none, some,
  arith, ◌==◌, if◌then◌else◌,
}
use native.Mathlib.Decide.{ℕ_discrete}
use aeron_rs.Bridge.{BridgeSlot, slot_empty, slot_filled, empty_slot}

-- Where `deposit` stands: not called, before its load of the state of slot `i`, before the write of
-- the item into the slot that it found, before the store of the state.
pub data Producer {ℓ} (A : Type ℓ) : Type ℓ where
  outside : Producer A
  loading writing : ℕ → A → Producer A
  publishing : ℕ → Producer A

-- Where `try_take` stands: before its load, before it takes the item out, before its store.
pub data Consumer : Type 0 where
  outside : Consumer
  taking releasing : ℕ → Consumer

-- The slots as the two threads share them, and where each of them stands.
pub record World {ℓ} (A : Type ℓ) : Type ℓ where
  pub slots : ℕ → BridgeSlot A
  pub producer : Producer A
  pub consumer : Consumer

module _ {ℓ} {A : Type ℓ} where
  abbrev pub update : (ℕ → BridgeSlot A) → ℕ → BridgeSlot A → ℕ → BridgeSlot A
  update m i s j = if i == j then s else m j

-- One atomic access of either thread, on a bridge of `n` slots.
pub data Step {ℓ} {A : Type ℓ} (n : ℕ) : World A → World A → Type ℓ where
  call :
      (m : ℕ → BridgeSlot A) (c : Consumer) (x : A)
      → Step n
          (record { slots = m; producer = outside; consumer = c })
          (record { slots = m; producer = loading 0 x; consumer = c })
  load_next :
      (m : ℕ → BridgeSlot A) (c : Consumer) (x : A) (i : ℕ)
      → i < n
      → (m i).state ≢ slot_empty
      → Step n
          (record { slots = m; producer = loading i x; consumer = c })
          (record { slots = m; producer = loading (suc i) x; consumer = c })
  load_empty :
      (m : ℕ → BridgeSlot A) (c : Consumer) (x : A) (i : ℕ)
      → i < n
      → (m i).state ≡ slot_empty
      → Step n
          (record { slots = m; producer = loading i x; consumer = c })
          (record { slots = m; producer = writing i x; consumer = c })
  refuse :
      (m : ℕ → BridgeSlot A) (c : Consumer) (x : A) (i : ℕ)
      → n ≤ i
      → Step n
          (record { slots = m; producer = loading i x; consumer = c })
          (record { slots = m; producer = outside; consumer = c })
  write_item :
      (m : ℕ → BridgeSlot A) (c : Consumer) (x : A) (i : ℕ)
      → Step n
          (record { slots = m; producer = writing i x; consumer = c })
          (record {
            slots = update m i (record { state = (m i).state; content = some x });
            producer = publishing i;
            consumer = c;
          })
  publish :
      (m : ℕ → BridgeSlot A) (c : Consumer) (i : ℕ)
      → Step n
          (record { slots = m; producer = publishing i; consumer = c })
          (record {
            slots = update m i (record { state = slot_filled; content = (m i).content });
            producer = outside;
            consumer = c;
          })
  load_filled :
      (m : ℕ → BridgeSlot A) (p : Producer A) (i : ℕ)
      → i < n
      → (m i).state ≡ slot_filled
      → Step n
          (record { slots = m; producer = p; consumer = outside })
          (record { slots = m; producer = p; consumer = taking i })
  take_item :
      (m : ℕ → BridgeSlot A) (p : Producer A) (i : ℕ)
      → Step n
          (record { slots = m; producer = p; consumer = taking i })
          (record {
            slots = update m i (record { state = (m i).state; content = none });
            producer = p;
            consumer = releasing i;
          })
  release :
      (m : ℕ → BridgeSlot A) (p : Producer A) (i : ℕ)
      → Step n
          (record { slots = m; producer = p; consumer = releasing i })
          (record {
            slots = update m i (record { state = slot_empty; content = (m i).content });
            producer = p;
            consumer = outside;
          })

pub data Reach {ℓ} {A : Type ℓ} (n : ℕ) : World A → Type ℓ where
  start : Reach n (record { slots = λ _. empty_slot; producer = outside; consumer = outside })
  next : (w w' : World A) → Reach n w → Step n w w' → Reach n w'

module _ {ℓ} {A : Type ℓ} where
  -- 1 before the write into slot `i`, 2 between it and the store, else 0.
  abbrev pub producer_at : Producer A → ℕ → ℕ
  producer_at outside i = 0
  producer_at (loading j x) i = 0
  producer_at (writing j x) i = if j == i then 1 else 0
  producer_at (publishing j) i = if j == i then 2 else 0

  abbrev pub has_item : Option A → Bool
  has_item none = false
  has_item (some x) = true

-- 1 before the item of slot `i` is taken out, 2 between that and the store, else 0.
abbrev pub consumer_at : Consumer → ℕ → ℕ
consumer_at outside i = 0
consumer_at (taking j) i = if j == i then 1 else 0
consumer_at (releasing j) i = if j == i then 2 else 0

-- A slot with the threads at `p` and `c`: a thread owns it by its state, and it holds an item
-- from the producer's write to the consumer's take.
abbrev pub Fits {ℓ} : {A : Type ℓ} → ℕ → ℕ → BridgeSlot A → Type 0
Fits p c s =
    (((s.state ≡ slot_empty) × (c ≡ 0)) ⊎ ((s.state ≡ slot_filled) × (p ≡ 0)))
    × (has_item s.content ≡ (if s.state == slot_filled then not (c == 2) else p == 2))

abbrev pub Inv {ℓ} : {A : Type ℓ} → World A → Type 0
Inv w = (i : ℕ) → Fits (producer_at w.producer i) (consumer_at w.consumer i) (w.slots i)

Step-Inv {ℓ} : {A : Type ℓ} {n : ℕ} (w w' : World A) → Step n w w' → Inv w → Inv w'
Step-Inv _ _ (call m c x) h i = h i
Step-Inv _ _ (load_next m c x j l e) h i = h i
Step-Inv _ _ (load_empty m c x j l e) h i = ground (arith, h i, h j, e)
Step-Inv _ _ (refuse m c x j l) h i = h i
Step-Inv _ _ (write_item m c x j) h i = ground (arith, h i, h j)
Step-Inv _ _ (publish m c j) h i = ground (arith, h i, h j)
Step-Inv _ _ (load_filled m p j l e) h i = ground (arith, h i, h j, e)
Step-Inv _ _ (take_item m p j) h i = ground (arith, h i, h j)
Step-Inv _ _ (release m p j) h i = ground (arith, h i, h j)

Reach-Inv {ℓ} : {A : Type ℓ} (n : ℕ) (w : World A) → Reach n w → Inv w
Reach-Inv n _ start i = (inl (refl, refl), refl)
Reach-Inv n _ (next w w' r s) i = Step-Inv w w' s (Reach-Inv n w r) i

Fits-apart {ℓ} :
    {A : Type ℓ} (p c : ℕ) (s : BridgeSlot A)
    → Fits p c s
    → ((p ≡ 0) ⊎ (c ≡ 0))
      × ((p ≢ 1) ⊎ (has_item s.content ≡ false))
      × ((c ≢ 1) ⊎ (has_item s.content ≡ true))
Fits-apart p c s h = (
  ground arith,
  elim (ℕ_discrete p 1) [ yes e ↦ inr (ground arith) | no ne ↦ inl ne ],
  elim (ℕ_discrete c 1) [ yes e ↦ inr (ground arith) | no ne ↦ inl ne ],
)

-- In every order of the atomic accesses of one producer and one consumer, from a new bridge: the
-- two threads never work on the same slot, the producer writes only into a slot with no item, and
-- the consumer takes only from a slot with one.
pub threads_apart {ℓ} :
    {A : Type ℓ} (n : ℕ) (w : World A) (i : ℕ)
    → Reach n w
    → ((producer_at w.producer i ≡ 0) ⊎ (consumer_at w.consumer i ≡ 0))
      × ((producer_at w.producer i ≢ 1) ⊎ (has_item (w.slots i).content ≡ false))
      × ((consumer_at w.consumer i ≢ 1) ⊎ (has_item (w.slots i).content ≡ true))
threads_apart n w i r = Fits-apart _ _ (w.slots i) (Reach-Inv n w r i)
