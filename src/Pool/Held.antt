-- ===== src/Pool/Held.antt =====
-- A slot is in the free list or with one holder.
use aeron_rs.Prelude.{
  ℕ, zero, suc, ◌+◌, ◌^◌, ◌≤◌, ◌≡◌, refl, ◌∙◌, ◌⊎◌, inl, inr, some, List, [], ◌∷◌, ◌++◌, arith,
  ◌==◌, ltb, if◌then◌else◌,
}
use aeron_rs.Pool.{SlotPool, fill, new, alloc_recv, free_recv, alloc_send, free_send}

-- How often an index stands in a list.
unfoldable pub count_of : ℕ → List ℕ → ℕ
count_of i [] = 0
count_of i (j ∷ l) = (if j == i then 1 else 0) + count_of i l

count_of-append : (i : ℕ) (l m : List ℕ) → count_of i (l ++ m) ≡ count_of i l + count_of i m
unfolding count_of
count_of-append i [] m = omega arith
count_of-append i (j ∷ l) m = omega (arith, count_of-append i l m)

count_of-fill : (i n : ℕ) → n ≤ 2 ^ 16 → count_of i (fill n) ≡ (if ltb i n then 1 else 0)
unfolding count_of fill
count_of-fill i zero h = ground arith
count_of-fill i (suc n) h = ground (arith, count_of-fill i n (omega arith))

-- A call of the pool by agents that hold the slots `r` and `s`, and free only what they hold.
pub data Step : SlotPool → List ℕ → List ℕ → SlotPool → List ℕ → List ℕ → Type 0 where
  take_recv :
      (p : SlotPool) (r s : List ℕ) (idx : ℕ)
      → (alloc_recv p).0 ≡ some idx
      → Step p r s (alloc_recv p).1 (idx ∷ r) s
  take_send :
      (p : SlotPool) (r s : List ℕ) (idx : ℕ)
      → (alloc_send p).0 ≡ some idx
      → Step p r s (alloc_send p).1 r (idx ∷ s)
  give_recv :
      (p p' : SlotPool) (before behind s : List ℕ) (idx : ℕ)
      → free_recv p idx ≡ some p'
      → Step p (before ++ idx ∷ behind) s p' (before ++ behind) s
  give_send :
      (p p' : SlotPool) (r before behind : List ℕ) (idx : ℕ)
      → free_send p idx ≡ some p'
      → Step p r (before ++ idx ∷ behind) p' r (before ++ behind)

pub data Reach (max_recv max_send : ℕ) : SlotPool → List ℕ → List ℕ → Type 0 where
  start : Reach max_recv max_send (new max_recv max_send) [] []
  next :
      (p p' : SlotPool) (r r' s s' : List ℕ)
      → Reach max_recv max_send p r s
      → Step p r s p' r' s'
      → Reach max_recv max_send p' r' s'

List-cases : (l : List ℕ) → (l ≡ []) ⊎ ((j : ℕ) × (m : List ℕ) × (l ≡ j ∷ m))
List-cases [] = inl refl
List-cases (j ∷ m) = inr (j, m, refl)

count_of-remove :
    (i idx : ℕ) (l m : List ℕ)
    → count_of i (l ++ idx ∷ m) ≡ (if idx == i then 1 else 0) + count_of i (l ++ m)
unfolding count_of
count_of-remove i idx l m = ground (arith, count_of-append i l (idx ∷ m), count_of-append i l m)

Step-counts :
    (p p' : SlotPool) (r r' s s' : List ℕ) (i : ℕ)
    → Step p r s p' r' s'
    → (count_of i p'.recv_free + count_of i r' ≡ count_of i p.recv_free + count_of i r)
      × (count_of i p'.send_free + count_of i s' ≡ count_of i p.send_free + count_of i s)
unfolding count_of alloc_recv alloc_send free_recv free_send
Step-counts _ _ _ _ _ _ i (take_recv p r s idx e) = ground (arith, List-cases p.recv_free, e)
Step-counts _ _ _ _ _ _ i (take_send p r s idx e) = ground (arith, List-cases p.send_free, e)
Step-counts _ _ _ _ _ _ i (give_recv p p' before behind s idx e) =
    ground (arith, count_of-remove i idx before behind, e)
Step-counts _ _ _ _ _ _ i (give_send p p' r before behind idx e) =
    ground (arith, count_of-remove i idx before behind, e)

-- In every state that is reached from a new pool of at most 65536 slots a side by agents that free
-- only what they hold: each slot of the pool is in its free list or held, once, and no other index
-- is in either.
pub slots_held_once :
    (max_recv max_send : ℕ) (p : SlotPool) (r s : List ℕ) (i : ℕ)
    → max_recv ≤ 2 ^ 16
    → max_send ≤ 2 ^ 16
    → Reach max_recv max_send p r s
    → (count_of i p.recv_free + count_of i r ≡ (if ltb i max_recv then 1 else 0))
      × (count_of i p.send_free + count_of i s ≡ (if ltb i max_send then 1 else 0))
unfolding new count_of
slots_held_once max_recv max_send _ _ _ i h k start =
    (ground (arith, count_of-fill i max_recv h), ground (arith, count_of-fill i max_send k))
slots_held_once max_recv max_send _ _ _ i h k (next p p' r r' s s' a b) =
    let (c, d) = Step-counts p p' r r' s s' i b in
    let (e, f) = slots_held_once max_recv max_send p r s i h k a in (c ∙ e, d ∙ f)
