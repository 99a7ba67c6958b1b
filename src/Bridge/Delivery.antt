-- ===== src/Bridge/Delivery.antt =====
-- Every item that a bridge accepts is delivered once.
use aeron_rs.Prelude.{
  ℕ, zero, suc, ◌+◌, ◌≡◌, refl, ◌⊎◌, inl, inr, Bool, Option, none, some, List, [], ◌∷◌, arith,
  if◌then◌else◌, get_elem?, set,
}
use aeron_rs.Prelude.{Option-cases}
use mathlib.Core.Path.{subst}
use aeron_rs.Bridge.{BridgeSlot, slot_empty, slot_filled, empty_slot, new, deposit, try_take}

module _ {ℓ} {A : Type ℓ} where
  abbrev pub count_option : (A → Bool) → Option A → ℕ
  count_option f none = 0
  count_option f (some x) = if f x then 1 else 0

  -- How many of the items that the bridge holds `f` accepts.
  unfoldable pub count_held : (A → Bool) → List (BridgeSlot A) → ℕ
  count_held f [] = 0
  count_held f (s ∷ l) = count_option f s.content + count_held f l

  abbrev pub IsSlot : BridgeSlot A → Type ℓ
  IsSlot s =
      ((s.state ≡ slot_empty) × (s.content ≡ none))
      ⊎ ((s.state ≡ slot_filled) × (x : A) × (s.content ≡ some x))

  -- An empty slot holds nothing, a filled one holds an item.
  abbrev pub IsValid : List (BridgeSlot A) → Type ℓ
  IsValid [] = Unit
  IsValid (s ∷ l) = IsSlot s × IsValid l

new-IsValid {ℓ} : (A : Type ℓ) (n : ℕ) → IsValid {A = A} (new n)
new-IsValid A zero = tt
new-IsValid A (suc n) = (inl (refl, refl), new-IsValid A n)

module _ {ℓ} {A : Type ℓ} where
  count_held-new : (f : A → Bool) (n : ℕ) → count_held f (new n) ≡ 0
  unfolding count_held
  count_held-new f zero = refl
  count_held-new f (suc n) = omega (arith, count_held-new f n)

  deposit_slot :
      (f : A → Bool) (l : List (BridgeSlot A)) (x : A)
      → IsValid l
      → IsValid (deposit l x).0
        × (count_held f (deposit l x).0
            ≡ (if (deposit l x).1 then count_option f (some x) else 0) + count_held f l)
  unfolding deposit count_held
  deposit_slot f [] x v = (tt, refl)
  deposit_slot f (s ∷ l) x (inl (e, c), v) = simp (e, c) ((inr (refl, x, refl), v), omega arith)
  deposit_slot f (s ∷ l) x (inr (e, y, c), v) =
      let (w, k) = deposit_slot f l x v in simp (e, c) ((inr (refl, y, refl), w), omega (arith, k))

  count_held_at :
      (f : A → Bool) (l : List (BridgeSlot A)) (i : ℕ) (s : BridgeSlot A)
      → IsValid l
      → get_elem? l i ≡ some s
      → IsSlot s
        × IsValid (set l i empty_slot)
        × (count_held f l ≡ count_option f s.content + count_held f (set l i empty_slot))
  unfolding count_held
  count_held_at f [] i s v e = cc
  count_held_at f (a ∷ l) zero s (k, v) e =
      let same : a ≡ s = cc in
      subst
        (λ a'.
          IsSlot a'
          × IsValid (empty_slot ∷ l)
          × (count_held f (a ∷ l) ≡ count_option f a'.content + count_held f (empty_slot ∷ l)))
        same (k, (inl (refl, refl), v), omega arith)
  count_held_at f (a ∷ l) (suc i) s (k, v) e =
      let (t, w, c) = count_held_at f l i s v e in (t, (k, w), omega (arith, c))

  try_take_slot :
      (f : A → Bool) (l : List (BridgeSlot A)) (i : ℕ)
      → IsValid l
      → IsValid (try_take l i).1
        × (count_held f l ≡ count_option f (try_take l i).0 + count_held f (try_take l i).1)
  unfolding try_take
  try_take_slot f l i v = elim (Option-cases (get_elem? l i)) [
    | inl e ↦ ground (arith, e, v)
    | inr (s, e) ↦ slot_taken s e (count_held_at f l i s v e)
  ]
    where
      slot_taken :
          (s : BridgeSlot A)
          → get_elem? l i ≡ some s
          → IsSlot s
            × IsValid (set l i empty_slot)
            × (count_held f l ≡ count_option f s.content + count_held f (set l i empty_slot))
          → IsValid (try_take l i).1
            × (count_held f l ≡ count_option f (try_take l i).0 + count_held f (try_take l i).1)
      slot_taken s e (inl (h, c), w, k) = ground (arith, e, h, c)
      slot_taken s e (inr (h, y, c), w, k) = ground (arith, e, h)

-- An operation of either side.
pub data Op {ℓ} (A : Type ℓ) : Type ℓ where
  put : A → Op A
  take_at : ℕ → Op A

module _ {ℓ} {A : Type ℓ} where
  abbrev pub count : (A → Bool) → List A → ℕ
  count f [] = 0
  count f (x ∷ xs) = count_option f (some x) + count f xs

  -- The bridge after a history, what `deposit` accepted in it and what `try_take` returned.
  abbrev pub cons_option : Option A → List A → List A
  cons_option none xs = xs
  cons_option (some x) xs = x ∷ xs

  unfoldable pub run : List (Op A) → List (BridgeSlot A) → List (BridgeSlot A) × List A × List A
  run [] l = (l, [], [])
  run (put x ∷ ops) l =
      let (l', done) = deposit l x in
      let (end, accepted, delivered) = run ops l' in
      (end, (if done then x ∷ accepted else accepted), delivered)
  run (take_at i ∷ ops) l =
      let (o, l') = try_take l i in
      let (end, accepted, delivered) = run ops l' in (end, accepted, cons_option o delivered)

  run_lem :
      (f : A → Bool) (ops : List (Op A)) (l : List (BridgeSlot A))
      → IsValid l
      → let (end, accepted, delivered) = run ops l in
        IsValid end × (count_held f l + count f accepted ≡ count f delivered + count_held f end)
  unfolding run
  run_lem f [] l v = (v, omega arith)
  run_lem f (put x ∷ ops) l v =
      ground (arith, deposit_slot f l x v, run_lem f ops (deposit l x).0 (deposit_slot f l x v).0)
  run_lem f (take_at i ∷ ops) l v = ground (
    arith,
    Option-cases (try_take l i).0,
    try_take_slot f l i v,
    run_lem f ops (try_take l i).1 (try_take_slot f l i v).0,
  )

-- From a new bridge, after any sequence of `deposit` and `try_take`: of the items of every kind
-- there are as many accepted as delivered and still held together, and a slot is filled exactly if
-- it holds an item.
pub run_delivers {ℓ} :
    {A : Type ℓ} (f : A → Bool) (ops : List (Op A)) (capacity : ℕ)
    → let (end, accepted, delivered) = run ops (new capacity) in
      IsValid end × (count f accepted ≡ count f delivered + count_held f end)
run_delivers {A = A} f ops capacity =
    let (v, k) = run_lem f ops (new capacity) (new-IsValid A capacity) in
    (v, omega (arith, k, count_held-new f capacity))
