-- ===== src/Retransmit/Lifecycle.antt =====
-- The table as a map from ranges to states: what one NAK goes through.
use native.Mathlib.Nat.{sub-zero}
use aeron_rs.Prelude.{
  ℕ, zero, suc, ◌+◌, ◌≤◌, ◌≡◌, refl, true, false, ◌&&◌, none, some, List, [], ◌∷◌, ◌++◌, arith,
  Bool, ltb, ◌-◌, ◌^◌, if◌then◌else◌, set, Bool-cases, inl, inr,
}
use aeron_rs.Prelude.Word.{add64, sub64}
use aeron_rs.Retransmit.{
  RetransmitState, inactive, delay, linger, RetransmitAction, Nak, matches, RetransmitHandler, Scan,
  duplicate, finished, scheduled, insert, on_nak, expired, process_action, process_from,
  process_timeouts, is_active,
}
use aeron_rs.Retransmit.Unique.{
  pending, IsFree, ScanFinds, scan-ScanFinds, same_range, pending-same_range, IsValid,
}

-- The state of a range: that of its active action.
unfoldable pub state_of : Nak → List RetransmitAction → RetransmitState
state_of n [] = inactive
state_of n (a ∷ l) = if is_active a && matches a n then a.state else state_of n l

-- How many calls of the callback were for the range of `n`.
pub calls_for : Nak → List Nak → ℕ
calls_for n [] = 0
calls_for n (c ∷ cs) = (if same_range c n then 1 else 0) + calls_for n cs

-- The clock is at the expiry or past it, by less than 2 ^ 62 - 1 ns, as it wraps at 2 ^ 64.
abbrev pub is_due : ℕ → ℕ → Bool
is_due now_ns expiry_ns = ltb (sub64 now_ns expiry_ns) (2 ^ 62 - 1)

pub expired-eq-is_due : (now_ns expiry_ns : ℕ) → expired now_ns expiry_ns ≡ is_due now_ns expiry_ns
expired-eq-is_due now_ns expiry_ns = ground arith

-- What one sweep does to the state of a range, and how often it calls back.
unfoldable pub advance : ℕ → ℕ → RetransmitState → RetransmitState × ℕ
advance linger_ns now_ns inactive = (inactive, 0)
advance linger_ns now_ns (delay expiry_ns) =
    if is_due now_ns expiry_ns then (linger (add64 now_ns linger_ns), 1) else (delay expiry_ns, 0)
advance linger_ns now_ns (linger expiry_ns) =
    if is_due now_ns expiry_ns then (inactive, 0) else (linger expiry_ns, 0)

pub state_of-eq-inactive :
    (n : Nak) (l : List RetransmitAction) → pending n l ≡ 0 → state_of n l ≡ inactive
unfolding pending state_of
state_of-eq-inactive n [] e = refl
state_of-eq-inactive n (a ∷ l) e = ground (arith, state_of-eq-inactive n l)

pending-advanced :
    (n : Nak) (linger_ns now_ns : ℕ) (l : List RetransmitAction)
    → pending n l ≡ 0
    → let (l', calls) = process_from linger_ns now_ns l in
      (state_of n l' ≡ inactive) × (calls_for n calls ≡ 0)
unfolding pending process_from process_action state_of calls_for
pending-advanced n linger_ns now_ns [] e = (refl, refl)
pending-advanced n linger_ns now_ns (a ∷ l) e =
    ground (arith, pending-advanced n linger_ns now_ns l)

calls_for-append :
    (n : Nak) (xs ys : List Nak) → calls_for n (xs ++ ys) ≡ calls_for n xs + calls_for n ys
unfolding calls_for
calls_for-append n [] ys = omega arith
calls_for-append n (x ∷ xs) ys = omega (arith, calls_for-append n xs ys)

process_action_lem :
    (n : Nak) (linger_ns now_ns : ℕ) (a : RetransmitAction)
    → let (a', calls) = process_action linger_ns now_ns a in
      (matches a' n ≡ matches a n)
      × (a'.state ≡ (advance linger_ns now_ns a.state).0)
      × (calls_for n calls ≡ (if matches a n then (advance linger_ns now_ns a.state).1 else 0))
unfolding process_action advance calls_for
process_action_lem n linger_ns now_ns a = let due = expired-eq-is_due now_ns in ground arith

process_cons :
    (n : Nak) (linger_ns now_ns : ℕ) (a : RetransmitAction) (l : List RetransmitAction)
    → pending n (a ∷ l) ≤ 1
    → (pending n l ≤ 1
        → let (l', calls) = process_from linger_ns now_ns l in
          (state_of n l' ≡ (advance linger_ns now_ns (state_of n l)).0)
          × (calls_for n calls ≡ (advance linger_ns now_ns (state_of n l)).1))
    → let (l', calls) = process_from linger_ns now_ns (a ∷ l) in
      (state_of n l' ≡ (advance linger_ns now_ns (state_of n (a ∷ l))).0)
      × (calls_for n calls ≡ (advance linger_ns now_ns (state_of n (a ∷ l))).1)
unfolding pending process_from state_of advance
process_cons n linger_ns now_ns a l h ih = elim (Bool-cases (is_active a && matches a n)) [
  | inl mine ↦ ground (
    arith,
    pending-advanced n linger_ns now_ns l,
    process_action_lem n linger_ns now_ns a,
    calls_for-append n (process_action linger_ns now_ns a).1 (process_from linger_ns now_ns l).1,
  )
  | inr other ↦ ground (
    arith,
    process_action_lem n linger_ns now_ns a,
    calls_for-append n (process_action linger_ns now_ns a).1 (process_from linger_ns now_ns l).1,
  )
]

process_from_lem :
    (n : Nak) (linger_ns now_ns : ℕ) (l : List RetransmitAction)
    → pending n l ≤ 1
    → let (l', calls) = process_from linger_ns now_ns l in
      (state_of n l' ≡ (advance linger_ns now_ns (state_of n l)).0)
      × (calls_for n calls ≡ (advance linger_ns now_ns (state_of n l)).1)
process_from_lem n linger_ns now_ns [] h =
    unfold process_from state_of calls_for advance in (refl, refl)
process_from_lem n linger_ns now_ns (a ∷ l) h =
    process_cons n linger_ns now_ns a l h (process_from_lem n linger_ns now_ns l)

-- In a valid table one sweep moves the state of every range by `advance`, and calls back for it as
-- often as `advance` says.
pub process_timeouts_counts :
    (h : RetransmitHandler) (n : Nak) (now_ns : ℕ)
    → IsValid h
    → let (h', calls) = process_timeouts h now_ns in
      (state_of n h'.actions ≡ (advance h.linger_ns now_ns (state_of n h.actions)).0)
      × (calls_for n calls ≡ (advance h.linger_ns now_ns (state_of n h.actions)).1)
unfolding process_timeouts
process_timeouts_counts h n now_ns v = process_from_lem n h.linger_ns now_ns h.actions (v.unique n)

state_of-set :
    (m : Nak) (l : List RetransmitAction) (j : ℕ) (a : RetransmitAction)
    → IsFree l j
    → pending m l ≡ 0
    → is_active a ≡ true
    → state_of m (set l j a) ≡ (if matches a m then a.state else inactive)
unfolding pending state_of
state_of-set m [] j a f e act = absurd f
state_of-set m (b ∷ l) zero a f e act = ground (arith, state_of-eq-inactive m l)
state_of-set m (b ∷ l) (suc j) a f e act = ground (arith, state_of-set m l j a f)

state_of-set_other :
    (m : Nak) (l : List RetransmitAction) (j : ℕ) (a : RetransmitAction)
    → IsFree l j
    → matches a m ≡ false
    → state_of m (set l j a) ≡ state_of m l
unfolding state_of
state_of-set_other m [] j a f e = absurd f
state_of-set_other m (b ∷ l) zero a f e = ground arith
state_of-set_other m (b ∷ l) (suc j) a f e = ground (arith, state_of-set_other m l j a f e)

insert_state :
    (h : RetransmitHandler) (n m : Nak) (now_ns : ℕ) (s : Scan)
    → ScanFinds n h.actions 0 s
    → let (h', taken) = insert h n now_ns s in
      state_of m h'.actions
      ≡ (if taken && same_range n m then delay (add64 now_ns h.delay_ns) else state_of m h.actions)
unfolding insert
insert_state h n m now_ns duplicate f = refl
insert_state h n m now_ns (finished none) f = refl
insert_state h n m now_ns (finished (some j)) f = ground (
  arith,
  state_of-set m h.actions j a free,
  state_of-set_other m h.actions j a free,
  pending-same_range n m h.actions,
)
  where
    a : RetransmitAction
    a = scheduled n (add64 now_ns h.delay_ns)

    free : IsFree h.actions j
    free = rw sub-zero at f.2

-- A NAK that is taken starts the delay of its range, and leaves the state of every other.
pub on_nak_schedules :
    (h : RetransmitHandler) (n m : Nak) (now_ns : ℕ)
    → let (h', taken) = on_nak h n now_ns in
      state_of m h'.actions
      ≡ (if taken && same_range n m then delay (add64 now_ns h.delay_ns) else state_of m h.actions)
unfolding on_nak
on_nak_schedules h n m now_ns = insert_state h n m now_ns _ (scan-ScanFinds n h.actions 0)
