-- ===== src/Retransmit/Cycle.antt =====
-- Every history of a handler, and the life of one action from its NAK to its free slot.
use aeron_rs.Prelude.{ℕ, ◌<◌, ◌≡◌, refl, ◌∙◌, true, false, List, arith, length}
use aeron_rs.Prelude.Word.{add64}
use aeron_rs.Retransmit.{
  inactive, delay, linger, RetransmitAction, Nak, RetransmitHandler, new, on_nak, expired,
  process_timeouts, insert, active_count, max_retransmit_actions,
}
use aeron_rs.Retransmit.Unique.{
  pending, on_nak_takes, IsValid, new-IsValid, on_nak-IsValid, process_timeouts-IsValid,
}
use aeron_rs.Retransmit.Lifecycle.{
  state_of, state_of-eq-inactive, calls_for, expired-eq-is_due, advance, process_timeouts_counts,
  on_nak_schedules,
}

-- The calls that the sender makes on its handler.
pub data Step (h : RetransmitHandler) : RetransmitHandler → Type 0 where
  nak : (n : Nak) (now_ns : ℕ) → Step h (on_nak h n now_ns).0
  sweep : (now_ns : ℕ) → Step h (process_timeouts h now_ns).0

pub data Reach (delay_ns linger_ns : ℕ) : RetransmitHandler → Type 0 where
  start : Reach delay_ns linger_ns (new delay_ns linger_ns)
  next :
      {h k : RetransmitHandler} → Reach delay_ns linger_ns h → Step h k → Reach delay_ns linger_ns k

Step-IsValid : {h k : RetransmitHandler} → Step h k → IsValid h → IsValid k
Step-IsValid {h} (nak n now_ns) v = on_nak-IsValid h n now_ns v
Step-IsValid {h} (sweep now_ns) v = process_timeouts-IsValid h now_ns v

-- After any history of NAKs and sweeps the table has its 64 slots and at most one active action
-- for each range.
pub Reach-IsValid :
    (delay_ns linger_ns : ℕ) {h : RetransmitHandler} → Reach delay_ns linger_ns h → IsValid h
Reach-IsValid delay_ns linger_ns start = new-IsValid delay_ns linger_ns
Reach-IsValid delay_ns linger_ns (next r s) = Step-IsValid s (Reach-IsValid delay_ns linger_ns r)

pending_of_linger :
    (n : Nak) (l : List RetransmitAction) (e : ℕ) → state_of n l ≡ linger e → 0 < pending n l
pending_of_linger n l e s = ground (arith, state_of-eq-inactive n l)

linger_ns-process_timeouts :
    (h : RetransmitHandler) (now_ns : ℕ) → (process_timeouts h now_ns).0.linger_ns ≡ h.linger_ns
unfolding process_timeouts
linger_ns-process_timeouts h now_ns = refl

on_nak_refused :
    (h : RetransmitHandler) (n : Nak) (now_ns : ℕ)
    → 0 < pending n h.actions
    → ((on_nak h n now_ns).1 ≡ false)
on_nak_refused h n now_ns p = ground (arith, on_nak_takes h n now_ns)

delayed_waits :
    (h : RetransmitHandler) (n : Nak) (expiry_ns now_ns : ℕ)
    → IsValid h
    → state_of n h.actions ≡ delay expiry_ns
    → expired now_ns expiry_ns ≡ false
    → let (h', calls) = process_timeouts h now_ns in
      (calls_for n calls ≡ 0) × (state_of n h'.actions ≡ delay expiry_ns)
unfolding advance
delayed_waits h n expiry_ns now_ns v s e =
    ground (arith, process_timeouts_counts h n now_ns v, expired-eq-is_due now_ns expiry_ns)

delayed_fires :
    (h : RetransmitHandler) (n : Nak) (expiry_ns now_ns linger_ns : ℕ)
    → IsValid h
    → h.linger_ns ≡ linger_ns
    → state_of n h.actions ≡ delay expiry_ns
    → expired now_ns expiry_ns ≡ true
    → let (h', calls) = process_timeouts h now_ns in
      (calls_for n calls ≡ 1) × (state_of n h'.actions ≡ linger (add64 now_ns linger_ns))
unfolding advance
delayed_fires h n expiry_ns now_ns linger_ns v l s e =
    ground (arith, process_timeouts_counts h n now_ns v, expired-eq-is_due now_ns expiry_ns)

lingering_ends :
    (h : RetransmitHandler) (n : Nak) (expiry_ns now_ns : ℕ)
    → IsValid h
    → state_of n h.actions ≡ linger expiry_ns
    → expired now_ns expiry_ns ≡ true
    → let (h', calls) = process_timeouts h now_ns in
      (calls_for n calls ≡ 0) × (state_of n h'.actions ≡ inactive)
unfolding advance
lingering_ends h n expiry_ns now_ns v s e =
    ground (arith, process_timeouts_counts h n now_ns v, expired-eq-is_due now_ns expiry_ns)

on_nak_delays :
    (h : RetransmitHandler) (n : Nak) (now_ns : ℕ)
    → pending n h.actions ≡ 0
    → active_count h < length h.actions
    → state_of n (on_nak h n now_ns).0.actions ≡ delay (add64 now_ns h.delay_ns)
on_nak_delays h n now_ns p a =
    ground (arith, on_nak_takes h n now_ns, on_nak_schedules h n n now_ns)

linger_ns-on_nak :
    (h : RetransmitHandler) (n : Nak) (now_ns : ℕ) → (on_nak h n now_ns).0.linger_ns ≡ h.linger_ns
unfolding on_nak insert
linger_ns-on_nak h n now_ns = ground arith

-- The life of a NAK that meets a free range and a free slot, at time `t0`: a sweep at `t1`, before
-- the delay is over, calls back for nothing of its range; the first sweep at `t2` after the delay
-- calls back once; until a sweep at `t3` after the linger a NAK for the range is refused, and that
-- sweep frees the range with no call.
pub nak_cycle :
    (h : RetransmitHandler) (n : Nak) (t0 t1 t2 again_ns t3 : ℕ)
    → IsValid h
    → pending n h.actions ≡ 0
    → active_count h < max_retransmit_actions
    → expired t1 (add64 t0 h.delay_ns) ≡ false
    → expired t2 (add64 t0 h.delay_ns) ≡ true
    → expired t3 (add64 t2 h.linger_ns) ≡ true
    → let (waiting, taken) = on_nak h n t0 in
      let (waited, early) = process_timeouts waiting t1 in
      let (fired, calls) = process_timeouts waited t2 in
      let (held, again) = on_nak fired n again_ns in
      let (done, late) = process_timeouts held t3 in
      (taken ≡ true)
      × (calls_for n early ≡ 0)
      × (calls_for n calls ≡ 1)
      × (again ≡ false)
      × (calls_for n late ≡ 0)
      × (state_of n done.actions ≡ inactive)
nak_cycle h n t0 t1 t2 again_ns t3 v p a e1 e2 e3 =
    (ground (arith, on_nak_takes h n t0, v.size), waits.0, fires.0, refused, ends.0, ends.1)
  where
    h1 : RetransmitHandler
    h1 = (on_nak h n t0).0

    h2 : RetransmitHandler
    h2 = (process_timeouts h1 t1).0

    h3 : RetransmitHandler
    h3 = (process_timeouts h2 t2).0

    h4 : RetransmitHandler
    h4 = (on_nak h3 n again_ns).0

    v1 : IsValid h1
    v1 = on_nak-IsValid h n t0 v

    v2 : IsValid h2
    v2 = process_timeouts-IsValid h1 t1 v1

    v3 : IsValid h3
    v3 = process_timeouts-IsValid h2 t2 v2

    waits :
        (calls_for n (process_timeouts h1 t1).1 ≡ 0)
        × (state_of n h2.actions ≡ delay (add64 t0 h.delay_ns))
    waits =
        delayed_waits h1 n (add64 t0 h.delay_ns) t1 v1
          (on_nak_delays h n t0 p (omega (arith, v.size))) e1

    fires :
        (calls_for n (process_timeouts h2 t2).1 ≡ 1)
        × (state_of n h3.actions ≡ linger (add64 t2 h.linger_ns))
    fires =
        delayed_fires h2 n (add64 t0 h.delay_ns) t2 h.linger_ns v2
          (linger_ns-process_timeouts h1 t1 ∙ linger_ns-on_nak h n t0) waits.1 e2

    refused : (on_nak h3 n again_ns).1 ≡ false
    refused = on_nak_refused h3 n again_ns (pending_of_linger n h3.actions _ fires.1)

    ends :
        (calls_for n (process_timeouts h4 t3).1 ≡ 0)
        × (state_of n (process_timeouts h4 t3).0.actions ≡ inactive)
    ends =
        lingering_ends h4 n (add64 t2 h.linger_ns) t3 (on_nak-IsValid h3 n again_ns v3)
          (ground (arith, on_nak_schedules h3 n n again_ns, fires.1, refused)) e3
