-- ===== src/Retransmit/Calls.antt =====
-- The calls that one sweep makes for a range, with their arguments.
use aeron_rs.Prelude.{
  ℕ, ◌≤◌, ◌≡◌, refl, true, ◌&&◌, ap, List, [], ◌∷◌, ◌++◌, arith, replicate, if◌then◌else◌,
  Bool-cases, inl, inr,
}
use aeron_rs.Retransmit.{
  RetransmitAction, Nak, matches, RetransmitHandler, call_of, process_action, process_from,
  process_timeouts, is_active,
}
use aeron_rs.Retransmit.Unique.{pending, same_range, IsValid}
use aeron_rs.Retransmit.Lifecycle.{state_of, advance, expired-eq-is_due, process_timeouts_counts}

-- The calls for the range of `n`, in order.
unfoldable pub calls_of : Nak → List Nak → List Nak
calls_of n [] = []
calls_of n (c ∷ cs) = if same_range c n then c ∷ calls_of n cs else calls_of n cs

-- The length recorded with the active action of a range.
unfoldable pub length_of : Nak → List RetransmitAction → ℕ
length_of n [] = 0
length_of n (a ∷ l) = if is_active a && matches a n then a.length else length_of n l

-- `k` calls for the range of `n`, each with this length.
abbrev pub calls_with : ℕ → ℕ → Nak → List Nak
calls_with k length n = replicate k (record n { length = length })

calls_of-append :
    (n : Nak) (xs ys : List Nak) → calls_of n (xs ++ ys) ≡ calls_of n xs ++ calls_of n ys
unfolding calls_of
calls_of-append n [] ys = refl
calls_of-append n (x ∷ xs) ys = ground (arith, calls_of-append n xs ys)

append_nil : (xs : List Nak) → xs ++ [] ≡ xs
append_nil [] = refl
append_nil (x ∷ xs) = ap (◌∷◌ x) (append_nil xs)

call_of_match :
    (n : Nak) (a : RetransmitAction)
    → matches a n ≡ true
    → call_of a ≡ record n { length = a.length }
call_of_match n a h = ground arith

calls_of-unmatched :
    (n : Nak) (linger_ns now_ns : ℕ) (l : List RetransmitAction)
    → pending n l ≡ 0
    → calls_of n (process_from linger_ns now_ns l).1 ≡ []
unfolding pending process_from process_action calls_of
calls_of-unmatched n linger_ns now_ns [] e = refl
calls_of-unmatched n linger_ns now_ns (a ∷ l) e =
    ground (arith, calls_of-unmatched n linger_ns now_ns l)

calls_of-process_action :
    (n : Nak) (linger_ns now_ns : ℕ) (a : RetransmitAction)
    → calls_of n (process_action linger_ns now_ns a).1
      ≡ (if matches a n then calls_with (advance linger_ns now_ns a.state).1 a.length n else [])
unfolding process_action advance calls_of
calls_of-process_action n linger_ns now_ns a =
    let due = expired-eq-is_due now_ns in let same = call_of_match n a in ground arith

calls_of-cons :
    (n : Nak) (linger_ns now_ns : ℕ) (a : RetransmitAction) (l : List RetransmitAction)
    → pending n (a ∷ l) ≤ 1
    → (pending n l ≤ 1
        → calls_of n (process_from linger_ns now_ns l).1
          ≡ calls_with (advance linger_ns now_ns (state_of n l)).1 (length_of n l) n)
    → calls_of n (process_from linger_ns now_ns (a ∷ l)).1
      ≡ calls_with (advance linger_ns now_ns (state_of n (a ∷ l))).1 (length_of n (a ∷ l)) n
unfolding pending process_from state_of length_of advance
calls_of-cons n linger_ns now_ns a l h ih = elim (Bool-cases (is_active a && matches a n)) [
  | inl mine ↦ ground (
    arith,
    calls_of-unmatched n linger_ns now_ns l,
    calls_of-process_action n linger_ns now_ns a,
    append_nil (calls_of n (process_action linger_ns now_ns a).1),
    calls_of-append n (process_action linger_ns now_ns a).1 (process_from linger_ns now_ns l).1,
  )
  | inr other ↦ ground (
    arith,
    calls_of-process_action n linger_ns now_ns a,
    calls_of-append n (process_action linger_ns now_ns a).1 (process_from linger_ns now_ns l).1,
  )
]

calls_of-process_from :
    (n : Nak) (linger_ns now_ns : ℕ) (l : List RetransmitAction)
    → pending n l ≤ 1
    → calls_of n (process_from linger_ns now_ns l).1
      ≡ calls_with (advance linger_ns now_ns (state_of n l)).1 (length_of n l) n
calls_of-process_from n linger_ns now_ns [] h =
    unfold process_from state_of calls_of advance in refl
calls_of-process_from n linger_ns now_ns (a ∷ l) h =
    calls_of-cons n linger_ns now_ns a l h (calls_of-process_from n linger_ns now_ns l)

-- In a valid table one sweep moves the state of every range by `advance`: a delay that is due ends
-- in a linger, a linger that is due in a free range, and all else stays. It calls back for a range
-- only when its delay is due, and then once, with the length recorded in its action. Due is a clock
-- from the expiry on and less than 2 ^ 62 - 1 ns past it, in arithmetic that wraps at 2 ^ 64.
pub process_timeouts_advances :
    (h : RetransmitHandler) (n : Nak) (now_ns : ℕ)
    → IsValid h
    → let (h', calls) = process_timeouts h now_ns in
      let (state, count) = advance h.linger_ns now_ns (state_of n h.actions) in
      (state_of n h'.actions ≡ state)
      × (calls_of n calls ≡ calls_with count (length_of n h.actions) n)
unfolding process_timeouts
process_timeouts_advances h n now_ns v = (
  (process_timeouts_counts h n now_ns v).0,
  calls_of-process_from n h.linger_ns now_ns h.actions (v.unique n),
)
