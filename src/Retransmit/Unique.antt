-- ===== src/Retransmit/Unique.antt =====
-- The table never holds two active actions for one range, and `on_nak` does what the table needs.
use aeron_rs.Prelude.{
  ℕ, zero, suc, ◌+◌, ◌-◌, ◌≤◌, ◌<◌, ◌≡◌, refl, ◌∙◌, Bool, true, ◌&&◌, none, some, List, [], ◌∷◌,
  arith, ltb, ◌==◌, if◌then◌else◌, length, set, length-set, length-replicate,
}
use aeron_rs.Retransmit.{
  inactive, RetransmitAction, Nak, matches, RetransmitHandler, new, Scan, duplicate, finished, scan,
  scheduled, insert, on_nak, process_action, process_from, process_timeouts, is_active,
  count_active, active_count, max_retransmit_actions, inactive_action,
}
use native.Mathlib.Nat.{sub-zero}
use aeron_rs.Prelude.{replicate}
use aeron_rs.Prelude.Word.{add64}

-- How many active actions of the table are for the range of `n`.
unfoldable pub pending : Nak → List RetransmitAction → ℕ
pending n [] = 0
pending n (a ∷ l) = (if is_active a && matches a n then 1 else 0) + pending n l

-- The slot `i` of the table is inactive.
abbrev pub IsFree : List RetransmitAction → ℕ → Type 0
IsFree [] i = ⊥
IsFree (a ∷ l) zero = a.state ≡ inactive
IsFree (a ∷ l) (suc i) = IsFree l i

-- What the pass finds in a table from slot `i` on, with no free slot seen.
abbrev pub ScanFinds : Nak → List RetransmitAction → ℕ → Scan → Type 0
ScanFinds n l i duplicate = 0 < pending n l
ScanFinds n l i (finished none) = (pending n l ≡ 0) × (count_active l ≡ length l)
ScanFinds n l i (finished (some j)) = (pending n l ≡ 0) × (i ≤ j) × IsFree l (j - i)

-- What it finds once a free slot was seen.
abbrev pub ScanKeeps : Nak → List RetransmitAction → ℕ → Scan → Type 0
ScanKeeps n l k duplicate = 0 < pending n l
ScanKeeps n l k (finished none) = ⊥
ScanKeeps n l k (finished (some j)) = (pending n l ≡ 0) × (j ≡ k)

scan-ScanKeeps :
    (n : Nak) (l : List RetransmitAction) (i k : ℕ) → ScanKeeps n l k (scan n l i (some k))
unfolding scan pending
scan-ScanKeeps n [] i k = (refl, refl)
scan-ScanKeeps n (a ∷ l) i k = ground (arith, scan-ScanKeeps n l (i + 1) k)

pub scan-ScanFinds :
    (n : Nak) (l : List RetransmitAction) (i : ℕ) → ScanFinds n l i (scan n l i none)
unfolding scan pending count_active
scan-ScanFinds n [] i = (refl, refl)
scan-ScanFinds n (a ∷ l) i =
    ground (arith, scan-ScanFinds n l (i + 1), scan-ScanKeeps n l (i + 1) i)

-- Two NAKs for one range.
abbrev pub same_range : Nak → Nak → Bool
same_range n m =
    n.session_id == m.session_id
    && (n.stream_id == m.stream_id && (n.term_id == m.term_id && n.term_offset == m.term_offset))

pub pending-same_range :
    (n m : Nak) (l : List RetransmitAction) → same_range n m ≡ true → pending m l ≡ pending n l
unfolding pending
pending-same_range n m [] e = refl
pending-same_range n m (a ∷ l) e = ground (arith, pending-same_range n m l e)

pub pending-set :
    (m : Nak) (l : List RetransmitAction) (j : ℕ) (a : RetransmitAction)
    → IsFree l j
    → pending m (set l j a) ≡ (if is_active a && matches a m then 1 else 0) + pending m l
unfolding pending
pending-set m [] j a h = absurd h
pending-set m (b ∷ l) zero a h = ground arith
pending-set m (b ∷ l) (suc j) a h = omega (arith, pending-set m l j a h)

count_active-le-length : (l : List RetransmitAction) → count_active l ≤ length l
unfolding count_active
count_active-le-length [] = omega arith
count_active-le-length (a ∷ l) = ground (arith, count_active-le-length l)

count_active-set :
    (l : List RetransmitAction) (j : ℕ) (a : RetransmitAction)
    → IsFree l j
    → is_active a ≡ true
    → (count_active (set l j a) ≡ count_active l + 1) × (count_active (set l j a) ≤ length l)
unfolding count_active
count_active-set [] j a h e = absurd h
count_active-set (b ∷ l) zero a h e = ground (arith, count_active-le-length l)
count_active-set (b ∷ l) (suc j) a h e = ground (arith, count_active-set l j a h e)

insert_takes :
    (h : RetransmitHandler) (n : Nak) (now_ns : ℕ) (s : Scan)
    → ScanFinds n h.actions 0 s
    → (insert h n now_ns s).1
      ≡ (pending n h.actions == 0 && ltb (active_count h) (length h.actions))
unfolding insert active_count
insert_takes h n now_ns duplicate f = ground arith
insert_takes h n now_ns (finished none) f = ground arith
insert_takes h n now_ns (finished (some j)) f =
    ground (arith, count_active-set h.actions j (scheduled n 0))

-- A NAK is taken exactly if no active action is for its range and a slot is free.
pub on_nak_takes :
    (h : RetransmitHandler) (n : Nak) (now_ns : ℕ)
    → (on_nak h n now_ns).1 ≡ (pending n h.actions == 0 && ltb (active_count h) (length h.actions))
unfolding on_nak
on_nak_takes h n now_ns = insert_takes h n now_ns _ (scan-ScanFinds n h.actions 0)

insert_effect :
    (h : RetransmitHandler) (n : Nak) (now_ns : ℕ) (s : Scan)
    → ScanFinds n h.actions 0 s
    → let (h', taken) = insert h n now_ns s in
      ((m : Nak)
        → pending m h'.actions ≡ (if taken && same_range n m then 1 else 0) + pending m h.actions)
      × (active_count h' ≡ (if taken then 1 else 0) + active_count h)
      × (length h'.actions ≡ length h.actions)
      × (h' ≡ (if taken then record h { actions = h'.actions } else h))
unfolding insert active_count
insert_effect h n now_ns duplicate f = (λ m. omega arith, omega arith, refl, refl)
insert_effect h n now_ns (finished none) f = (λ m. omega arith, omega arith, refl, refl)
insert_effect h n now_ns (finished (some j)) f = (
  λ m. pending-set m h.actions j (scheduled n _) (rw sub-zero at f.2),
  omega (
    arith,
    count_active-set h.actions j (scheduled n (add64 now_ns h.delay_ns)) (rw sub-zero at f.2) refl,
  ),
  length-set h.actions j _,
  refl,
)

pub on_nak_effect :
    (h : RetransmitHandler) (n : Nak) (now_ns : ℕ)
    → let (h', taken) = on_nak h n now_ns in
      ((m : Nak)
        → pending m h'.actions ≡ (if taken && same_range n m then 1 else 0) + pending m h.actions)
      × (active_count h' ≡ (if taken then 1 else 0) + active_count h)
      × (length h'.actions ≡ length h.actions)
      × (h' ≡ (if taken then record h { actions = h'.actions } else h))
unfolding on_nak
on_nak_effect h n now_ns = insert_effect h n now_ns _ (scan-ScanFinds n h.actions 0)

-- The table of the handler has 64 slots, and no two active actions for one range.
pub record IsValid (h : RetransmitHandler) : Type 0 where
  pub size : length h.actions ≡ max_retransmit_actions
  pub unique : (n : Nak) → pending n h.actions ≤ 1

pending-replicate : (n : Nak) (k : ℕ) → pending n (replicate k inactive_action) ≡ 0
unfolding pending
pending-replicate n zero = refl
pending-replicate n (suc k) = omega (arith, pending-replicate n k)

pub new-IsValid : (delay_ns linger_ns : ℕ) → IsValid (new delay_ns linger_ns)
unfolding new
new-IsValid delay_ns linger_ns = record {
  size = length-replicate 64 inactive_action;
  unique = λ n. omega (arith, pending-replicate n 64);
}

pub on_nak-IsValid :
    (h : RetransmitHandler) (n : Nak) (now_ns : ℕ) → IsValid h → IsValid (on_nak h n now_ns).0
on_nak-IsValid h n now_ns v = record {
  size = (on_nak_effect h n now_ns).2 ∙ v.size;
  unique = λ m. ground (
    arith,
    (on_nak_effect h n now_ns).0 m,
    on_nak_takes h n now_ns,
    pending-same_range n m h.actions,
    v.unique m,
  );
}

pub pending-process_from :
    (n : Nak) (linger_ns now_ns : ℕ) (l : List RetransmitAction)
    → let (l', _) = process_from linger_ns now_ns l in
      (pending n l' ≤ pending n l) × (length l' ≡ length l)
unfolding pending process_from process_action
pending-process_from n linger_ns now_ns [] = omega arith
pending-process_from n linger_ns now_ns (a ∷ l) =
    ground (arith, pending-process_from n linger_ns now_ns l)

pub process_timeouts-IsValid :
    (h : RetransmitHandler) (now_ns : ℕ) → IsValid h → IsValid (process_timeouts h now_ns).0
unfolding process_timeouts
process_timeouts-IsValid h now_ns v = record {
  size =
      (pending-process_from
        (record { session_id = 0; stream_id = 0; term_id = 0; term_offset = 0; length = 0 })
        h.linger_ns now_ns h.actions).1
      ∙ v.size;
  unique = λ n. omega (arith, pending-process_from n h.linger_ns now_ns h.actions, v.unique n);
}
