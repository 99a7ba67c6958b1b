-- ===== src/Retransmit.antt =====
-- src/media/retransmit_handler.rs: the NAK-driven retransmit scheduler of the sender, a table of
-- actions that go from Inactive to Delay to Linger and back. The callback of `process_timeouts` is
-- the list of the calls made to it, in order.
pub mod Unique
pub mod Lifecycle
pub mod Calls
pub mod Cycle
mod Tests
use aeron_rs.Prelude.{
  ℕ, ◌+◌, ◌^◌, Bool, true, false, ◌&&◌, Option, none, some, List, [], ◌∷◌, ◌++◌, ltb, ◌==◌,
  if◌then◌else◌, replicate, set,
}
use aeron_rs.Prelude.Word.{add64, sub64, nonneg64, lt_i64}

abbrev pub max_retransmit_actions : ℕ
max_retransmit_actions = 64

pub data RetransmitState : Type 0 where
  inactive : RetransmitState
  delay : ℕ → RetransmitState
  linger : ℕ → RetransmitState

pub record RetransmitAction : Type 0 where
  pub session_id : ℕ
  pub stream_id : ℕ
  pub term_id : ℕ
  pub term_offset : ℕ
  pub length : ℕ
  pub state : RetransmitState

abbrev pub inactive_action : RetransmitAction
inactive_action = record {
  session_id = 0;
  stream_id = 0;
  term_id = 0;
  term_offset = 0;
  length = 0;
  state = inactive;
}

-- The fields that `on_nak` copies out of the NAK frame.
pub record Nak : Type 0 where
  pub session_id : ℕ
  pub stream_id : ℕ
  pub term_id : ℕ
  pub term_offset : ℕ
  pub length : ℕ

abbrev pub matches : RetransmitAction → Nak → Bool
matches a n =
    a.session_id == n.session_id
    && (a.stream_id == n.stream_id && (a.term_id == n.term_id && a.term_offset == n.term_offset))

pub record RetransmitHandler : Type 0 where
  pub actions : List RetransmitAction
  pub delay_ns : ℕ
  pub linger_ns : ℕ

unfoldable pub new : ℕ → ℕ → RetransmitHandler
new delay_ns linger_ns = record {
  actions = replicate max_retransmit_actions inactive_action;
  delay_ns = delay_ns;
  linger_ns = linger_ns;
}

-- The outcome of the single pass of `on_nak`: an early return, or the first free slot.
pub data Scan : Type 0 where
  duplicate : Scan
  finished : Option ℕ → Scan

-- `if free_idx.is_none() { free_idx = Some(i) }`
abbrev pub keep_first : Option ℕ → ℕ → Option ℕ
keep_first none i = some i
keep_first (some j) i = some j

pub scan : Nak → List RetransmitAction → ℕ → Option ℕ → Scan
scan n [] i free_idx = finished free_idx
scan n (a ∷ l) i free_idx = elim a.state [
  | inactive ↦ scan n l (i + 1) (keep_first free_idx i)
  | delay _ ↦ (let rest = scan n l (i + 1) free_idx in if matches a n then duplicate else rest)
  | linger _ ↦ (let rest = scan n l (i + 1) free_idx in if matches a n then duplicate else rest)
]

abbrev pub scheduled : Nak → ℕ → RetransmitAction
scheduled n expiry_ns = record {
  session_id = n.session_id;
  stream_id = n.stream_id;
  term_id = n.term_id;
  term_offset = n.term_offset;
  length = n.length;
  state = delay expiry_ns;
}

-- What `on_nak` does with the outcome of its pass.
pub insert : RetransmitHandler → Nak → ℕ → Scan → RetransmitHandler × Bool
insert h n now_ns duplicate = (h, false)
insert h n now_ns (finished none) = (h, false)
insert h n now_ns (finished (some idx)) =
    (record h { actions = set h.actions idx (scheduled n (add64 now_ns h.delay_ns)) }, true)

pub on_nak : RetransmitHandler → Nak → ℕ → RetransmitHandler × Bool
on_nak h n now_ns = insert h n now_ns (scan n h.actions 0 none)

-- `elapsed >= 0 && elapsed < i64::MAX / 2`
abbrev pub expired : ℕ → ℕ → Bool
expired now_ns expiry_ns =
    let elapsed = sub64 now_ns expiry_ns in nonneg64 elapsed && lt_i64 elapsed 4611686018427387903

-- The arguments of one call of `on_retransmit`.
abbrev pub call_of : RetransmitAction → Nak
call_of a = record {
  session_id = a.session_id;
  stream_id = a.stream_id;
  term_id = a.term_id;
  term_offset = a.term_offset;
  length = a.length;
}

-- One round of the loop: the new action and the calls made.
pub process_action : ℕ → ℕ → RetransmitAction → RetransmitAction × List Nak
process_action linger_ns now_ns a = elim a.state [
  | inactive ↦ (a, [])
  | delay expiry_ns ↦
      if expired now_ns expiry_ns
      then (record a { state = linger (add64 now_ns linger_ns) }, call_of a ∷ [])
      else (a, [])
  | linger expiry_ns ↦
      if expired now_ns expiry_ns then (record a { state = inactive }, []) else (a, [])
]

pub process_from : ℕ → ℕ → List RetransmitAction → List RetransmitAction × List Nak
process_from linger_ns now_ns [] = ([], [])
process_from linger_ns now_ns (a ∷ l) =
    let (a', calls) = process_action linger_ns now_ns a in
    let (l', later) = process_from linger_ns now_ns l in (a' ∷ l', calls ++ later)

pub process_timeouts : RetransmitHandler → ℕ → RetransmitHandler × List Nak
process_timeouts h now_ns =
    let (actions, calls) = process_from h.linger_ns now_ns h.actions in
    (record h { actions = actions }, calls)

abbrev pub is_active : RetransmitAction → Bool
is_active a = elim a.state [ inactive ↦ false | _ ↦ true ]

pub count_active : List RetransmitAction → ℕ
count_active [] = 0
count_active (a ∷ l) = (if is_active a then 1 else 0) + count_active l

pub active_count : RetransmitHandler → ℕ
unfolding count_active
active_count h = count_active h.actions
