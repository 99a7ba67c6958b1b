-- ===== src/Publication/New.antt =====
-- What `new` accepts, and the state that it builds.
use native.Mathlib.Nat.{pow-suc, pow-le-pow_right}
use aeron_rs.Prelude.{
  ℕ, zero, suc, ◌+◌, ◌-◌, ◌*◌, ◌/◌, ◌^◌, ◌≤◌, ◌<◌, ◌≡◌, refl, ap, ◌∙◌, inr, inl, Option, none, some,
  [], arith, sym, Option-cases,
}
use native.Mathlib.Decide.{dec_lt}
use mathlib.Core.Path.{subst}
use aeron_rs.Log
use aeron_rs.Log.New.{new_power, new_accepts}
use native.Mathlib.Numerals.{towards_suc}
use aeron_rs.Publication.{NetworkPublication, zeros_below, new}
use aeron_rs.Publication.Span.{frames}
use aeron_rs.Publication.State.{At, Holds}

pub zeros_below_power : (n k : ℕ) → k < n → zeros_below n (2 ^ k) ≡ k
unfolding zeros_below
zeros_below_power zero k h = absurd (omega arith)
zeros_below_power (suc n) zero h = refl
zeros_below_power (suc n) (suc k) h =
    let e : 2 ^ suc k / 2 ≡ 2 ^ k = omega (arith, pow-suc 2 k) in
    rw e (ground (arith, pow-suc 2 k, zeros_below_power n k (omega arith)))

pub thirty_two : (j : ℕ) → 2 ^ (j + 5) ≡ 32 * 2 ^ j
thirty_two j = simp towards_suc (omega arith)

-- The publication that `new` builds for a term length of 2 ^ k.
abbrev pub fresh : ℕ → ℕ → ℕ → ℕ → ℕ → NetworkPublication
fresh session_id stream_id initial_term_id k mtu = record {
  raw_log = record { buffer = λ _. 0; capacity = 2 ^ k * 4; term_length = 2 ^ k };
  initial_term_id = initial_term_id;
  active_term_id = initial_term_id;
  term_offset = 0;
  term_length = 2 ^ k;
  term_length_mask = 2 ^ k - 1;
  position_bits_to_shift = k;
  pub_position = 0;
  sender_position = 0;
  session_id = session_id;
  stream_id = stream_id;
  mtu = mtu;
  max_payload_length = mtu - 32;
}

pub built :
    (session_id stream_id initial_term_id k mtu : ℕ)
    → 5 ≤ k
    → k ≤ 31
    → 32 ≤ mtu
    → new session_id stream_id initial_term_id (2 ^ k) mtu
      ≡ some (fresh session_id stream_id initial_term_id k mtu)
unfolding new
built session_id stream_id initial_term_id k mtu lo up room =
    rw (new_power k lo (omega arith), zeros_below_power 32 k (omega arith)) (ground arith)

fresh-At :
    (session_id stream_id initial_term_id k mtu : ℕ)
    → initial_term_id < 2 ^ 32
    → 5 ≤ k
    → k ≤ 30
    → 32 ≤ mtu
    → mtu ≤ 2 ^ k
    → At (fresh session_id stream_id initial_term_id k mtu) 0 0 [] []
fresh-At session_id stream_id initial_term_id k mtu hi lo up room fits = record {
  power = refl;
  aligned = omega (arith, term);
  positive = least;
  large = pow-le-pow_right {n = 2} (omega arith) up;
  log = refl;
  mask = omega (arith, least);
  payload = omega arith;
  initial = hi;
  active = hi;
  term = omega arith;
  terms = omega arith;
  ahead = omega arith;
  sender = omega arith;
  sender_in = omega arith;
  sender_term = inr refl;
  offset = omega arith;
  offset_aligned = refl;
  not_ahead = omega arith;
  not_behind = omega arith;
  published = inr refl;
  span = refl;
  clean = λ x lo hi. refl;
}
  where
    term : 2 ^ k ≡ 32 * 2 ^ (k - 5)
    term = let e : k ≡ k - 5 + 5 = omega arith in ap (λ n. 2 ^ n) e ∙ thirty_two (k - 5)

    least : 32 ≤ 2 ^ k
    least = pow-le-pow_right {n = 2} (omega arith) lo

-- For a term length of 2 ^ k up to 1 GiB, and an MTU that fits a term, the publication holds no
-- frame.
pub fresh-Holds :
    (session_id stream_id initial_term_id k mtu : ℕ)
    → initial_term_id < 2 ^ 32
    → 5 ≤ k
    → k ≤ 30
    → 32 ≤ mtu
    → mtu ≤ 2 ^ k
    → Holds (fresh session_id stream_id initial_term_id k mtu) []
fresh-Holds session_id stream_id initial_term_id k mtu hi lo up room fits = (
  0,
  0,
  [],
  [],
  fresh-At session_id stream_id initial_term_id k mtu hi lo up room fits,
  unfold frames in refl,
)

-- A power of two from 32 to 2 ^ 31.
abbrev pub IsTermLength : ℕ → Type 0
IsTermLength term_length = (k : ℕ) × (5 ≤ k) × (k ≤ 31) × (term_length ≡ 2 ^ k)

-- What `new` may answer.
abbrev pub Created : ℕ → ℕ → ℕ → ℕ → ℕ → Option NetworkPublication → Type 0
Created session_id stream_id initial_term_id term_length mtu none =
    ¬ ((32 ≤ mtu) × IsTermLength term_length)
Created session_id stream_id initial_term_id term_length mtu (some p) =
    (32 ≤ mtu)
    × (k : ℕ) × (5 ≤ k)
    × (k ≤ 31)
    × (term_length ≡ 2 ^ k)
    × (p ≡ fresh session_id stream_id initial_term_id k mtu)

no_room :
    (session_id stream_id initial_term_id term_length mtu : ℕ)
    → mtu < 32
    → new session_id stream_id initial_term_id term_length mtu ≡ none
unfolding new
no_room session_id stream_id initial_term_id term_length mtu h = ground arith

no_log :
    (session_id stream_id initial_term_id term_length mtu : ℕ)
    → Log.new term_length ≡ none
    → new session_id stream_id initial_term_id term_length mtu ≡ none
unfolding new
no_log session_id stream_id initial_term_id term_length mtu h = rw h (ground arith)

log_refused : (term_length : ℕ) → Log.new term_length ≡ none → ¬ IsTermLength term_length
log_refused term_length h (k, lo, up, e) = let made = new_power k lo up in absurd (cc)

-- `new` answers for every input: with an MTU of at least a header and a term length that is a power
-- of two from 32 to 2 ^ 31 it builds the publication with this power for its shift and mask, both
-- positions zero, at offset zero of the initial term; with anything else it refuses.
pub new_lem :
    (session_id stream_id initial_term_id term_length mtu : ℕ)
    → Created session_id stream_id initial_term_id term_length mtu
        (new session_id stream_id initial_term_id term_length mtu)
new_lem session_id stream_id initial_term_id term_length mtu = elim (dec_lt mtu 32) [
  | yes small ↦
      rw (no_room session_id stream_id initial_term_id term_length mtu small)
        (λ both. omega (arith, both.0, small))
  | no room ↦ elim (Option-cases (Log.new term_length)) [
    | inl e ↦
        rw (no_log session_id stream_id initial_term_id term_length mtu e)
          (λ both. log_refused term_length e both.1)
    | inr (log, e) ↦
        let (k, lo, up, p) = new_accepts term_length log e in
        subst
          (λ l.
            Created session_id stream_id initial_term_id l mtu
              (new session_id stream_id initial_term_id l mtu))
          (sym p)
          (rw (built session_id stream_id initial_term_id k mtu lo up (omega arith))
            (omega arith, k, lo, up, refl, refl))
  ]
]
