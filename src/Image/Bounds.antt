-- ===== src/Image/Bounds.antt =====
-- A poll ends, and stays in its term, whatever the buffer holds.
use aeron_rs.Prelude.{
  ℕ, zero, suc, ◌+◌, ◌-◌, ◌^◌, ◌≤◌, ◌<◌, ◌≡◌, refl, sym, ap, ◌∙◌, ◌⊎◌, inl, inr, List, [], ◌∷◌,
  arith, ltb, length, Bool-cases,
}
use native.Mathlib.Nat.{zero-add}
use native.Mathlib.Decide.{dec_lt}
use mathlib.Core.Path.{subst}
use aeron_rs.Prelude.Word.{add64}
use aeron_rs.Prelude.Memory.{Memory, read_i32, length-read_bytes}
use aeron_rs.Image.Steps.{found, after, after-found}
use aeron_rs.Image.{
  ImageInner, SubscriberImage, Fragment, poll_fragments, fragments_of, subscriber_term_offset,
  Round, stop, skipped, delivered, skip_gap, poll_round, poll_loop,
}

pub skip_gap_ge :
    (fuel : ℕ) (m : Memory) (base term_length pos skip : ℕ)
    → skip ≤ skip_gap fuel m base term_length pos skip
unfolding skip_gap
skip_gap_ge zero m base term_length pos skip = omega arith
skip_gap_ge (suc n) m base term_length pos skip =
    ground (arith, skip_gap_ge n m base term_length pos (skip + 32))

-- With fuel that reaches to the end of the term the search for the end of a gap has ended.
pub skip_gap_enough :
    (fuel more : ℕ) (m : Memory) (base term_length pos skip : ℕ)
    → term_length ≤ pos + skip + fuel
    → skip_gap (fuel + more) m base term_length pos skip ≡ skip_gap fuel m base term_length pos skip
unfolding skip_gap
skip_gap_enough zero zero m base term_length pos skip h = refl
skip_gap_enough zero (suc more) m base term_length pos skip h = rw zero-add (ground arith)
skip_gap_enough (suc n) more m base term_length pos skip h =
    let e : suc n + more ≡ suc (n + more) = omega arith in
    rw (e, skip_gap_enough n more m base term_length pos (skip + 32) (omega (arith, h))) refl

-- What a round takes is more than nothing, and stays in the term.
abbrev pub InTerm : ℕ → ℕ → Round → Type 0
InTerm term_length pos stop = Unit
InTerm term_length pos (skipped n) = (0 < n) × (pos + n ≤ term_length)
InTerm term_length pos (delivered n payload) =
    (0 < n) × (pos + n ≤ term_length) × (length payload + 32 ≤ n)

pub poll_round-InTerm :
    (loaded : Memory) (r : ℕ) (m : Memory) (base term_length pos cur : ℕ)
    → pos < term_length
    → InTerm term_length pos (poll_round loaded r m base term_length pos cur)
unfolding poll_round
poll_round-InTerm loaded r m base term_length pos cur h = ground (
  arith,
  skip_gap_ge term_length m base term_length pos 32,
  length-read_bytes m (base + pos + 32) (read_i32 loaded (base + pos) - 32),
)

round_more :
    (k more : ℕ) (m : Memory) (r base term_length position limit pos n scanned : ℕ) (o : Round)
    → poll_round m r m base term_length pos (add64 position scanned) ≡ o
    → InTerm term_length pos o
    → ((n' d : ℕ)
        → 0 < d
        → poll_loop (k + more) m r base term_length position limit (pos + d) n' (scanned + d)
          ≡ poll_loop k m r base term_length position limit (pos + d) n' (scanned + d))
    → poll_loop (suc (k + more)) m r base term_length position limit pos n scanned
      ≡ poll_loop (suc k) m r base term_length position limit pos n scanned
unfolding poll_loop
round_more k more m r base term_length position limit pos n scanned stop e h ih = rw e refl
round_more k more m r base term_length position limit pos n scanned (skipped d) e h ih =
    rw (e, ih n d h.0) refl
round_more k more m r base term_length position limit pos n scanned (delivered d payload) e h ih =
    rw (e, ih (n + 1) d h.0) refl

poll_loop_past :
    (fuel : ℕ) (m : Memory) (r base term_length position limit pos n scanned : ℕ)
    → term_length ≤ pos
    → poll_loop fuel m r base term_length position limit pos n scanned ≡ ([], n, scanned)
unfolding poll_loop
poll_loop_past zero m r base term_length position limit pos n scanned h = refl
poll_loop_past (suc k) m r base term_length position limit pos n scanned h = ground arith

-- Whatever the buffer holds and wherever the receiver is, the loop of a poll has ended with fuel
-- that reaches from its position to the end of the term: more fuel changes nothing.
pub poll_loop_enough :
    (fuel more : ℕ) (m : Memory) (r base term_length position limit pos n scanned : ℕ)
    → term_length ≤ pos + fuel
    → poll_loop (fuel + more) m r base term_length position limit pos n scanned
      ≡ poll_loop fuel m r base term_length position limit pos n scanned
poll_loop_enough zero more m r base term_length position limit pos n scanned h =
    poll_loop_past (0 + more) m r base term_length position limit pos n scanned (omega arith)
    ∙ sym (poll_loop_past 0 m r base term_length position limit pos n scanned (omega arith))
poll_loop_enough (suc k) more m r base term_length position limit pos n scanned h =
    let e : suc k + more ≡ suc (k + more) = omega arith in
    elim (dec_lt pos term_length) [
      | yes inside ↦ rw e (
          round_more k more m r base term_length position limit pos n scanned _ refl
            (poll_round-InTerm m r m base term_length pos (add64 position scanned) inside)
            (λ n' d some_bytes.
              poll_loop_enough k more m r base term_length position limit (pos + d) n' (scanned + d)
                (omega (arith, h, some_bytes))))
      | no past ↦
          poll_loop_past (suc k + more) m r base term_length position limit pos n scanned
            (omega arith)
          ∙ sym (
              poll_loop_past (suc k) m r base term_length position limit pos n scanned
                (omega arith))
    ]

-- The count of a poll's outcome is that of its payloads, and its bytes lie in the term.
abbrev pub InBounds : ℕ → ℕ → ℕ → ℕ → ℕ → List (List ℕ) × ℕ × ℕ → Type 0
InBounds term_length limit pos n scanned (payloads, count, total) =
    (count ≡ n + length payloads)
    × (count ≤ limit)
    × (scanned ≤ total)
    × (pos + total ≤ term_length + scanned)

round-InBounds :
    (k : ℕ) (m : Memory) (r base term_length position limit pos n scanned : ℕ) (o : Round)
    → poll_round m r m base term_length pos (add64 position scanned) ≡ o
    → InTerm term_length pos o
    → pos ≤ term_length
    → n ≤ limit
    → ((n' d : ℕ)
        → pos + d ≤ term_length
        → n' ≤ limit
        → InBounds term_length limit
            (pos + d)
            n'
            (scanned + d)
            (poll_loop k m r base term_length position limit (pos + d) n' (scanned + d)))
    → InBounds term_length limit pos n scanned
        (poll_loop (suc k) m r base term_length position limit pos n scanned)
unfolding poll_loop
round-InBounds k m r base term_length position limit pos n scanned stop e h at le ih =
    rw e (ground arith)
round-InBounds k m r base term_length position limit pos n scanned (skipped d) e h at le ih =
    rw e (ground (arith, ih n d h.1 le))
round-InBounds k m r base term_length position limit pos n scanned (delivered d payload) e h at le
      ih =
    rw e (ground (arith, h, ih (n + 1) d h.1))

pub poll_loop-InBounds :
    (fuel : ℕ) (m : Memory) (r base term_length position limit pos n scanned : ℕ)
    → pos ≤ term_length
    → n ≤ limit
    → InBounds term_length limit pos n scanned
        (poll_loop fuel m r base term_length position limit pos n scanned)
unfolding poll_loop
poll_loop-InBounds zero m r base term_length position limit pos n scanned at le = ground arith
poll_loop-InBounds (suc k) m r base term_length position limit pos n scanned at le =
    elim (dec_lt pos term_length) [
      | yes inside ↦
          round-InBounds k m r base term_length position limit pos n scanned _ refl
            (poll_round-InTerm m r m base term_length pos (add64 position scanned) inside) at le
            (λ n' d fits low.
              poll_loop-InBounds k m r base term_length position limit (pos + d) n' (scanned + d)
                fits low)
      | no past ↦
          subst (InBounds term_length limit pos n scanned)
            (sym (
              poll_loop_past (suc k) m r base term_length position limit pos n scanned
                (omega arith)))
            (ground arith)
    ]

-- The outcome of a poll of the subscriber `s` with this limit, that scanned `n` bytes.
abbrev pub Bounded :
    ImageInner → SubscriberImage → ℕ → (List Fragment × ℕ) × ImageInner × SubscriberImage → Type 0
Bounded inner s limit ((fragments, count), inner', s') =
    (n : ℕ) × (subscriber_term_offset inner s + n ≤ inner.term_length)
    × (s'.subscriber_position_local ≡ add64 s.subscriber_position_local n)
    × (inner'.log ≡ inner.log)
    × (count ≡ length fragments)
    × (count ≤ limit)

length-fragments_of :
    (inner : ImageInner) (payloads : List (List ℕ))
    → length (fragments_of inner payloads) ≡ length payloads
length-fragments_of inner [] = refl
length-fragments_of inner (p ∷ ps) = ap suc (length-fragments_of inner ps)

module _ (inner : ImageInner) (s : SubscriberImage) (limit : ℕ)
    (mask : inner.term_length_mask + 1 ≡ inner.term_length)
    (low : s.subscriber_position_local < 2 ^ 64) where
  after-Bounded :
      (r : List (List ℕ) × ℕ × ℕ)
      → InBounds inner.term_length limit (subscriber_term_offset inner s) 0 0 r
      → Bounded inner s limit (after inner s r)
  after-Bounded (payloads, count, scanned) (c, le, _, fits) =
      let counted : count ≡ length (fragments_of inner payloads) =
        omega (arith, c, length-fragments_of inner payloads) in
      elim (Bool-cases (ltb 0 scanned)) [
        | inl some_bytes ↦ rw some_bytes (scanned, omega (arith, fits), refl, refl, counted, le)
        | inr nothing ↦
            let none_scanned : scanned ≡ 0 = ground (arith, nothing) in
            rw nothing
              (scanned, omega (arith, fits), omega (arith, none_scanned, low), refl, counted, le)
      ]

  offset_inside : subscriber_term_offset inner s ≤ inner.term_length
  offset_inside = ground arith

  refused : (limit ≡ 0) ⊎ (2 ^ 31 ≤ limit) → poll_fragments inner s limit ≡ (([], 0), inner, s)
  unfolding poll_fragments
  refused h = ground arith

  nothing : Bounded inner s limit (([], 0), inner, s)
  nothing = (0, omega (arith, offset_inside), omega (arith, low), refl, refl, omega arith)

  -- Whatever the buffer and the positions hold: a poll leaves the buffer as it is and the position
  -- of the subscriber within its term or at the end of it, and it delivers as many fragments as it
  -- returns, and no more than its limit.
  pub poll_fragments-Bounded : Bounded inner s limit (poll_fragments inner s limit)
  poll_fragments-Bounded = elim (dec_lt 0 limit) [
    | yes pos ↦ elim (dec_lt limit (2 ^ 31)) [
      | yes small ↦ subst (Bounded inner s limit) (sym (after-found inner s limit pos small)) (
          after-Bounded (found inner s limit) (
            poll_loop-InBounds inner.term_length inner.log.buffer inner.receiver_position _
              inner.term_length s.subscriber_position_local limit (subscriber_term_offset inner s) 0
              0 offset_inside (omega arith)))
      | no big ↦ subst (Bounded inner s limit) (sym (refused (inr (omega arith)))) nothing
    ]
    | no none ↦ subst (Bounded inner s limit) (sym (refused (inl (omega arith)))) nothing
  ]
