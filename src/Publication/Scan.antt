-- ===== src/Publication/Scan.antt =====
-- `sender_scan`: which frames it hands on, and what the publication holds afterwards.
use native.Mathlib.Decide.{dec_lt}
use native.Mathlib.Nat.{add-zero, sub-zero}
use mathlib.Core.Path.{subst}
use mathlib.Core.List.{append_assoc}
use aeron_rs.Prelude.{
  ℕ, suc, ◌+◌, ◌*◌, ◌%◌, ◌≤◌, ◌<◌, ◌≡◌, refl, sym, ap, ap₂, ◌∙◌, ◌⊎◌, inl, inr, List, [], ◌∷◌, ◌++◌,
  arith, length, map,
}
use aeron_rs.Prelude.Word.{add64}
use aeron_rs.Prelude.Memory.{Memory, read_i32-eq-zero}
use aeron_rs.Log.{partition_index, scan_frames}
use aeron_rs.Log.Layout.{Laid, Laid-le, Stops}
use aeron_rs.Log.Scan.{taken, Took, taken-Took, taken_progress, scan_frames_lem}
use aeron_rs.Publication.{NetworkPublication, sender_scan, sender_term_id, sender_term_offset}
use aeron_rs.Publication.Span.{Span, frames, off_le_last, nil_at_end}
use aeron_rs.Publication.State.{At, Holds, product_lt, sender_term_lem}

-- Where the frames of the sender's term end.
abbrev pub head_end : List (List (List ℕ)) → ℕ → ℕ → ℕ
head_end [] tl last = last
head_end (g ∷ gs) tl last = tl

pub head-Laid :
    (m : Memory) (tl t off : ℕ) (fs : List (List ℕ)) (gs : List (List (List ℕ))) (last : ℕ)
    → Span m tl t off fs gs last
    → Laid m (t % 4 * tl) off fs (head_end gs tl last)
head-Laid m tl t off fs [] last s = s
head-Laid m tl t off fs (g ∷ gs) last s = s.0

pub head_end_le : (gs : List (List (List ℕ))) (tl last : ℕ) → last ≤ tl → head_end gs tl last ≤ tl
head_end_le [] tl last h = h
head_end_le (g ∷ gs) tl last h = omega arith

pub head-Stops :
    (p : NetworkPublication) (t off : ℕ) (fs : List (List ℕ)) (gs : List (List (List ℕ)))
    → At p t off fs gs
    → Stops p.raw_log.buffer
        (t % 4 * p.term_length)
        p.term_length
        (head_end gs p.term_length p.term_offset)
head-Stops p t off fs [] a = elim (dec_lt p.term_offset p.term_length) [
  | yes room ↦ inr (
      read_i32-eq-zero p.raw_log.buffer _ (λ x lo hi.
        a.clean x (rw add-zero lo)
          (rw add-zero (omega (arith, room, hi, a.aligned, a.offset_aligned)))))
  | no full ↦ inl (omega (arith, a.offset))
]
head-Stops p t off fs (g ∷ gs) a = inl refl

-- The sender at another place of the same frames.
moved :
    (p : NetworkPublication) (t off : ℕ) (fs : List (List ℕ)) (gs : List (List (List ℕ)))
    (s t' off' : ℕ) (fs' : List (List ℕ)) (gs' : List (List (List ℕ)))
    → At p t off fs gs
    → t' + length gs' ≡ t + length gs
    → length gs' ≤ 3
    → s ≡ t' * p.term_length + off'
    → off' ≤ p.term_length
    → (off' < p.term_length) ⊎ (length gs' ≡ 0)
    → Span p.raw_log.buffer p.term_length t' off' fs' gs' p.term_offset
    → At (record p { sender_position = s }) t' off' fs' gs'
moved p t off fs gs s t' off' fs' gs' a e ahead at le inside span = record {
  power = a.power;
  aligned = a.aligned;
  positive = a.positive;
  large = a.large;
  log = a.log;
  mask = a.mask;
  payload = a.payload;
  initial = a.initial;
  active = a.active;
  term = a.term ∙ sym e;
  terms = rw e a.terms;
  ahead = ahead;
  sender = at;
  sender_in = le;
  sender_term = inside;
  offset = a.offset;
  offset_aligned = a.offset_aligned;
  not_ahead = rw e a.not_ahead;
  not_behind = rw e a.not_behind;
  published = rw e a.published;
  span = span;
  clean = rw e a.clean;
}

-- The sender, after it took the frames of its term up to `off'`.
advanced :
    (p : NetworkPublication) (t off off' : ℕ) (fs rest : List (List ℕ)) (gs : List (List (List ℕ)))
    → At p t off fs gs
    → Laid p.raw_log.buffer
        (t % 4 * p.term_length)
        off'
        rest
        (head_end gs p.term_length p.term_offset)
    → Holds (record p { sender_position = t * p.term_length + off' }) (frames rest gs)
unfolding frames
advanced p t off off' fs rest [] a h = (
  t,
  off',
  rest,
  [],
  moved p t off fs [] _ t off' rest [] a refl a.ahead refl
      (omega (arith, Laid-le p.raw_log.buffer _ off' rest p.term_offset h, a.offset)) (inr refl) h,
  refl,
)
advanced p t off off' fs rest (g ∷ gs) a h = elim (dec_lt off' p.term_length) [
  | yes room ↦ (
    t,
    off',
    rest,
    g ∷ gs,
    moved p t off fs (g ∷ gs) _ t off' rest (g ∷ gs) a refl a.ahead refl (omega arith) (inl room)
        (h, a.span.1),
    refl,
  )
  | no full ↦ (
    suc t,
    0,
    g,
    gs,
    moved p t off fs (g ∷ gs) _ (suc t) 0 g gs a (omega arith) (omega (arith, a.ahead))
        (omega (arith, edge full)) (omega arith) (inl (omega (arith, a.positive))) a.span.1,
    sym (
        ap (λ r. r ++ frames g gs)
          (nil_at_end p.raw_log.buffer p.term_length t rest [] p.term_length
            (subst (λ o. Laid p.raw_log.buffer (t % 4 * p.term_length) o rest p.term_length)
              (edge full) h)
            refl)),
  )
]
  where
    edge : ¬ (off' < p.term_length) → off' ≡ p.term_length
    edge full = omega (arith, Laid-le p.raw_log.buffer _ off' rest p.term_length h)

-- The outcome of a scan of a publication that holds `q`.
abbrev pub Scanned :
    NetworkPublication → List (List ℕ) → (List (ℕ × List ℕ) × ℕ) × NetworkPublication → Type 0
Scanned p q ((calls, n), p') =
    (rest : List (List ℕ)) × (q ≡ map (λ c. c.1) calls ++ rest)
    × Holds p' rest
    × (p'.sender_position ≡ p.sender_position + n)
    × (0 < length calls)

frames-append :
    (xs ys : List (List ℕ)) (gs : List (List (List ℕ))) → frames (xs ++ ys) gs ≡ xs ++ frames ys gs
unfolding frames
frames-append xs ys [] = refl
frames-append xs ys (g ∷ gs) = append_assoc xs ys (frames g gs)

-- There is a frame at the sender, since it is behind the publication position.
head_of :
    (p : NetworkPublication) (t off : ℕ) (fs : List (List ℕ)) (gs : List (List (List ℕ)))
    → At p t off fs gs
    → off < p.term_length
    → p.sender_position < p.pub_position
    → (f : List ℕ) × (l : List (List ℕ)) × (fs ≡ f ∷ l)
head_of p t off [] [] a inside behind =
    absurd (omega (arith, rw add-zero at a.not_ahead, a.span, a.sender))
head_of p t off [] (g ∷ gs) a inside behind = absurd (omega (arith, a.span.0))
head_of p t off (f ∷ l) gs a inside behind = (f, l, refl)

module _ (p : NetworkPublication) (t off : ℕ) (fs : List (List ℕ)) (gs : List (List (List ℕ)))
    (a : At p t off fs gs) (behind : p.sender_position < p.pub_position) where
  -- The clamp of the sender agent: it scans only what lies below the publication position.
  inside : off < p.term_length
  inside = elim a.sender_term [
    | inl h ↦ h
    | inr none ↦ omega (
      arith,
      off_le_last p.raw_log.buffer p.term_length t off fs gs p.term_offset a.span none,
      rw none at a.not_ahead,
      a.sender,
      a.offset,
    )
  ]

  scan_lem :
      (limit : ℕ)
      → scan_frames p.raw_log
          (partition_index (sender_term_id p) p.initial_term_id)
          (sender_term_offset p)
          limit
        ≡ taken p.term_length limit off 0 fs
  scan_lem limit =
      let e = sender_term_lem p t off fs gs a inside in
      ap₂ (λ i o. scan_frames p.raw_log i o limit) e.0 e.1
      ∙ scan_frames_lem p.raw_log (t % 4) off limit fs (head_end gs p.term_length p.term_offset)
          (omega arith)
          (rw a.log (head-Laid p.raw_log.buffer p.term_length t off fs gs p.term_offset a.span))
          (rw a.log (head_end_le gs p.term_length p.term_offset a.offset))
          (rw a.log (head-Stops p t off fs gs a))
      ∙ ap (λ l. taken l limit off 0 fs) a.log

  progress : (limit : ℕ) → 0 < limit → 0 < length (taken p.term_length limit off 0 fs).0
  progress limit h =
      let (f, l, e) = head_of p t off fs gs a inside behind in
      rw e (taken_progress p.term_length limit off f l inside h)

  finish :
      (r : List (ℕ × List ℕ) × ℕ)
      → Took p.raw_log.buffer
          (t % 4 * p.term_length)
          off
          0
          fs
          (head_end gs p.term_length p.term_offset)
          r
      → 0 < length r.0
      → Scanned p (frames fs gs) (r, record p { sender_position = add64 p.sender_position r.1 })
  finish (calls, total) (rest, e, le, h) some_call = (
    frames rest gs,
    ap (λ l. frames l gs) e ∙ frames-append (map (λ c. c.1) calls) rest gs,
    subst (λ s. Holds (record p { sender_position = s }) (frames rest gs)) (sym place)
        (advanced p t off (off + total) fs rest gs a (rw sub-zero at h)),
    place ∙ omega (arith, a.sender),
    some_call,
  )
    where
      place : add64 p.sender_position total ≡ t * p.term_length + (off + total)
      place = omega (
        arith,
        a.sender,
        Laid-le p.raw_log.buffer _ _ rest _ h,
        head_end_le gs p.term_length p.term_offset a.offset,
        product_lt t p.term_length (omega (arith, a.terms)) a.large,
        a.large,
      )

  scanned_lem : (limit : ℕ) → 0 < limit → Scanned p (frames fs gs) (sender_scan p limit)
  unfolding sender_scan
  scanned_lem limit h = rw (scan_lem _) (
      finish _
        (taken-Took p.raw_log.buffer (t % 4 * p.term_length) p.term_length _ off 0 fs _
          (head-Laid p.raw_log.buffer p.term_length t off fs gs p.term_offset a.span))
        (progress _ (ground (arith, (sender_term_lem p t off fs gs a inside).1))))

-- From a publication that holds the frames `q`, with the sender behind the publication position
-- and a limit above 0, `sender_scan` hands on at least one frame: the front of `q`, in order. The
-- publication then holds the rest, and the sender's position grew by the bytes that it returns.
pub sender_scan_lem :
    (p : NetworkPublication) (limit : ℕ) (q : List (List ℕ))
    → Holds p q
    → p.sender_position < p.pub_position
    → 0 < limit
    → Scanned p q (sender_scan p limit)
sender_scan_lem p limit q (t, off, fs, gs, a, e) behind h =
    subst (λ q. Scanned p q (sender_scan p limit)) e (scanned_lem p t off fs gs a behind limit h)
