-- ===== src/Image/Polled.antt =====
-- A poll delivers the payloads of the frames that lie at the subscriber, in order.
use aeron_rs.Prelude.{
  ℕ, zero, suc, ◌+◌, ◌-◌, ◌*◌, ◌^◌, ◌≤◌, ◌<◌, ◌≡◌, refl, sym, ap, ap₂, ◌∙◌, ◌⊎◌, inl, inr, ◌&&◌,
  ◌==◌, Bool, List, [], ◌∷◌, ◌++◌, arith, ltb, if◌then◌else◌, length, drop, get_or, Bool-cases,
  true, false,
}
use mathlib.Core.Path.{subst}
use aeron_rs.Prelude.Word.{add64, lt_i64}
use aeron_rs.Prelude.Memory.{Memory, read_i32, read_bytes, read_bytes-append}
use aeron_rs.Frame.{frame_type_pad}
use aeron_rs.Log.{align_frame_length}
use aeron_rs.Log.Layout.{IsFrame, Laid, Laid-le}
use aeron_rs.Image.{poll_round, poll_loop, Round, stop, skipped, delivered, frame_type_at}

abbrev pub type_of : List ℕ → ℕ
type_of f = get_or f 6 0 + 256 * get_or f 7 0

abbrev pub is_pad : List ℕ → Bool
is_pad f = type_of f == frame_type_pad

-- The frames from `pos` on that a poll takes: their payloads but for the pads, how many, and the
-- bytes.
unfoldable pub polled : ℕ → ℕ → ℕ → ℕ → ℕ → List (List ℕ) → List (List ℕ) × ℕ × ℕ
polled term_length limit pos n scanned [] = ([], n, scanned)
polled term_length limit pos n scanned (f ∷ fs) =
    let a = align_frame_length (length f) in
    let over = polled term_length limit (pos + a) n (scanned + a) fs in
    let (payloads, m, total) = polled term_length limit (pos + a) (n + 1) (scanned + a) fs in
    if ltb pos term_length && ltb n limit
    then (if is_pad f then over else (drop 32 f ∷ payloads, m, total))
    else ([], n, scanned)

get_or-read_bytes : (m : Memory) (a n i : ℕ) → i < n → get_or (read_bytes m a n) i 0 ≡ m (a + i)
unfolding read_bytes
get_or-read_bytes m a zero i h = absurd (omega arith)
get_or-read_bytes m a (suc n) zero h = ap m (omega arith)
get_or-read_bytes m a (suc n) (suc i) h =
    get_or-read_bytes m (a + 1) n i (omega arith) ∙ ap m (omega arith)

drop-read_bytes :
    (m : Memory) (a n : ℕ) → drop 32 (read_bytes m a (32 + n)) ≡ read_bytes m (a + 32) n
drop-read_bytes m a n = ap (drop 32) (read_bytes-append m a 32 n) ∙ unfold read_bytes in refl

module _ (m : Memory) (a : ℕ) (f : List ℕ) (h : IsFrame m a f) where
  byte_lem : (i : ℕ) → i < length f → m (a + i) ≡ get_or f i 0
  byte_lem i l = sym (get_or-read_bytes m a (length f) i l) ∙ ap (λ l. get_or l i 0) h.0

  frame_type_lem : frame_type_at m a ≡ type_of f
  frame_type_lem =
      ap₂ (λ x y. x + 256 * y) (byte_lem 6 (omega (arith, h.2))) (byte_lem 7 (omega (arith, h.2)))

  payload_lem : read_bytes m (a + 32) (length f - 32) ≡ drop 32 f
  payload_lem =
      sym (drop-read_bytes m a (length f - 32))
      ∙ ap (λ n. drop 32 (read_bytes m a n)) (omega (arith, h.2))
      ∙ ap (drop 32) h.0

abbrev round_of : List ℕ → Round
round_of f =
    if is_pad f
    then skipped (align_frame_length (length f))
    else delivered (align_frame_length (length f)) (drop 32 f)

pub round_frame :
    (m : Memory) (r base term_length pos cur : ℕ) (f : List ℕ)
    → IsFrame m (base + pos) f
    → pos + align_frame_length (length f) ≤ term_length
    → poll_round m r m base term_length pos cur ≡ round_of f
unfolding poll_round
round_frame m r base term_length pos cur f h fits =
    rw (h.1, frame_type_lem m (base + pos) f h, payload_lem m (base + pos) f h)
      (ground (arith, h.2, h.3))

round_end :
    (m : Memory) (r base term_length pos cur : ℕ)
    → read_i32 m (base + pos) ≡ 0
    → lt_i64 cur r ≡ false
    → poll_round m r m base term_length pos cur ≡ stop
unfolding poll_round
round_end m r base term_length pos cur h e = ground arith

pub poll_loop_lem :
    (fuel : ℕ) (m : Memory) (r base term_length position limit pos n scanned origin : ℕ)
    (fs : List (List ℕ)) (end : ℕ)
    → Laid m base pos fs end
    → end ≤ term_length
    → (end ≡ term_length) ⊎ (read_i32 m (base + end) ≡ 0)
    → position + scanned ≡ origin + pos
    → r ≡ origin + end
    → origin + term_length < 2 ^ 63
    → term_length ≤ pos + fuel
    → poll_loop fuel m r base term_length position limit pos n scanned
      ≡ polled term_length limit pos n scanned fs
unfolding poll_loop polled
poll_loop_lem zero m r base term_length position limit pos n scanned origin [] end h le s at here
      big fuel =
    refl
poll_loop_lem zero m r base term_length position limit pos n scanned origin (f ∷ fs) end h le s at
      here big fuel =
    ground arith
poll_loop_lem (suc k) m r base term_length position limit pos n scanned origin [] end h le s at here
      big fuel =
    ground (arith, round_end m r base term_length pos (add64 position scanned))
poll_loop_lem (suc k) m r base term_length position limit pos n scanned origin (f ∷ fs) end h le s
      at here big fuel =
    let fits : pos + align_frame_length (length f) ≤ term_length =
      omega (arith, Laid-le m base (pos + align_frame_length (length f)) fs end h.1, le) in
    let next : (n' : ℕ)
        → poll_loop k m r base term_length position limit (pos + align_frame_length (length f)) n'
            (scanned + align_frame_length (length f))
          ≡ polled term_length limit (pos + align_frame_length (length f)) n'
              (scanned + align_frame_length (length f)) fs =
      λ n'.
        poll_loop_lem k m r base term_length position limit (pos + align_frame_length (length f)) n'
          (scanned + align_frame_length (length f)) origin fs end h.1 le s (omega (arith, at)) here
          big (omega (arith, fuel, h.0.2)) in
    elim (Bool-cases (is_pad f)) [
      | inl pad ↦
          rw (round_frame m r base term_length pos (add64 position scanned) f h.0 fits, pad, next n)
            refl
      | inr message ↦
          rw
            (
              round_frame m r base term_length pos (add64 position scanned) f h.0 fits,
              message,
              next (n + 1),
            )
            refl
    ]

-- The payloads of the frames that are no pads.
unfoldable pub messages : List (List ℕ) → List (List ℕ)
messages [] = []
messages (f ∷ fs) = if is_pad f then messages fs else drop 32 f ∷ messages fs

-- A poll from `pos` took the front of `fs`; the others lie behind it, and there are none if the
-- limit is not reached.
abbrev pub Took : Memory → ℕ → ℕ → ℕ → ℕ → ℕ → List (List ℕ) → ℕ → List (List ℕ) × ℕ × ℕ → Type 0
Took m base limit pos n scanned fs end (payloads, count, total) =
    (took : List (List ℕ)) × (rest : List (List ℕ)) × (fs ≡ took ++ rest)
    × (payloads ≡ messages took)
    × (count ≡ n + length payloads)
    × (scanned ≤ total)
    × Laid m base (pos + (total - scanned)) rest end
    × ((rest ≡ []) ⊎ (limit ≤ count))

Took-none :
    (m : Memory) (base limit pos n scanned : ℕ) (fs : List (List ℕ)) (end : ℕ)
    → Laid m base pos fs end
    → (fs ≡ []) ⊎ (limit ≤ n)
    → Took m base limit pos n scanned fs end ([], n, scanned)
unfolding messages
Took-none m base limit pos n scanned fs end h why = (
  [],
  fs,
  refl,
  refl,
  omega arith,
  omega arith,
  subst (λ x. Laid m base x fs end) (omega arith) h,
  why,
)

Took-pad :
    (m : Memory) (base limit pos n scanned : ℕ) (f : List ℕ) (fs : List (List ℕ)) (end : ℕ)
    (r : List (List ℕ) × ℕ × ℕ)
    → is_pad f ≡ true
    → Took m base limit
        (pos + align_frame_length (length f))
        n
        (scanned + align_frame_length (length f))
        fs
        end
        r
    → Took m base limit pos n scanned (f ∷ fs) end r
unfolding messages
Took-pad m base limit pos n scanned f fs end r pad (took, rest, e, p, c, le, h, why) = (
  f ∷ took,
  rest,
  ap (◌∷◌ f) e,
  rw pad p,
  c,
  omega arith,
  subst (λ x. Laid m base x rest end) (omega arith) h,
  why,
)

Took-message :
    (m : Memory) (base limit pos n scanned : ℕ) (f : List ℕ) (fs : List (List ℕ)) (end : ℕ)
    (payloads : List (List ℕ)) (count total : ℕ)
    → is_pad f ≡ false
    → Took m base limit
        (pos + align_frame_length (length f))
        (n + 1)
        (scanned + align_frame_length (length f))
        fs
        end
        (payloads, count, total)
    → Took m base limit pos n scanned (f ∷ fs) end (drop 32 f ∷ payloads, count, total)
unfolding messages
Took-message m base limit pos n scanned f fs end payloads count total kept
      (took, rest, e, p, c, le, h, why) =
    (
      f ∷ took,
      rest,
      ap (◌∷◌ f) e,
      rw kept (ap (◌∷◌ (drop 32 f)) p),
      omega arith,
      omega arith,
      subst (λ x. Laid m base x rest end) (omega arith) h,
      why,
    )

pub polled-Took :
    (m : Memory) (base term_length limit pos n scanned : ℕ) (fs : List (List ℕ)) (end : ℕ)
    → Laid m base pos fs end
    → end ≤ term_length
    → Took m base limit pos n scanned fs end (polled term_length limit pos n scanned fs)
unfolding polled
polled-Took m base term_length limit pos n scanned [] end h le =
    Took-none m base limit pos n scanned [] end h (inl refl)
polled-Took m base term_length limit pos n scanned (f ∷ fs) end h le =
    let over =
      polled-Took m base term_length limit (pos + align_frame_length (length f)) n
        (scanned + align_frame_length (length f)) fs end h.1 le in
    let next =
      polled-Took m base term_length limit (pos + align_frame_length (length f)) (n + 1)
        (scanned + align_frame_length (length f)) fs end h.1 le in
    elim (Bool-cases (ltb pos term_length && ltb n limit)) [
      | inl go ↦ elim (Bool-cases (is_pad f)) [
        | inl pad ↦ rw (go, pad) (Took-pad m base limit pos n scanned f fs end _ pad over)
        | inr kept ↦
            rw (go, kept) (Took-message m base limit pos n scanned f fs end _ _ _ kept next)
      ]
      | inr halt ↦ rw halt (
          Took-none m base limit pos n scanned (f ∷ fs) end h
            (inr (ground (arith, halt, h.0.2, Laid-le m base _ fs end h.1))))
    ]
