-- ===== src/Log/Scan.antt =====
-- A scan of a partition returns the frames that lie in it, in order.
use aeron_rs.Prelude.{
  ℕ, zero, suc, ◌+◌, ◌-◌, ◌*◌, ◌≤◌, ◌<◌, ◌≡◌, refl, inl, inr, ◌&&◌, Option, none, some, List, [],
  ◌∷◌, ◌++◌, arith, Option-cases, ltb, if◌then◌else◌, length,
}
use native.Mathlib.Nat.{zero-add, sub_self, add-zero}
use mathlib.Core.Path.{subst}
use aeron_rs.Prelude.{Bool-cases, ap, map}
use aeron_rs.Prelude.Memory.{Memory, read_i32, read_bytes, length-read_bytes}
use aeron_rs.Log.{
  RawLog, data_header_length, align_frame_length, frame_length_at, scan_loop, scan_frames,
}
use aeron_rs.Log.Layout.{IsFrame, Laid, Stops, Laid-le}

-- The frames from `pos` on that a scan with this limit takes: it goes on while the partition and
-- the limit last.
unfoldable pub taken : ℕ → ℕ → ℕ → ℕ → List (List ℕ) → List (ℕ × List ℕ) × ℕ
taken term_length limit pos scanned [] = ([], scanned)
taken term_length limit pos scanned (f ∷ fs) =
    let (calls, total) =
      taken term_length limit (pos + align_frame_length (length f))
        (scanned + align_frame_length (length f)) fs in
    if ltb pos term_length && ltb scanned limit then ((pos, f) ∷ calls, total) else ([], scanned)

frame_length_at_frame :
    (m : Memory) (base term_length pos : ℕ) (f : List ℕ)
    → IsFrame m (base + pos) f
    → pos + align_frame_length (length f) ≤ term_length
    → frame_length_at m base term_length pos ≡ some (length f)
unfolding frame_length_at
frame_length_at_frame m base term_length pos f h e = ground arith

frame_length_at_end :
    (m : Memory) (base term_length pos : ℕ)
    → read_i32 m (base + pos) ≡ 0
    → frame_length_at m base term_length pos ≡ none
unfolding frame_length_at
frame_length_at_end m base term_length pos h = ground arith

pub scan_loop_lem :
    (fuel : ℕ) (m : Memory) (base term_length limit pos scanned : ℕ) (fs : List (List ℕ)) (end : ℕ)
    → Laid m base pos fs end
    → end ≤ term_length
    → Stops m base term_length end
    → term_length ≤ pos + fuel
    → scan_loop fuel m base term_length limit pos scanned ≡ taken term_length limit pos scanned fs
unfolding scan_loop taken
scan_loop_lem zero m base term_length limit pos scanned [] end h e s fuel = refl
scan_loop_lem zero m base term_length limit pos scanned (f ∷ fs) end h e s fuel = ground arith
scan_loop_lem (suc n) m base term_length limit pos scanned [] end h e s fuel =
    ground (arith, frame_length_at_end m base term_length pos)
scan_loop_lem (suc n) m base term_length limit pos scanned (f ∷ fs) end h e s fuel = ground (
  arith,
  frame_length_at_frame m base term_length pos f,
  Laid-le m base (pos + align_frame_length (length f)) fs end,
  scan_loop_lem n m base term_length limit (pos + align_frame_length (length f))
      (scanned + align_frame_length (length f)) fs end h.1 e s,
)

frame_length_at_bounds :
    (m : Memory) (base term_length pos len : ℕ)
    → frame_length_at m base term_length pos ≡ some len
    → (data_header_length ≤ len) × (pos + align_frame_length len ≤ term_length)
unfolding frame_length_at
frame_length_at_bounds m base term_length pos len h = ground arith

scan_round :
    (n more : ℕ) (m : Memory) (base term_length limit pos scanned : ℕ) (o : Option ℕ)
    → frame_length_at m base term_length pos ≡ o
    → term_length ≤ pos + suc n
    → ((len : ℕ)
        → term_length ≤ pos + align_frame_length len + n
        → scan_loop
            (n + more)
            m
            base
            term_length
            limit
            (pos + align_frame_length len)
            (scanned + align_frame_length len)
          ≡ scan_loop n m base term_length limit
              (pos + align_frame_length len)
              (scanned + align_frame_length len))
    → scan_loop (suc (n + more)) m base term_length limit pos scanned
      ≡ scan_loop (suc n) m base term_length limit pos scanned
unfolding scan_loop
scan_round n more m base term_length limit pos scanned none o h ih = rw o
scan_round n more m base term_length limit pos scanned (some len) o h ih =
    rw (o, ih len (omega (arith, frame_length_at_bounds m base term_length pos len o)))

-- Whatever the memory holds, with fuel that reaches from the position to the end of the term the
-- loop has ended when the fuel is used up: more fuel changes nothing.
pub scan_loop_enough :
    (fuel more : ℕ) (m : Memory) (base term_length limit pos scanned : ℕ)
    → term_length ≤ pos + fuel
    → scan_loop (fuel + more) m base term_length limit pos scanned
      ≡ scan_loop fuel m base term_length limit pos scanned
unfolding scan_loop
scan_loop_enough zero zero m base term_length limit pos scanned h = refl
scan_loop_enough zero (suc more) m base term_length limit pos scanned h = rw zero-add (ground arith)
scan_loop_enough (suc n) more m base term_length limit pos scanned h =
    let e : suc n + more ≡ suc (n + more) = omega arith in
    rw e (
      scan_round n more m base term_length limit pos scanned
        (frame_length_at m base term_length pos) refl h
        (λ len b.
          scan_loop_enough n more m base term_length limit (pos + align_frame_length len)
            (scanned + align_frame_length len) b))

-- Every slice handed to `emit` lies in the partition that begins at `base`, has room for a header,
-- and is what the memory holds there.
abbrev pub InPartition : Memory → ℕ → ℕ → List (ℕ × List ℕ) → Type 0
InPartition m base term_length [] = Unit
InPartition m base term_length ((pos, f) ∷ calls) =
    (pos + length f ≤ term_length)
    × (data_header_length ≤ length f)
    × (f ≡ read_bytes m (base + pos) (length f))
    × InPartition m base term_length calls

scan_loop_safe :
    (fuel : ℕ) (m : Memory) (base term_length limit pos scanned : ℕ)
    → pos ≤ term_length
    → let (calls, total) = scan_loop fuel m base term_length limit pos scanned in
      InPartition m base term_length calls
      × (scanned ≤ total)
      × (pos + total ≤ term_length + scanned)
unfolding scan_loop
scan_loop_safe zero m base term_length limit pos scanned h = (tt, omega arith, omega arith)
scan_loop_safe (suc n) m base term_length limit pos scanned h =
    elim (Option-cases (frame_length_at m base term_length pos)) [
      | inl e ↦ ground (arith, e)
      | inr (len, e) ↦ ground (
        arith,
        e,
        frame_length_at_bounds m base term_length pos len e,
        length-read_bytes m (base + pos) len,
        scan_loop_safe n m base term_length limit (pos + align_frame_length len)
            (scanned + align_frame_length len),
      )
    ]

-- Whatever the buffer holds, a scan from inside a partition hands on slices of this partition only,
-- each with the bytes that lie at its offset and room for a header, and does not pass its end.
pub scan_frames_safe :
    (log : RawLog) (partition_idx offset limit : ℕ)
    → offset ≤ log.term_length
    → let (calls, scanned) = scan_frames log partition_idx offset limit in
      InPartition log.buffer (partition_idx * log.term_length) log.term_length calls
      × (offset + scanned ≤ log.term_length)
unfolding scan_frames
scan_frames_safe log partition_idx offset limit h = ground (
  arith,
  scan_loop_safe log.term_length log.buffer (partition_idx * log.term_length) log.term_length limit
      offset 0,
)

-- A scan of a partition from where the frames `fs` lie up to an end within it, at which the
-- partition ends or the length word is zero, hands on these frames, in order, as long as the
-- limit lasts.
pub scan_frames_lem :
    (log : RawLog) (partition_idx pos limit : ℕ) (fs : List (List ℕ)) (end : ℕ)
    → partition_idx < 4
    → Laid log.buffer (partition_idx * log.term_length) pos fs end
    → end ≤ log.term_length
    → Stops log.buffer (partition_idx * log.term_length) log.term_length end
    → scan_frames log partition_idx pos limit ≡ taken log.term_length limit pos 0 fs
unfolding scan_frames
scan_frames_lem log partition_idx pos limit fs end p h e s = ground (
  arith,
  scan_loop_lem log.term_length log.buffer (partition_idx * log.term_length) log.term_length limit
      pos 0 fs end h e s (omega arith),
)

-- A scan from `pos` took the front of `fs`, and the others lie behind it, up to `end`.
abbrev pub Took : Memory → ℕ → ℕ → ℕ → List (List ℕ) → ℕ → List (ℕ × List ℕ) × ℕ → Type 0
Took m base pos scanned fs end (calls, total) =
    (rest : List (List ℕ)) × (fs ≡ map (λ c. c.1) calls ++ rest)
    × (scanned ≤ total)
    × Laid m base (pos + (total - scanned)) rest end

Took-more :
    (m : Memory) (base pos scanned : ℕ) (f : List ℕ) (fs : List (List ℕ)) (end : ℕ)
    (calls : List (ℕ × List ℕ)) (total : ℕ)
    → Took m base
        (pos + align_frame_length (length f))
        (scanned + align_frame_length (length f))
        fs
        end
        (calls, total)
    → Took m base pos scanned (f ∷ fs) end ((pos, f) ∷ calls, total)
Took-more m base pos scanned f fs end calls total (rest, e, le, h) =
    (rest, ap (◌∷◌ f) e, omega arith, subst (λ x. Laid m base x rest end) (omega arith) h)

pub taken-Took :
    (m : Memory) (base term_length limit pos scanned : ℕ) (fs : List (List ℕ)) (end : ℕ)
    → Laid m base pos fs end
    → Took m base pos scanned fs end (taken term_length limit pos scanned fs)
unfolding taken
taken-Took m base term_length limit pos scanned [] end h =
    ([], refl, omega arith, rw (sub_self, add-zero) h)
taken-Took m base term_length limit pos scanned (f ∷ fs) end h =
    let ih =
      taken-Took m base term_length limit (pos + align_frame_length (length f))
        (scanned + align_frame_length (length f)) fs end h.1 in
    elim (Bool-cases (ltb pos term_length && ltb scanned limit)) [
      | inl go ↦ rw go (Took-more m base pos scanned f fs end _ _ ih)
      | inr stop ↦ rw stop (f ∷ fs, refl, omega arith, rw (sub_self, add-zero) h)
    ]

-- With room and a limit a scan takes at least the first frame.
pub taken_progress :
    (term_length limit pos : ℕ) (f : List ℕ) (fs : List (List ℕ))
    → pos < term_length
    → 0 < limit
    → 0 < length (taken term_length limit pos 0 (f ∷ fs)).0
unfolding taken
taken_progress term_length limit pos f fs h k = ground arith

scan_loop-nil :
    (fuel : ℕ) (m : Memory) (base term_length limit pos : ℕ)
    → read_i32 m (base + pos) ≡ 0
    → scan_loop fuel m base term_length limit pos 0 ≡ ([], 0)
unfolding scan_loop
scan_loop-nil zero m base term_length limit pos h = refl
scan_loop-nil (suc n) m base term_length limit pos h =
    ground (arith, frame_length_at_end m base term_length pos h)

-- At an uncommitted word a scan ends at once.
pub scan_frames-nil :
    (log : RawLog) (partition_idx offset limit : ℕ)
    → read_i32 log.buffer (partition_idx * log.term_length + offset) ≡ 0
    → scan_frames log partition_idx offset limit ≡ ([], 0)
unfolding scan_frames
scan_frames-nil log partition_idx offset limit h = ground (
  arith,
  scan_loop-nil log.term_length log.buffer (partition_idx * log.term_length) log.term_length limit
      offset,
)
