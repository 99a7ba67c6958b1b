-- ===== src/Log/Layout.antt =====
-- How frames lie in a partition: one behind another, each padded to the alignment.
use aeron_rs.Prelude.{ℕ, ◌+◌, ◌^◌, ◌≤◌, ◌<◌, ◌≡◌, sym, ◌∙◌, ◌⊎◌, List, [], ◌∷◌, ◌++◌, arith, length}
use aeron_rs.Prelude.Memory.{Memory, read_bytes, read_i32, read_bytes_ext}
use aeron_rs.Log.{data_header_length, align_frame_length}

-- The bytes of `f` stand at `a`, committed by its length word.
abbrev pub IsFrame : Memory → ℕ → List ℕ → Type 0
IsFrame m a f =
    (read_bytes m a (length f) ≡ f)
    × (read_i32 m a ≡ length f)
    × (data_header_length ≤ length f)
    × (length f < 2 ^ 31)

-- The frames lie from `pos` to `end` of the partition that begins at `base`.
abbrev pub Laid : Memory → ℕ → ℕ → List (List ℕ) → ℕ → Type 0
Laid m base pos [] end = pos ≡ end
Laid m base pos (f ∷ fs) end =
    IsFrame m (base + pos) f × Laid m base (pos + align_frame_length (length f)) fs end

-- A scan ends there: at the end of the partition, or at a word that no one has committed.
abbrev pub Stops : Memory → ℕ → ℕ → ℕ → Type 0
Stops m base term_length end = (end ≡ term_length) ⊎ (read_i32 m (base + end) ≡ 0)

pub Laid-le :
    (m : Memory) (base pos : ℕ) (fs : List (List ℕ)) (end : ℕ) → Laid m base pos fs end → pos ≤ end
Laid-le m base pos [] end h = omega arith
Laid-le m base pos (f ∷ fs) end h =
    omega (arith, Laid-le m base (pos + align_frame_length (length f)) fs end h.1)

pub Laid-append :
    (m : Memory) (base pos : ℕ) (fs : List (List ℕ)) (mid : ℕ) (gs : List (List ℕ)) (end : ℕ)
    → Laid m base pos fs mid
    → Laid m base mid gs end
    → Laid m base pos (fs ++ gs) end
Laid-append m base pos [] mid gs end h k = rw h k
Laid-append m base pos (f ∷ fs) mid gs end h k =
    (h.0, Laid-append m base (pos + align_frame_length (length f)) fs mid gs end h.1 k)

pub read_i32_ext :
    (m m' : Memory) (a : ℕ)
    → ((x : ℕ) → a ≤ x → x < a + 4 → m x ≡ m' x)
    → read_i32 m a ≡ read_i32 m' a
unfolding read_i32
read_i32_ext m m' a h = rw (
  h a (omega arith) (omega arith),
  h (a + 1) (omega arith) (omega arith),
  h (a + 2) (omega arith) (omega arith),
  h (a + 3) (omega arith) (omega arith),
)

pub IsFrame-ext :
    (m m' : Memory) (a : ℕ) (f : List ℕ)
    → IsFrame m a f
    → ((x : ℕ) → a ≤ x → x < a + length f → m x ≡ m' x)
    → IsFrame m' a f
IsFrame-ext m m' a f h e = (
  sym (read_bytes_ext m m' a (length f) e) ∙ h.0,
  sym (read_i32_ext m m' a (λ x lo hi. e x lo (omega arith))) ∙ h.1,
  h.2,
  h.3,
)

-- Frames stay where the memory that they lie in does not change.
pub Laid-ext :
    (m m' : Memory) (base pos : ℕ) (fs : List (List ℕ)) (end : ℕ)
    → Laid m base pos fs end
    → ((x : ℕ) → base + pos ≤ x → x < base + end → m x ≡ m' x)
    → Laid m' base pos fs end
Laid-ext m m' base pos [] end h e = h
Laid-ext m m' base pos (f ∷ fs) end h e = (
  IsFrame-ext m m' (base + pos) f h.0 (λ x lo hi.
      e x lo (omega (arith, Laid-le m base (pos + align_frame_length (length f)) fs end h.1))),
  Laid-ext m m' base (pos + align_frame_length (length f)) fs end h.1
      (λ x lo hi. e x (omega arith) hi),
)
