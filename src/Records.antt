-- ===== src/Records.antt =====
-- What the two command buffers, src/cnc/ring_buffer.rs and src/cnc/broadcast.rs, share: records one
-- behind another in a ring, none across its end.
use native.Mathlib.Nat.{mul-suc, mul_assoc, mul_comm, suc-mul, div-add-mod}
use native.Mathlib.Decide.{dec_lt, ℕ_discrete}
use aeron_rs.Prelude.{
  ℕ, suc, ◌+◌, ◌-◌, ◌*◌, ◌/◌, ◌%◌, ◌≤◌, ◌<◌, ◌≡◌, refl, ap, ◌∙◌, ◌⊎◌, inl, inr, List, [], ◌∷◌, ◌++◌,
  arith, length,
}
use aeron_rs.Prelude.Memory.{Memory}
use aeron_rs.Publication.State.{mod_of_term}

abbrev pub align_record : ℕ → ℕ
align_record len = (len + 32 - 1) / 32 * 32

-- A committed record: a message with its type, or padding.
pub data Entry : Type 0 where
  message : ℕ → List ℕ → Entry
  padding : ℕ → Entry

abbrev pub size_of : Entry → ℕ
size_of (message msg_type payload) = align_record (length payload + 8)
size_of (padding n) = n

module _ (At : Memory → ℕ → Entry → Type 0) where
  -- The records lie from position `pos` to `end` of a ring of `cap` bytes, none across its end.
  abbrev pub Lay : Memory → ℕ → ℕ → List Entry → ℕ → Type 0
  Lay m cap pos [] end = pos ≡ end
  Lay m cap pos (e ∷ es) end =
      At m (pos % cap) e × (pos % cap + size_of e ≤ cap) × Lay m cap (pos + size_of e) es end

  pub Lay-le :
      (m : Memory) (cap pos : ℕ) (es : List Entry) (end : ℕ) → Lay m cap pos es end → pos ≤ end
  Lay-le m cap pos [] end h = omega arith
  Lay-le m cap pos (e ∷ es) end h = omega (arith, Lay-le m cap (pos + size_of e) es end h.2)

  pub Lay-append :
      (m : Memory) (cap pos : ℕ) (es : List Entry) (mid : ℕ) (fs : List Entry) (end : ℕ)
      → Lay m cap pos es mid
      → Lay m cap mid fs end
      → Lay m cap pos (es ++ fs) end
  Lay-append m cap pos [] mid fs end h k = rw h k
  Lay-append m cap pos (e ∷ es) mid fs end h k =
      (h.0, h.1, Lay-append m cap (pos + size_of e) es mid fs end h.2 k)

turns_below : (cap a b : ℕ) → a < b → cap * a + cap ≤ cap * b
turns_below cap a b h = grind arith

turns_apart :
    (cap a i b j s n : ℕ)
    → cap * a + i + s ≤ cap * b + j
    → cap * b + j + n ≤ cap * a + i + cap
    → i + s ≤ cap
    → j + n ≤ cap
    → 0 < n
    → (i + s ≤ j) ⊎ (j + n ≤ i)
turns_apart cap a i b j s n h k le le' some_bytes = elim (dec_lt b a) [
  | yes before ↦ absurd (omega (arith, turns_below cap b a before))
  | no ahead ↦ elim (ℕ_discrete a b) [
    | yes e ↦ inl (omega (arith, ap (λ x. cap * x) e))
    | no ne ↦ elim (ℕ_discrete (suc a) b) [
      | yes e ↦ inr (omega (arith, mul-suc cap a, ap (λ x. cap * x) e))
      | no ne' ↦
          absurd (
            omega (arith, mul-suc cap a, turns_below cap (suc a) b (omega (arith, ahead, ne, ne'))))
    ]
  ]
]

-- Two stretches of positions less than a turn apart do not share an index.
pub indices_apart :
    (cap p s t n : ℕ)
    → p + s ≤ t
    → t + n ≤ p + cap
    → p % cap + s ≤ cap
    → t % cap + n ≤ cap
    → 0 < n
    → (p % cap + s ≤ t % cap) ⊎ (t % cap + n ≤ p % cap)
indices_apart cap p s t n h k a b some_bytes =
    turns_apart cap (p / cap) (p % cap) (t / cap) (t % cap) s n
      (omega (arith, div-add-mod p cap, div-add-mod t cap))
      (omega (arith, div-add-mod p cap, div-add-mod t cap)) a b some_bytes

module _ (At : Memory → ℕ → Entry → Type 0)
    (at_ext : (m m' : Memory) (a : ℕ) (e : Entry)
      → At m a e
      → ((x : ℕ) → a ≤ x → x < a + size_of e → m x ≡ m' x)
      → At m' a e) where
  -- Records stay where the memory changes only in a stretch behind them and less than a turn away.
  pub Lay-ext :
      (m m' : Memory) (cap pos : ℕ) (es : List Entry) (end t n : ℕ)
      → Lay At m cap pos es end
      → end ≤ t
      → t + n ≤ pos + cap
      → t % cap + n ≤ cap
      → 0 < n
      → ((x : ℕ) → (x < t % cap) ⊎ (t % cap + n ≤ x) → m x ≡ m' x)
      → Lay At m' cap pos es end
  Lay-ext m m' cap pos [] end t n h le room fits some_bytes same = h
  Lay-ext m m' cap pos (e ∷ es) end t n h le room fits some_bytes same = (
    at_ext m m' (pos % cap) e h.0 (λ x lo hi. same x (
        omega (
          arith,
          lo,
          hi,
          indices_apart cap pos (size_of e) t n
              (omega (arith, Lay-le At m cap (pos + size_of e) es end h.2, le)) room h.1 fits
              some_bytes,
        ))),
    h.1,
    Lay-ext m m' cap (pos + size_of e) es end t n h.2 le (omega (arith, room)) fits some_bytes same,
  )

  -- A record written at the tail, where there is room, joins those before it.
  pub Lay-push :
      (m m' : Memory) (cap pos : ℕ) (es : List Entry) (tail : ℕ) (e : Entry)
      → Lay At m cap pos es tail
      → At m' (tail % cap) e
      → tail % cap + size_of e ≤ cap
      → tail + size_of e ≤ pos + cap
      → 0 < size_of e
      → ((x : ℕ) → (x < tail % cap) ⊎ (tail % cap + size_of e ≤ x) → m x ≡ m' x)
      → Lay At m' cap pos (es ++ e ∷ []) (tail + size_of e)
  Lay-push m m' cap pos es tail e h at fits room some_bytes same =
      Lay-append At m' cap pos es tail (e ∷ []) (tail + size_of e)
        (Lay-ext m m' cap pos es tail tail (size_of e) h (omega arith) room fits some_bytes same)
        (at, fits, refl)

  -- Records stay where the memory changes only in a stretch in front of them.
  pub Lay-behind :
      (m m' : Memory) (cap pos : ℕ) (es : List Entry) (end p s : ℕ)
      → Lay At m cap pos es end
      → p + s ≤ pos
      → end ≤ p + cap
      → p % cap + s ≤ cap
      → ((x : ℕ) → (x < p % cap) ⊎ (p % cap + s ≤ x) → m x ≡ m' x)
      → Lay At m' cap pos es end
  Lay-behind m m' cap pos [] end p s h le room fits same = h
  Lay-behind m m' cap pos (e ∷ es) end p s h le room fits same = (
    at_ext m m' (pos % cap) e h.0 (λ x lo hi. same x (
        omega (
          arith,
          lo,
          hi,
          indices_apart cap p s pos (size_of e) le
              (omega (arith, Lay-le At m cap (pos + size_of e) es end h.2, room)) fits h.1
              (omega (arith, lo, hi)),
        ))),
    h.1,
    Lay-behind m m' cap (pos + size_of e) es end p s h.2 (omega (arith, le)) room fits same,
  )

-- The messages among the records.
unfoldable pub messages_of : List Entry → List (ℕ × List ℕ)
messages_of [] = []
messages_of (message msg_type payload ∷ es) = (msg_type, payload) ∷ messages_of es
messages_of (padding n ∷ es) = messages_of es

pub messages_of-append :
    (es fs : List Entry) → messages_of (es ++ fs) ≡ messages_of es ++ messages_of fs
unfolding messages_of
messages_of-append [] fs = refl
messages_of-append (message msg_type payload ∷ es) fs =
    ap (◌∷◌ (msg_type, payload)) (messages_of-append es fs)
messages_of-append (padding n ∷ es) fs = messages_of-append es fs

pub mod_aligned : (x cap : ℕ) → x % 32 ≡ 0 → cap % 32 ≡ 0 → x % cap % 32 ≡ 0
mod_aligned x cap h k =
    let product : cap * (x / cap) ≡ 32 * (cap / 32 * (x / cap)) =
      ap (λ c. c * (x / cap)) (omega (arith, k)) ∙ mul_assoc 32 (cap / 32) (x / cap) in
    omega (arith, h, product, div-add-mod x cap)

-- The next turn begins at index 0.
pub mod_turn : (x cap : ℕ) → 0 < cap → (x + (cap - x % cap)) % cap ≡ 0
mod_turn x cap pos =
    let e : x + (cap - x % cap) ≡ suc (x / cap) * cap + 0 =
      omega (arith, div-add-mod x cap, mul_comm cap (x / cap), suc-mul (x / cap) cap, mod_le) in
    ap (λ y. y % cap) e ∙ mod_of_term (suc (x / cap)) cap 0 pos
  where
    mod_le : x % cap ≤ cap
    mod_le = ground (arith, pos)
