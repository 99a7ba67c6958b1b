-- ===== src/Prelude/Memory.antt =====
-- Byte memory, a function from addresses to bytes, with the block operations that the log buffers
-- use: `copy_nonoverlapping`, `fill(0)`, slices, and little-endian numbers.
use Prim.Native.Nat.{ℕ, zero, suc, ◌+◌, ◌*◌, ◌/◌, ◌%◌, ◌^◌, ◌≤◌, ◌<◌}
use mathlib.Core.Path.{◌≡◌, refl, sym, ap, ap₂, ◌∙◌, fun_ext}
use native.Mathlib.Nat.{zero-add, add-zero}
use native.Mathlib.Decide.{ℕ_discrete, dec_lt}
use mathlib.Core.Logic.{◌⊎◌, inl, inr}
use mathlib.Core.Bool.{◌&&◌}
use mathlib.Core.List.{List, [], ◌∷◌, ◌++◌}
use native.Mathlib.Omega.{arith}
use aeron_rs.Prelude.Word.{sign_extend}
use aeron_rs.Prelude.Tests.{◌==◌, ltb, leb, if◌then◌else◌}
use aeron_rs.Prelude.Lists.{length, get_or, replicate}

abbrev pub Memory : Type 0
Memory = ℕ → ℕ

unfoldable pub write_bytes : Memory → ℕ → List ℕ → Memory
write_bytes m base [] = m
write_bytes m base (b ∷ bs) = λ a. if a == base then b else write_bytes m (base + 1) bs a

unfoldable pub fill_zero : Memory → ℕ → ℕ → Memory
fill_zero m base n = λ a. if leb base a && ltb a (base + n) then 0 else m a

unfoldable pub read_bytes : Memory → ℕ → ℕ → List ℕ
read_bytes m a zero = []
read_bytes m a (suc n) = m a ∷ read_bytes m (a + 1) n

-- The bytes of a number, the lowest first, and the number of such bytes.
abbrev pub le_bytes : ℕ → ℕ → List ℕ
le_bytes zero x = []
le_bytes (suc n) x = x % 256 ∷ le_bytes n (x / 256)

abbrev pub of_le : List ℕ → ℕ
of_le [] = 0
of_le (b ∷ bs) = b + 256 * of_le bs

unfoldable pub read_i32 : Memory → ℕ → ℕ
read_i32 m a = m a + 256 * (m (a + 1) + 256 * (m (a + 2) + 256 * m (a + 3)))

pub write_bytes_apart :
    (m : Memory) (base : ℕ) (bs : List ℕ) (a : ℕ)
    → (a < base) ⊎ (base + length bs ≤ a)
    → write_bytes m base bs a ≡ m a
unfolding write_bytes
write_bytes_apart m base [] a h = refl
write_bytes_apart m base (b ∷ bs) a h = ground (arith, write_bytes_apart m (base + 1) bs a)

pub write_bytes_at :
    (m : Memory) (base : ℕ) (bs : List ℕ) (i : ℕ)
    → i < length bs
    → write_bytes m base bs (base + i) ≡ get_or bs i 0
unfolding write_bytes
write_bytes_at m base [] i h = absurd (omega arith)
write_bytes_at m base (b ∷ bs) zero h = ground arith
write_bytes_at m base (b ∷ bs) (suc i) h =
    let e : base + suc i ≡ base + 1 + i = omega arith in
    rw e (ground (arith, write_bytes_at m (base + 1) bs i))

pub read_bytes_ext :
    (m m' : Memory) (a n : ℕ)
    → ((x : ℕ) → a ≤ x → x < a + n → m x ≡ m' x)
    → read_bytes m a n ≡ read_bytes m' a n
unfolding read_bytes
read_bytes_ext m m' a zero h = refl
read_bytes_ext m m' a (suc n) h =
    ap₂ ◌∷◌ (h a (omega arith) (omega arith))
      (read_bytes_ext m m' (a + 1) n (λ x lo hi. h x (omega arith) (omega arith)))

pub read_bytes-write_bytes :
    (m : Memory) (base : ℕ) (bs : List ℕ) → read_bytes (write_bytes m base bs) base (length bs) ≡ bs
unfolding read_bytes write_bytes
read_bytes-write_bytes m base [] = refl
read_bytes-write_bytes m base (b ∷ bs) = ap₂ ◌∷◌ (ground arith) (
    read_bytes_ext (write_bytes m base (b ∷ bs)) (write_bytes m (base + 1) bs) (base + 1)
      (length bs) (λ x lo hi. ground arith)
    ∙ read_bytes-write_bytes m (base + 1) bs)

pub read_bytes-append :
    (m : Memory) (a n k : ℕ) → read_bytes m a (n + k) ≡ read_bytes m a n ++ read_bytes m (a + n) k
unfolding read_bytes
read_bytes-append m a zero k = rw (zero-add, add-zero)
read_bytes-append m a (suc n) k =
    let e : suc n + k ≡ suc (n + k) = omega arith in
    let f : a + suc n ≡ a + 1 + n = omega arith in
    rw (e, f) (ap (◌∷◌ (m a)) (read_bytes-append m (a + 1) n k))

pub length-read_bytes : (m : Memory) (a n : ℕ) → length (read_bytes m a n) ≡ n
unfolding read_bytes
length-read_bytes m a zero = refl
length-read_bytes m a (suc n) = omega (arith, length-read_bytes m (a + 1) n)

pub fill_zero_at : (m : Memory) (base n a : ℕ) → base ≤ a → a < base + n → fill_zero m base n a ≡ 0
unfolding fill_zero
fill_zero_at m base n a h k = ground arith

pub fill_zero_apart :
    (m : Memory) (base n a : ℕ) → (a < base) ⊎ (base + n ≤ a) → fill_zero m base n a ≡ m a
unfolding fill_zero
fill_zero_apart m base n a h = ground arith

pub of_le-le_bytes_1 : (x : ℕ) → x < 2 ^ 8 → of_le (le_bytes 1 x) ≡ x
of_le-le_bytes_1 x h = omega arith

pub of_le-le_bytes_2 : (x : ℕ) → x < 2 ^ 16 → of_le (le_bytes 2 x) ≡ x
of_le-le_bytes_2 x h = omega arith

pub of_le-le_bytes_4 : (x : ℕ) → x < 2 ^ 32 → of_le (le_bytes 4 x) ≡ x
of_le-le_bytes_4 x h = omega arith

pub sign_extend-of_le : (x : ℕ) → x < 2 ^ 31 → sign_extend (of_le (le_bytes 4 x)) ≡ x
sign_extend-of_le x h = ground arith

pub of_le-le_bytes_8 : (x : ℕ) → x < 2 ^ 64 → of_le (le_bytes 8 x) ≡ x
of_le-le_bytes_8 x h = omega arith

write_bytes_cong :
    (m m' : Memory) (base : ℕ) (bs : List ℕ) (a : ℕ)
    → m a ≡ m' a
    → write_bytes m base bs a ≡ write_bytes m' base bs a
unfolding write_bytes
write_bytes_cong m m' base [] a h = h
write_bytes_cong m m' base (b ∷ bs) a h = ground (arith, write_bytes_cong m m' (base + 1) bs a h)

write_bytes-append_at :
    (m : Memory) (base : ℕ) (bs cs : List ℕ) (a : ℕ)
    → write_bytes (write_bytes m base bs) (base + length bs) cs a ≡ write_bytes m base (bs ++ cs) a
write_bytes-append_at m base [] cs a = unfold write_bytes in rw add-zero
write_bytes-append_at m base (b ∷ bs) cs a =
    let e : base + suc (length bs) ≡ base + 1 + length bs = omega arith in
    rw e (elim (ℕ_discrete a base) [
      | yes same ↦
          write_bytes_apart (write_bytes m base (b ∷ bs)) (base + 1 + length bs) cs a
            (inl (omega arith))
          ∙ (unfold write_bytes in ground arith)
      | no other ↦
          write_bytes_cong (write_bytes m base (b ∷ bs)) (write_bytes m (base + 1) bs)
            (base + 1 + length bs) cs a (unfold write_bytes in ground arith)
          ∙ write_bytes-append_at m (base + 1) bs cs a
          ∙ (unfold write_bytes in ground arith)
    ])

-- Two writes, the second behind the first, are one.
pub write_bytes-append :
    (m : Memory) (base : ℕ) (bs cs : List ℕ)
    → write_bytes (write_bytes m base bs) (base + length bs) cs ≡ write_bytes m base (bs ++ cs)
write_bytes-append m base bs cs = fun_ext (λ a. write_bytes-append_at m base bs cs a)

-- What a write leaves at its start, read as a number.
pub read_i32-write_bytes :
    (m : Memory) (base x : ℕ) (bs : List ℕ)
    → x < 2 ^ 32
    → read_i32 (write_bytes m base (le_bytes 4 x ++ bs)) base ≡ x
unfolding read_i32 write_bytes
read_i32-write_bytes m base x bs h = ground arith

-- To write zeros over zeros changes nothing.
pub write_bytes-replicate :
    (m : Memory) (base k a : ℕ)
    → ((x : ℕ) → base ≤ x → x < base + k → m x ≡ 0)
    → write_bytes m base (replicate k 0) a ≡ m a
unfolding write_bytes
write_bytes-replicate m base zero a h = refl
write_bytes-replicate m base (suc k) a h = ground (
  arith,
  h a,
  write_bytes-replicate m (base + 1) k a (λ x lo hi. h x (omega arith) (omega arith)),
)

pub read_i32-eq-zero :
    (m : Memory) (a : ℕ) → ((x : ℕ) → a ≤ x → x < a + 4 → m x ≡ 0) → read_i32 m a ≡ 0
unfolding read_i32
read_i32-eq-zero m a h = omega (
  arith,
  h a (omega arith) (omega arith),
  h (a + 1) (omega arith) (omega arith),
  h (a + 2) (omega arith) (omega arith),
  h (a + 3) (omega arith) (omega arith),
)

-- What a write leaves inside its range does not depend on the memory.
write_bytes_inside :
    (m m' : Memory) (base : ℕ) (bs : List ℕ) (a : ℕ)
    → base ≤ a
    → a < base + length bs
    → write_bytes m base bs a ≡ write_bytes m' base bs a
unfolding write_bytes
write_bytes_inside m m' base [] a h k = absurd (omega arith)
write_bytes_inside m m' base (b ∷ bs) a h k =
    ground (arith, write_bytes_inside m m' (base + 1) bs a)

-- Two writes side by side may be made in either order.
pub write_bytes_swap :
    (m : Memory) (base : ℕ) (bs cs : List ℕ)
    → write_bytes (write_bytes m (base + length bs) cs) base bs ≡ write_bytes m base (bs ++ cs)
write_bytes_swap m base bs cs = fun_ext (λ a. at a) ∙ write_bytes-append m base bs cs
  where
    at :
        (a : ℕ)
        → write_bytes (write_bytes m (base + length bs) cs) base bs a
          ≡ write_bytes (write_bytes m base bs) (base + length bs) cs a
    at a = elim (dec_lt a (base + length bs)) [
      | yes low ↦ elim (dec_lt a base) [
        | yes below ↦
            write_bytes_apart _ base bs a (inl below)
            ∙ write_bytes_apart m (base + length bs) cs a (inl low)
            ∙ sym (
                write_bytes_apart _ (base + length bs) cs a (inl low)
                ∙ write_bytes_apart m base bs a (inl below))
        | no above ↦
            write_bytes_inside _ m base bs a (omega arith) low
            ∙ sym (write_bytes_apart _ (base + length bs) cs a (inl low))
      ]
      | no high ↦
          write_bytes_apart _ base bs a (inr (omega arith))
          ∙ write_bytes_cong m (write_bytes m base bs) (base + length bs) cs a
              (sym (write_bytes_apart m base bs a (inr (omega arith))))
    ]

-- A write over the front of what was written.
pub write_bytes_over :
    (m : Memory) (base : ℕ) (old new rest : List ℕ)
    → length old ≡ length new
    → write_bytes (write_bytes m base (old ++ rest)) base new ≡ write_bytes m base (new ++ rest)
write_bytes_over m base old new rest e =
    ap (λ m'. write_bytes m' base new) (sym (write_bytes_swap m base old rest))
    ∙ fun_ext (λ a. over a)
    ∙ ap (λ k. write_bytes (write_bytes m (base + k) rest) base new) e
    ∙ write_bytes_swap m base new rest
  where
    over :
        (a : ℕ)
        → write_bytes (write_bytes (write_bytes m (base + length old) rest) base old) base new a
          ≡ write_bytes (write_bytes m (base + length old) rest) base new a
    over a = elim (dec_lt a base) [
      | yes below ↦ write_bytes_cong _ _ base new a (write_bytes_apart _ base old a (inl below))
      | no above ↦ elim (dec_lt a (base + length old)) [
        | yes low ↦ write_bytes_inside _ _ base new a (omega arith) (omega (arith, e))
        | no high ↦
            write_bytes_cong _ _ base new a (write_bytes_apart _ base old a (inr (omega arith)))
      ]
    ]
