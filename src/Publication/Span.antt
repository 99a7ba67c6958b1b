-- ===== src/Publication/Span.antt =====
-- The frames between the sender and the writer, a list for each term that they lie in.
use mathlib.Core.List.{append-nil, append_assoc}
use native.Mathlib.Decide.{dec_lt}
use aeron_rs.Prelude.{
  ℕ, suc, ◌+◌, ◌*◌, ◌%◌, ◌≤◌, ◌<◌, ◌≡◌, refl, ap, ◌⊎◌, inl, inr, List, [], ◌∷◌, ◌++◌, arith, length,
  ◌≢◌,
}
use aeron_rs.Prelude.Memory.{Memory}
use aeron_rs.Log.{align_frame_length}
use aeron_rs.Log.Layout.{Laid, Laid-le, Laid-ext}

-- The frames `fs` lie in term `t` from `off` on, and a list of `gs` in each later term; the last
-- term is filled up to `last`, the others to their end.
abbrev pub Span : Memory → ℕ → ℕ → ℕ → List (List ℕ) → List (List (List ℕ)) → ℕ → Type 0
Span m tl t off fs [] last = Laid m (t % 4 * tl) off fs last
Span m tl t off fs (g ∷ gs) last = Laid m (t % 4 * tl) off fs tl × Span m tl (suc t) 0 g gs last

-- All of those frames, in order.
unfoldable pub frames : List (List ℕ) → List (List (List ℕ)) → List (List ℕ)
frames fs [] = fs
frames fs (g ∷ gs) = fs ++ frames g gs

-- One more frame in the last term.
unfoldable pub push_head : List (List ℕ) → List (List (List ℕ)) → List ℕ → List (List ℕ)
push_head fs [] f = fs ++ f ∷ []
push_head fs (g ∷ gs) f = fs

unfoldable pub push_rest : List (List (List ℕ)) → List ℕ → List (List (List ℕ))
push_rest [] f = []
push_rest (g ∷ gs) f = push_head g gs f ∷ push_rest gs f

-- One more term, with no frame.
unfoldable pub push_term : List (List (List ℕ)) → List (List (List ℕ))
push_term [] = [] ∷ []
push_term (g ∷ gs) = g ∷ push_term gs

pub frames-push :
    (fs : List (List ℕ)) (gs : List (List (List ℕ))) (f : List ℕ)
    → frames (push_head fs gs f) (push_rest gs f) ≡ frames fs gs ++ f ∷ []
unfolding frames push_head push_rest
frames-push fs [] f = refl
frames-push fs (g ∷ gs) f = rw append_assoc (ap (◌++◌ fs) (frames-push g gs f))

pub length-push_rest :
    (gs : List (List (List ℕ))) (f : List ℕ) → length (push_rest gs f) ≡ length gs
unfolding push_rest
length-push_rest [] f = refl
length-push_rest (g ∷ gs) f = ap suc (length-push_rest gs f)

pub frames-push_term :
    (fs : List (List ℕ)) (gs : List (List (List ℕ))) → frames fs (push_term gs) ≡ frames fs gs
unfolding frames push_term
frames-push_term fs [] = append-nil fs
frames-push_term fs (g ∷ gs) = ap (◌++◌ fs) (frames-push_term g gs)

pub length-push_term : (gs : List (List (List ℕ))) → length (push_term gs) ≡ suc (length gs)
unfolding push_term
length-push_term [] = refl
length-push_term (g ∷ gs) = ap suc (length-push_term gs)

partition_below : (tl q r : ℕ) → q < r → q * tl + tl ≤ r * tl
partition_below tl q r h = grind arith

-- Two partitions do not overlap.
pub partitions_apart :
    (tl q r x : ℕ) → q ≢ r → q * tl ≤ x → x < q * tl + tl → (x < r * tl) ⊎ (r * tl + tl ≤ x)
partitions_apart tl q r x ne lo hi = elim (dec_lt q r) [
  | yes h ↦ inl (omega (arith, partition_below tl q r h))
  | no h ↦ inr (omega (arith, partition_below tl r q (omega arith)))
]

-- Frames of another term stay where the memory changes in the partition of term `n` only.
pub Laid-other :
    (m m' : Memory) (tl n t off : ℕ) (fs : List (List ℕ)) (end : ℕ)
    → ((x : ℕ) → (x < n % 4 * tl) ⊎ (n % 4 * tl + tl ≤ x) → m x ≡ m' x)
    → t % 4 ≢ n % 4
    → end ≤ tl
    → Laid m (t % 4 * tl) off fs end
    → Laid m' (t % 4 * tl) off fs end
Laid-other m m' tl n t off fs end same ne le h =
    Laid-ext m m' (t % 4 * tl) off fs end h
      (λ x lo hi. same x (partitions_apart tl (t % 4) (n % 4) x ne (omega arith) (omega arith)))

pub Span-push :
    (m m' : Memory) (tl n t off : ℕ) (fs : List (List ℕ)) (gs : List (List (List ℕ))) (last end : ℕ)
    (f : List ℕ)
    → Span m tl t off fs gs last
    → t + length gs ≡ n
    → length gs ≤ 3
    → ((x : ℕ) → (x < n % 4 * tl) ⊎ (n % 4 * tl + tl ≤ x) → m x ≡ m' x)
    → ((pos : ℕ) (fs' : List (List ℕ))
        → Laid m (n % 4 * tl) pos fs' last
        → Laid m' (n % 4 * tl) pos (fs' ++ f ∷ []) end)
    → Span m' tl t off (push_head fs gs f) (push_rest gs f) end
unfolding push_head push_rest
Span-push m m' tl n t off fs [] last end f s e le same grow =
    let q : t ≡ n = omega arith in rw q (grow off fs (rw q at s))
Span-push m m' tl n t off fs (g ∷ gs) last end f s e le same grow = (
  Laid-other m m' tl n t off fs tl same (omega arith) (omega arith) s.0,
  Span-push m m' tl n (suc t) 0 g gs last end f s.1 (omega arith) (omega arith) same grow,
)

-- A new term is entered once the last one is full: it holds no frame yet.
pub Span-term :
    (m m' : Memory) (tl n t off : ℕ) (fs : List (List ℕ)) (gs : List (List (List ℕ)))
    → Span m tl t off fs gs tl
    → suc (t + length gs) ≡ n
    → length gs ≤ 2
    → ((x : ℕ) → (x < n % 4 * tl) ⊎ (n % 4 * tl + tl ≤ x) → m x ≡ m' x)
    → Span m' tl t off fs (push_term gs) 0
unfolding push_term
Span-term m m' tl n t off fs [] s e le same =
    (Laid-other m m' tl n t off fs tl same (omega arith) (omega arith) s, refl)
Span-term m m' tl n t off fs (g ∷ gs) s e le same = (
  Laid-other m m' tl n t off fs tl same (omega arith) (omega arith) s.0,
  Span-term m m' tl n (suc t) 0 g gs s.1 (omega arith) (omega arith) same,
)

pub off_le_last :
    (m : Memory) (tl t off : ℕ) (fs : List (List ℕ)) (gs : List (List (List ℕ))) (last : ℕ)
    → Span m tl t off fs gs last
    → length gs ≡ 0
    → off ≤ last
off_le_last m tl t off fs [] last s e = Laid-le m (t % 4 * tl) off fs last s
off_le_last m tl t off fs (g ∷ gs) last s e = absurd (omega arith)

pub nil_at_end :
    (m : Memory) (tl t : ℕ) (fs : List (List ℕ)) (gs : List (List (List ℕ))) (last : ℕ)
    → Span m tl t last fs gs last
    → length gs ≡ 0
    → frames fs gs ≡ []
unfolding frames
nil_at_end m tl t [] [] last s e = refl
nil_at_end m tl t (f ∷ fs) [] last s e =
    absurd
      (omega (arith, Laid-le m (t % 4 * tl) (last + align_frame_length (length f)) fs last s.1))
nil_at_end m tl t fs (g ∷ gs) last s e = absurd (omega arith)
