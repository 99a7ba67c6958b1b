-- ===== src/Publication/State.antt =====
-- The representation invariant of a publication.
use aeron_rs.Prelude.{
  ℕ, ◌+◌, ◌*◌, ◌/◌, ◌%◌, ◌^◌, ◌≤◌, ◌<◌, ◌≡◌, refl, sym, ap, ◌⊎◌, List, arith, length,
}
use aeron_rs.Prelude.Word.{add32, sub32, add64, sign_extend}
use aeron_rs.Prelude.Memory.{write_bytes, write_bytes_apart}
use aeron_rs.Frame.Data.{DataHeader}
use aeron_rs.Log.Append.{frame_of, end_of, Laid-write}
use aeron_rs.Log.{partition_index}
use aeron_rs.Publication.{
  NetworkPublication, compute_position, sender_term_id, sender_term_offset, shift_right,
}
use aeron_rs.Publication.Span.{Span, frames, push_head, push_rest, Span-push}

-- How many terms the writer is past the initial one.
abbrev pub term_count : NetworkPublication → ℕ
term_count p = sub32 p.active_term_id p.initial_term_id

-- The sender stands at `off` of term `t`; the frames `fs` of that term and `gs` of the later ones
-- are written and not yet scanned, and what follows them in the writer's term is zero.
pub record At (p : NetworkPublication) (t off : ℕ) (fs : List (List ℕ)) (gs : List (List (List ℕ)))
    : Type 0 where
  pub power : p.term_length ≡ 2 ^ p.position_bits_to_shift
  pub aligned : p.term_length % 32 ≡ 0
  pub positive : 32 ≤ p.term_length
  pub large : p.term_length ≤ 2 ^ 30
  pub log : p.raw_log.term_length ≡ p.term_length
  pub mask : p.term_length_mask + 1 ≡ p.term_length
  pub payload : p.max_payload_length + 32 ≤ p.term_length
  pub initial : p.initial_term_id < 2 ^ 32
  pub active : p.active_term_id < 2 ^ 32
  pub term : term_count p ≡ t + length gs
  pub terms : t + length gs < 2 ^ 31
  pub ahead : length gs ≤ 3
  pub sender : p.sender_position ≡ t * p.term_length + off
  pub sender_in : off ≤ p.term_length
  pub sender_term : (off < p.term_length) ⊎ (length gs ≡ 0)
  pub offset : p.term_offset ≤ p.term_length
  pub offset_aligned : p.term_offset % 32 ≡ 0
  pub not_ahead : p.pub_position ≤ (t + length gs) * p.term_length + p.term_offset
  pub not_behind : (t + length gs) * p.term_length + p.term_offset ≤ p.pub_position + p.term_length
  pub published :
      (p.pub_position ≡ (t + length gs) * p.term_length + p.term_offset) ⊎ (p.term_offset ≡ 0)
  pub span : Span p.raw_log.buffer p.term_length t off fs gs p.term_offset
  pub clean :
      (x : ℕ)
      → (t + length gs) % 4 * p.term_length + p.term_offset ≤ x
      → x < (t + length gs) % 4 * p.term_length + p.term_length
      → p.raw_log.buffer x ≡ 0

-- The publication holds the frames `q` between the sender and the writer.
abbrev pub Holds : NetworkPublication → List (List ℕ) → Type 0
Holds p q =
    (t : ℕ) × (off : ℕ) × (fs : List (List ℕ)) × (gs : List (List (List ℕ))) × At p t off fs gs
    × (frames fs gs ≡ q)

pub product_lt : (n l : ℕ) → n < 2 ^ 31 → l ≤ 2 ^ 30 → n * l + l ≤ 2 ^ 61
product_lt n l h k = grind arith

pub div_of_term : (t l off : ℕ) → off < l → (t * l + off) / l ≡ t
div_of_term t l off h = grind arith

pub mod_of_term : (t l off : ℕ) → off < l → (t * l + off) % l ≡ off
mod_of_term t l off h = grind arith

position_of_term :
    (n l o d : ℕ)
    → d ≡ n
    → n < 2 ^ 31
    → l ≤ 2 ^ 30
    → o ≤ l
    → add64 (sign_extend d * l) o ≡ n * l + o
position_of_term n l o d e hn hl ho = rw e (ground (arith, product_lt n l))

pub term_of_position :
    (i t l off k s : ℕ)
    → l ≡ 2 ^ k
    → i < 2 ^ 32
    → t < 2 ^ 31
    → l ≤ 2 ^ 30
    → off < l
    → s ≡ t * l + off
    → sub32 (add32 i (shift_right s k % 2 ^ 32)) i ≡ t
term_of_position i t l off k s e hi ht hl ho hs =
    rw (← e) (ground (arith, product_lt t l, div_of_term t l off, hs))

module _ (p : NetworkPublication) (t off : ℕ) (fs : List (List ℕ)) (gs : List (List (List ℕ)))
    (a : At p t off fs gs) where
  pub position_lem :
      (o : ℕ)
      → o ≤ p.term_length
      → compute_position p p.active_term_id o ≡ (t + length gs) * p.term_length + o
  unfolding compute_position
  position_lem o h =
      position_of_term (t + length gs) p.term_length o (term_count p) a.term a.terms a.large h

  pub sender_term_lem :
      off < p.term_length
      → (partition_index (sender_term_id p) p.initial_term_id ≡ t % 4)
        × (sender_term_offset p ≡ off)
  sender_term_lem h = (
    ap (λ n. n % 4)
        (term_of_position p.initial_term_id t p.term_length off p.position_bits_to_shift
          p.sender_position a.power a.initial (omega (arith, a.terms)) a.large h a.sender),
    rw (a.mask, a.sender) (mod_of_term t p.term_length off h),
  )

  -- A frame written at the writer's position joins the span.
  pub Span-write :
      (header : DataHeader) (bytes : List ℕ)
      → header.frame_header.frame_length ≡ 32 + length bytes
      → 32 + length bytes < 2 ^ 31
      → end_of p.term_offset bytes ≤ p.term_length
      → Span
          (write_bytes p.raw_log.buffer
            ((t + length gs) % 4 * p.term_length + p.term_offset)
            (frame_of header bytes))
          p.term_length
          t
          off
          (push_head fs gs (frame_of header bytes))
          (push_rest gs (frame_of header bytes))
          (end_of p.term_offset bytes)
  Span-write header bytes e lt fits =
      Span-push p.raw_log.buffer _ p.term_length (t + length gs) t off fs gs p.term_offset
        (end_of p.term_offset bytes) (frame_of header bytes) a.span refl a.ahead
        (λ x out.
          sym (write_bytes_apart p.raw_log.buffer _ (frame_of header bytes) x (omega arith)))
        (λ pos fs' h.
          Laid-write p.raw_log.buffer ((t + length gs) % 4 * p.term_length) p.term_offset pos header
            bytes fs' e lt h)
