-- ===== src/Publication/Rotate.antt =====
-- A full term is padded, and the next one entered.
use aeron_rs.Prelude.{
  ℕ, suc, ◌+◌, ◌-◌, ◌*◌, ◌%◌, ◌^◌, ◌≤◌, ◌<◌, ◌≡◌, refl, sym, ap, ap₂, ◌∙◌, inl, inr, List, [],
  arith, length, replicate, length-replicate,
}
use mathlib.Core.Path.{subst}
use aeron_rs.Log.Pad.{
  pad_frame, write_pad_frame_whole, term_length-write_pad_frame, write_pad_frame_full,
  clean_partition_lem,
}
use native.Mathlib.Nat.{add-zero}
use aeron_rs.Prelude.Word.{add32, sub32}
use aeron_rs.Prelude.Memory.{write_bytes, fill_zero, fill_zero_at, fill_zero_apart}
use aeron_rs.Log.{RawLog, partition_index, pad_header, write_pad_frame}
use aeron_rs.Log.Append.{end_of}
use aeron_rs.Publication.{NetworkPublication, rotate_term}
use aeron_rs.Publication.Span.{Span, push_head, push_rest, push_term, length-push_term, Span-term}
use aeron_rs.Publication.State.{At, term_count, Span-write}

next_term :
    (a i n : ℕ)
    → a < 2 ^ 32
    → i < 2 ^ 32
    → sub32 a i ≡ n
    → suc n < 2 ^ 31
    → sub32 (add32 a 1) i ≡ suc n
next_term a i n ha hi e h = omega arith

-- The log after the pad, in the shape of a frame that is written whole.
module _ (p : NetworkPublication) (t off : ℕ) (fs : List (List ℕ)) (gs : List (List (List ℕ)))
    (a : At p t off fs gs) where
  abbrev pub padded : RawLog
  padded =
      write_pad_frame p.raw_log (partition_index p.active_term_id p.initial_term_id) p.term_offset

  partition_lem :
      partition_index p.active_term_id p.initial_term_id * p.raw_log.term_length
      ≡ (t + length gs) % 4 * p.term_length
  partition_lem = ap₂ (λ n l. n % 4 * l) a.term a.log

  -- A term that is full to its end needs no pad.
  pub padded_full : p.term_offset ≡ p.term_length → padded ≡ p.raw_log
  padded_full h = write_pad_frame_full p.raw_log _ p.term_offset (omega (arith, a.log, h))

  padded_lem :
      p.term_offset < p.term_length
      → padded ≡ record p.raw_log {
        buffer =
            write_bytes p.raw_log.buffer
              ((t + length gs) % 4 * p.term_length + p.term_offset)
              (pad_frame p.term_length p.term_offset);
      }
  padded_lem h =
      write_pad_frame_whole p.raw_log (partition_index p.active_term_id p.initial_term_id)
        p.term_offset (omega arith) (omega (arith, a.log, a.aligned, a.offset_aligned))
        (λ x lo hi. a.clean x (omega (arith, partition_lem)) (omega (arith, partition_lem, a.log)))
      ∙ ap₂
          (λ b l. record p.raw_log {
            buffer = write_bytes p.raw_log.buffer (b + p.term_offset) (pad_frame l p.term_offset);
          })
          partition_lem a.log

  pub padded_length : padded.term_length ≡ p.term_length
  padded_length = term_length-write_pad_frame p.raw_log _ p.term_offset ∙ a.log

  pub padded-Span :
      p.term_offset < p.term_length
      → Span padded.buffer p.term_length t off
          (push_head fs gs (pad_frame p.term_length p.term_offset))
          (push_rest gs (pad_frame p.term_length p.term_offset))
          p.term_length
  padded-Span h = rw (padded_lem h) (
      subst
        (λ end.
          Span
            (write_bytes p.raw_log.buffer ((t + length gs) % 4 * p.term_length + p.term_offset)
              (pad_frame p.term_length p.term_offset))
            p.term_length t off (push_head fs gs (pad_frame p.term_length p.term_offset))
            (push_rest gs (pad_frame p.term_length p.term_offset)) end)
        full
        (Span-write p t off fs gs a (pad_header (p.term_length - p.term_offset) p.term_offset) zeros
          (omega (arith, zeros_length, a.aligned, a.offset_aligned))
          (omega (arith, zeros_length, a.large)) (omega (arith, full))))
    where
      zeros : List ℕ
      zeros = replicate (p.term_length - p.term_offset - 32) 0

      zeros_length : length zeros ≡ p.term_length - p.term_offset - 32
      zeros_length = length-replicate _ 0

      full : end_of p.term_offset zeros ≡ p.term_length
      full = omega (arith, zeros_length, a.aligned, a.offset_aligned)

module _ (p : NetworkPublication) (t off : ℕ) (fs : List (List ℕ)) (gs : List (List (List ℕ)))
    (a : At p t off fs gs) (raw : RawLog) (e : raw.term_length ≡ p.term_length)
    (count : suc (t + length gs) < 2 ^ 31) where
  abbrev pub entered : NetworkPublication
  entered = rotate_term (record p { raw_log = raw })

  entered_term : term_count entered ≡ suc (t + length gs)
  unfolding rotate_term
  entered_term =
      next_term p.active_term_id p.initial_term_id (t + length gs) a.active a.initial a.term count

  entered_log : entered.raw_log ≡ record raw {
    buffer = fill_zero raw.buffer (suc (t + length gs) % 4 * p.term_length) p.term_length;
  }
  unfolding rotate_term
  entered_log =
      clean_partition_lem raw (partition_index (add32 p.active_term_id 1) p.initial_term_id)
        (omega arith)
      ∙ ap₂ (λ n l. record raw { buffer = fill_zero raw.buffer (n % 4 * l) l }) entered_term e

  entered_clean :
      (x : ℕ)
      → suc (t + length gs) % 4 * p.term_length ≤ x
      → x < suc (t + length gs) % 4 * p.term_length + p.term_length
      → entered.raw_log.buffer x ≡ 0
  entered_clean x lo hi =
      ap (λ l. l.buffer x) entered_log ∙ fill_zero_at raw.buffer _ p.term_length x lo hi

  pub entered-At :
      (fs' : List (List ℕ)) (gs' : List (List (List ℕ)))
      → length gs' ≡ length gs
      → length gs ≤ 2
      → off < p.term_length
      → p.pub_position ≡ (t + length gs) * p.term_length + p.term_offset
      → Span raw.buffer p.term_length t off fs' gs' p.term_length
      → At entered t off fs' (push_term gs')
  unfolding rotate_term
  entered-At fs' gs' same two inside at span = record {
    power = a.power;
    aligned = a.aligned;
    positive = a.positive;
    large = a.large;
    log = ap (λ l. l.term_length) entered_log ∙ e;
    mask = a.mask;
    payload = a.payload;
    initial = a.initial;
    active = omega arith;
    term = entered_term ∙ omega (arith, length-push_term gs', same);
    terms = omega (arith, length-push_term gs', same, count);
    ahead = omega (arith, length-push_term gs', same, two);
    sender = a.sender;
    sender_in = a.sender_in;
    sender_term = inl inside;
    offset = omega arith;
    offset_aligned = refl;
    not_ahead = rw (length-push_term gs', same) (omega (arith, at, a.offset));
    not_behind = rw (length-push_term gs', same) (omega (arith, at, a.offset));
    published = inr refl;
    span =
        subst (λ l. Span l.buffer p.term_length t off fs' (push_term gs') 0) (sym entered_log)
          (Span-term raw.buffer _ p.term_length (suc (t + length gs)) t off fs' gs' span
            (omega (arith, same)) (omega (arith, same, two))
            (λ x out. sym (fill_zero_apart raw.buffer _ p.term_length x out)));
    clean = rw (last_term, add-zero) entered_clean;
  }
    where
      last_term : t + length (push_term gs') ≡ suc (t + length gs)
      last_term = omega (arith, length-push_term gs', same)

  pub drained-At :
      off ≡ p.term_length
      → length gs ≡ 0
      → p.pub_position ≡ (t + length gs) * p.term_length + p.term_offset
      → At entered (suc t) 0 [] []
  unfolding rotate_term
  drained-At edge none at = record {
    power = a.power;
    aligned = a.aligned;
    positive = a.positive;
    large = a.large;
    log = ap (λ l. l.term_length) entered_log ∙ e;
    mask = a.mask;
    payload = a.payload;
    initial = a.initial;
    active = omega arith;
    term = entered_term ∙ omega (arith, none);
    terms = omega (arith, count, none);
    ahead = omega arith;
    sender = rw (a.sender, edge) (omega arith);
    sender_in = omega arith;
    sender_term = inr refl;
    offset = omega arith;
    offset_aligned = refl;
    not_ahead = rw last_term (omega (arith, at, a.offset));
    not_behind = rw last_term (omega (arith, at, a.offset));
    published = inr refl;
    span = refl;
    clean = rw (last_term, add-zero) entered_clean;
  }
    where
      last_term : suc t + 0 ≡ suc (t + length gs)
      last_term = omega (arith, none)
