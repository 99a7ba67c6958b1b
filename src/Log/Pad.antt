-- ===== src/Log/Pad.antt =====
-- The pad frame at the end of a full term, and the cleaning of a partition.
use aeron_rs.Prelude.{ℕ, ◌+◌, ◌-◌, ◌*◌, ◌≤◌, ◌<◌, ◌≡◌, sym, ap, ◌∙◌, inr, List, arith, replicate}
use mathlib.Core.Path.{fun_ext}
use aeron_rs.Prelude.Memory.{
  Memory, write_bytes, fill_zero, write_bytes_apart, write_bytes-append, write_bytes-replicate,
}
use aeron_rs.Frame.Data.{bytes}
use aeron_rs.Log.{RawLog, pad_header, write_pad_frame, clean_partition}
use aeron_rs.Log.Append.{frame_of}

-- The frame that fills a term from `off` on.
abbrev pub pad_frame : ℕ → ℕ → List ℕ
pad_frame term_length off =
    frame_of (pad_header (term_length - off) off) (replicate (term_length - off - 32) 0)

pad_write :
    (m : Memory) (base l off : ℕ)
    → off + 32 ≤ l
    → ((x : ℕ) → base + off ≤ x → x < base + l → m x ≡ 0)
    → write_bytes m (base + off) (pad_frame l off)
      ≡ write_bytes m (base + off) (bytes (pad_header (l - off) off))
pad_write m base l off h clean =
    sym (
      write_bytes-append m (base + off) (bytes (pad_header (l - off) off))
        (replicate (l - off - 32) 0))
    ∙ fun_ext (λ a.
      write_bytes-replicate (write_bytes m (base + off) (bytes (pad_header (l - off) off)))
        (base + off + 32) (l - off - 32) a
        (λ x lo hi.
          write_bytes_apart m (base + off) (bytes (pad_header (l - off) off)) x (inr (omega arith))
          ∙ clean x (omega arith) (omega arith)))

pub write_pad_frame_lem :
    (log : RawLog) (idx off : ℕ)
    → idx < 4
    → off + 32 ≤ log.term_length
    → write_pad_frame log idx off ≡ record log {
      buffer =
          write_bytes log.buffer
            (idx * log.term_length + off)
            (bytes (pad_header (log.term_length - off) off));
    }
unfolding write_pad_frame
write_pad_frame_lem log idx off h k = ground arith

pub write_pad_frame_small :
    (log : RawLog) (idx off : ℕ) → log.term_length < off + 32 → write_pad_frame log idx off ≡ log
unfolding write_pad_frame
write_pad_frame_small log idx off h = ground arith

pub write_pad_frame_full :
    (log : RawLog) (idx off : ℕ) → log.term_length ≤ off → write_pad_frame log idx off ≡ log
unfolding write_pad_frame
write_pad_frame_full log idx off h = ground arith

-- In a partition whose bytes from the offset on are zero, with room for a header, the header that
-- is written is that of a whole pad frame.
pub write_pad_frame_whole :
    (log : RawLog) (idx off : ℕ)
    → idx < 4
    → off + 32 ≤ log.term_length
    → ((x : ℕ)
        → idx * log.term_length + off ≤ x
        → x < idx * log.term_length + log.term_length
        → log.buffer x ≡ 0)
    → write_pad_frame log idx off ≡ record log {
      buffer = write_bytes log.buffer (idx * log.term_length + off) (pad_frame log.term_length off);
    }
write_pad_frame_whole log idx off h k clean =
    write_pad_frame_lem log idx off h k
    ∙ ap (λ b. record log { buffer = b })
        (sym (pad_write log.buffer (idx * log.term_length) log.term_length off k clean))

pub clean_partition_lem :
    (log : RawLog) (idx : ℕ)
    → idx < 4
    → clean_partition log idx
      ≡ record log { buffer = fill_zero log.buffer (idx * log.term_length) log.term_length }
unfolding clean_partition
clean_partition_lem log idx h = ground arith

pub term_length-write_pad_frame :
    (log : RawLog) (idx off : ℕ) → (write_pad_frame log idx off).term_length ≡ log.term_length
unfolding write_pad_frame
term_length-write_pad_frame log idx off = ground arith
