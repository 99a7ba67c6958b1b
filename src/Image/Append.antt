-- ===== src/Image/Append.antt =====
-- The outcomes of `append_frame`, its stores one by one.
use native.Mathlib.Decide.{dec_lt}
use aeron_rs.Prelude.{
  ℕ, ◌+◌, ◌*◌, ◌%◌, ◌^◌, ◌≤◌, ◌<◌, ◌≡◌, ap, ◌∙◌, ◌⊎◌, inl, inr, List, arith, length,
}
use aeron_rs.Prelude.Word.{add32}
use aeron_rs.Prelude.Memory.{Memory, write_bytes, write_bytes_apart, le_bytes}
use aeron_rs.Frame.Data.{DataHeader, bytes}
use aeron_rs.Log.{ok, err, invalid_partition, term_full, align_frame_length}
use aeron_rs.Image.{ImageInner, append_frame, hdr_copy, with_buffer}

-- The buffer before the length is stored.
abbrev pub opened : ImageInner → ℕ → ℕ → DataHeader → List ℕ → Memory
opened inner idx off header payload =
    write_bytes
      (write_bytes inner.log.buffer (idx * inner.term_length + off) (bytes (hdr_copy header)))
      (idx * inner.term_length + off + 32) payload

pub wrote :
    (inner : ImageInner) (idx off : ℕ) (header : DataHeader) (payload : List ℕ)
    → idx < 4
    → add32 off (align_frame_length (32 + length payload) % 2 ^ 32) ≤ inner.term_length
    → append_frame inner idx off header payload ≡ (
      ok (add32 off (align_frame_length (32 + length payload) % 2 ^ 32)),
      with_buffer inner (
          write_bytes
            (opened inner idx off header payload)
            (idx * inner.term_length + off)
            (le_bytes 4 ((32 + length payload) % 2 ^ 32))),
    )
unfolding append_frame
wrote inner idx off header payload low fits = ground arith

-- The outcomes of `append_frame`: an index that is no partition's
-- and a frame that ends behind the term are refused, each with its own error and without a change;
-- otherwise it returns where the frame ends, and every byte outside the frame stays as it was.
pub append_frame_outcomes :
    (inner : ImageInner) (idx off : ℕ) (header : DataHeader) (payload : List ℕ)
    → let (outcome, inner') = append_frame inner idx off header payload in
      let end = add32 off (align_frame_length (32 + length payload) % 2 ^ 32) in
      let base = idx * inner.term_length + off in
      ((4 ≤ idx) × (outcome ≡ err invalid_partition) × (inner' ≡ inner))
      ⊎ (((idx < 4) × (inner.term_length < end) × (outcome ≡ err term_full) × (inner' ≡ inner))
          ⊎ ((idx < 4)
              × (end ≤ inner.term_length)
              × (outcome ≡ ok end)
              × ((x : ℕ)
                  → (x < base) ⊎ (base + (32 + length payload) ≤ x)
                  → inner'.log.buffer x ≡ inner.log.buffer x)))
unfolding append_frame
append_frame_outcomes inner idx off header payload = elim (dec_lt idx 4) [
  | yes low ↦
      elim (dec_lt inner.term_length
        (add32 off (align_frame_length (32 + length payload) % 2 ^ 32))) [
          | yes full ↦ inr (inl (low, full, ground arith, ground arith))
          | no fits ↦ inr (
              inr (
                low,
                omega arith,
                ground arith,
                λ x out.
                    ap (λ z. z.1.log.buffer x)
                      (wrote inner idx off header payload low (omega arith))
                    ∙ write_bytes_apart (opened inner idx off header payload)
                        (idx * inner.term_length + off)
                        (le_bytes 4 ((32 + length payload) % 2 ^ 32)) x (omega (arith, out))
                    ∙ write_bytes_apart
                        (write_bytes inner.log.buffer (idx * inner.term_length + off)
                          (bytes (hdr_copy header)))
                        (idx * inner.term_length + off + 32) payload x (omega (arith, out))
                    ∙ write_bytes_apart inner.log.buffer (idx * inner.term_length + off)
                        (bytes (hdr_copy header)) x (omega (arith, out)),
              ))
        ]
  | no high ↦ inl (omega arith, ground arith, ground arith)
]
