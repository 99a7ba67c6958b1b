-- ===== src/Log/Append.antt =====
-- What `append_frame`, `write_pad_frame` and `clean_partition` do to the frames of a partition.
use aeron_rs.Prelude.{
  ℕ, ◌+◌, ◌*◌, ◌^◌, ◌≤◌, ◌<◌, ◌≡◌, refl, ◌⊎◌, inl, inr, List, [], ◌∷◌, ◌++◌, arith, length, ap, sym,
  ◌∙◌,
}
use aeron_rs.Prelude.Memory.{
  Memory, write_bytes, write_bytes_apart, write_bytes-append, read_bytes-write_bytes,
  read_i32-write_bytes,
}
use native.Mathlib.Decide.{dec_lt}
use aeron_rs.Frame.Data.{DataHeader, bytes}
use aeron_rs.Log.{RawLog, ok, err, term_full, data_header_length, align_frame_length, append_frame}
use aeron_rs.Log.Layout.{IsFrame, Laid, Laid-append, Laid-ext}

-- A frame as it is written: the header's bytes and the payload.
abbrev pub frame_of : DataHeader → List ℕ → List ℕ
frame_of header payload = bytes header ++ payload

-- Bytes written with the right length word are a frame.
pub IsFrame-write :
    (m : Memory) (a : ℕ) (header : DataHeader) (payload : List ℕ)
    → header.frame_header.frame_length ≡ data_header_length + length payload
    → data_header_length + length payload < 2 ^ 31
    → IsFrame (write_bytes m a (frame_of header payload)) a (frame_of header payload)
IsFrame-write m a header payload e small = (
  read_bytes-write_bytes m a (frame_of header payload),
  read_i32-write_bytes m a header.frame_header.frame_length _ (omega arith) ∙ e ∙ omega arith,
  omega arith,
  omega arith,
)

-- The log with a frame written at `off` of a partition.
abbrev pub with_frame : RawLog → ℕ → ℕ → DataHeader → List ℕ → RawLog
with_frame log partition_idx off header payload = record log {
  buffer = write_bytes log.buffer (partition_idx * log.term_length + off) (frame_of header payload);
}

abbrev pub end_of : ℕ → List ℕ → ℕ
end_of off payload = off + align_frame_length (data_header_length + length payload)

pub append_frame-full :
    (log : RawLog) (partition_idx off : ℕ) (header : DataHeader) (payload : List ℕ)
    → partition_idx < 4
    → log.term_length ≤ 2 ^ 30
    → off ≤ log.term_length
    → length payload < 2 ^ 30
    → log.term_length < end_of off payload
    → append_frame log partition_idx off header payload ≡ (err term_full, log)
unfolding append_frame
append_frame-full log partition_idx off header payload p t o l full = ground arith

pub append_frame-fits :
    (log : RawLog) (partition_idx off : ℕ) (header : DataHeader) (payload : List ℕ)
    → partition_idx < 4
    → log.term_length ≤ 2 ^ 30
    → off ≤ log.term_length
    → length payload < 2 ^ 30
    → end_of off payload ≤ log.term_length
    → append_frame log partition_idx off header payload
      ≡ (ok (end_of off payload), with_frame log partition_idx off header payload)
unfolding append_frame
append_frame-fits log partition_idx off header payload p t o l fits = ground (
  arith,
  write_bytes-append log.buffer (partition_idx * log.term_length + off) (bytes header) payload,
)

-- A frame written behind those of a partition joins them.
pub Laid-write :
    (m : Memory) (base off pos : ℕ) (header : DataHeader) (payload : List ℕ) (fs : List (List ℕ))
    → header.frame_header.frame_length ≡ data_header_length + length payload
    → data_header_length + length payload < 2 ^ 31
    → Laid m base pos fs off
    → Laid
        (write_bytes m (base + off) (frame_of header payload))
        base
        pos
        (fs ++ frame_of header payload ∷ [])
        (end_of off payload)
Laid-write m base off pos header payload fs e small h =
    Laid-append _ base pos fs off (frame_of header payload ∷ []) (end_of off payload)
      (Laid-ext m _ base pos fs off h
        (λ x lo hi. sym (write_bytes_apart m (base + off) (frame_of header payload) x (inl hi))))
      (IsFrame-write m (base + off) header payload e small, omega arith)

-- To a partition of a log with terms of at most 1 GiB, at an offset up to the term length behind
-- the frames `fs`, with a payload below 1 GiB and a header whose length is that of the frame: an
-- append that fits adds its frame behind `fs`, and changes no other byte; one that does not fit
-- changes nothing.
pub append_frame_lem :
    (log : RawLog) (partition_idx off pos : ℕ) (header : DataHeader) (payload : List ℕ)
    (fs : List (List ℕ))
    → partition_idx < 4
    → log.term_length ≤ 2 ^ 30
    → off ≤ log.term_length
    → length payload < 2 ^ 30
    → header.frame_header.frame_length ≡ data_header_length + length payload
    → Laid log.buffer (partition_idx * log.term_length) pos fs off
    → let base = partition_idx * log.term_length in
      let end = off + align_frame_length (data_header_length + length payload) in
      let (r, log') = append_frame log partition_idx off header payload in
      ((log.term_length < end) × (r ≡ err term_full) × (log' ≡ log))
      ⊎ ((end ≤ log.term_length)
          × (r ≡ ok end)
          × (log'.term_length ≡ log.term_length)
          × Laid log'.buffer base pos (fs ++ frame_of header payload ∷ []) end
          × ((x : ℕ) → (x < base + off) ⊎ (base + end ≤ x) → log'.buffer x ≡ log.buffer x))
append_frame_lem log partition_idx off pos header payload fs p t o l e h =
    elim (dec_lt log.term_length (end_of off payload)) [
      | yes full ↦
          let q = append_frame-full log partition_idx off header payload p t o l full in
          inl (full, ap (λ z. z.0) q, ap (λ z. z.1) q)
      | no fits ↦
          let q = append_frame-fits log partition_idx off header payload p t o l (omega arith) in
          rw q (
            inr (
              omega arith,
              refl,
              refl,
              Laid-write log.buffer (partition_idx * log.term_length) off pos header payload fs e
                  (omega arith) h,
              λ x out.
                  write_bytes_apart log.buffer (partition_idx * log.term_length + off)
                    (frame_of header payload) x (omega arith),
            ))
    ]
