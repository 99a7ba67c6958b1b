-- ===== src/Log/Stores.antt =====
-- The stores that a frame is written in over a shared log buffer, its length last, leave the frame.
use aeron_rs.Prelude.{ℕ, ◌+◌, ◌≡◌, refl, ap, ◌∙◌, List, drop}
use aeron_rs.Prelude.Memory.{
  Memory, write_bytes, write_bytes-append, write_bytes_swap, write_bytes_over, le_bytes,
}
use aeron_rs.Frame.Data.{DataHeader, bytes}
use aeron_rs.Log.{data_header_length, pad_header}
use aeron_rs.Log.Append.{frame_of}

-- The three stores of a frame leave its bytes.
pub frame_stores :
    (m : Memory) (base : ℕ) (h : DataHeader) (len : ℕ) (payload : List ℕ)
    → write_bytes
        (write_bytes
          (write_bytes m base
            (bytes (record h { frame_header = record h.frame_header { frame_length = 0 } })))
          (base + data_header_length)
          payload)
        base
        (le_bytes 4 len)
      ≡ write_bytes m base (
          frame_of
            (record h { frame_header = record h.frame_header { frame_length = len } })
            payload)
frame_stores m base h len payload =
    ap (λ m'. write_bytes m' base (le_bytes 4 len))
      (write_bytes-append m base
        (bytes (record h { frame_header = record h.frame_header { frame_length = 0 } })) payload)
    ∙ write_bytes_over m base (le_bytes 4 0) (le_bytes 4 len) _ refl

-- The two stores of a pad header leave its bytes.
pub pad_stores :
    (m : Memory) (base len off : ℕ)
    → write_bytes
        (write_bytes m (base + 4) (drop 4 (bytes (pad_header len off))))
        base
        (le_bytes 4 len)
      ≡ write_bytes m base (bytes (pad_header len off))
pad_stores m base len off =
    write_bytes_swap m base (le_bytes 4 len) (drop 4 (bytes (pad_header len off)))
