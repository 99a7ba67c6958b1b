-- ===== src/Log/Shared.antt =====
-- src/media/term_buffer.rs: the log buffer that a writer and a reader share, and the commit word. It
-- has the fields of a raw log. A `Release` store and an `Acquire` load of an aligned word are a write
-- and a read of its four bytes at once.
use aeron_rs.Prelude.{ℕ, ◌*◌, ◌^◌, Option, none, some, ltb, leb, not, ◌||◌, if◌then◌else◌}
use aeron_rs.Prelude.Memory.{Memory, write_bytes, fill_zero, read_i32, le_bytes}
use aeron_rs.Log.{RawLog, partition_count, min_term_length, is_power_of_two}

abbrev pub SharedLogBuffer : Type 0
SharedLogBuffer = RawLog

unfoldable pub new : ℕ → Option SharedLogBuffer
new term_length =
    if ltb term_length min_term_length || not (is_power_of_two term_length)
    then none
    else if leb (2 ^ 64) (term_length * partition_count)
    then none
    else some (record {
      buffer = λ _. 0;
      capacity = term_length * partition_count;
      term_length = term_length;
    })

unfoldable pub clean_partition : SharedLogBuffer → ℕ → SharedLogBuffer
clean_partition log partition_idx = if leb partition_count partition_idx then log else record log {
  buffer = fill_zero log.buffer (partition_idx * log.term_length) log.term_length;
}

abbrev pub atomic_frame_length_store : Memory → ℕ → ℕ → Memory
atomic_frame_length_store m offset value = write_bytes m offset (le_bytes 4 value)

abbrev pub atomic_frame_length_load : Memory → ℕ → ℕ
atomic_frame_length_load m offset = read_i32 m offset
