-- ===== src/Broadcast/Layout.antt =====
-- How the records of the broadcast buffer lie: the length in front of the type.
use aeron_rs.Prelude.{
  ℕ, ◌+◌, ◌-◌, ◌%◌, ◌^◌, ◌≤◌, ◌<◌, ◌≡◌, sym, ◌∙◌, ◌⊎◌, inl, inr, List, [], arith, length,
}
use aeron_rs.Prelude.Memory.{
  Memory, read_i32, read_bytes, read_bytes_ext, read_bytes-write_bytes, read_i32-write_bytes,
  write_bytes, write_bytes_apart, fill_zero, fill_zero_apart, le_bytes,
}
use aeron_rs.Log.Layout.{read_i32_ext}
use aeron_rs.Records
use aeron_rs.Records.{Entry, message, padding, size_of, align_record}
use aeron_rs.Broadcast.{msg_type_padding, write_i32, write_record, write_padding}

abbrev pub EntryAt : Memory → ℕ → Entry → Type 0
EntryAt m a (message msg_type payload) =
    (read_i32 m a ≡ length payload + 8)
    × (read_i32 m (a + 4) ≡ msg_type)
    × (read_bytes m (a + 8) (length payload) ≡ payload)
    × (msg_type < msg_type_padding)
    × (length payload + 8 < 2 ^ 31)
EntryAt m a (padding n) =
    (read_i32 m a ≡ n)
    × (read_i32 m (a + 4) ≡ msg_type_padding)
    × (32 ≤ n)
    × (n % 32 ≡ 0)
    × (n < 2 ^ 31)

pub EntryAt-ext :
    (m m' : Memory) (a : ℕ) (e : Entry)
    → EntryAt m a e
    → ((x : ℕ) → a ≤ x → x < a + size_of e → m x ≡ m' x)
    → EntryAt m' a e
EntryAt-ext m m' a (message msg_type payload) h same = (
  sym (read_i32_ext m m' a (λ x lo hi. same x lo (omega (arith, hi)))) ∙ h.0,
  sym (read_i32_ext m m' (a + 4) (λ x lo hi. same x (omega (arith, lo)) (omega (arith, hi)))) ∙ h.1,
  sym (
        read_bytes_ext m m' (a + 8) (length payload)
          (λ x lo hi. same x (omega (arith, lo)) (omega (arith, hi))))
      ∙ h.2,
  h.3,
  h.4,
)
EntryAt-ext m m' a (padding n) h same = (
  sym (read_i32_ext m m' a (λ x lo hi. same x lo (omega (arith, hi, h.2)))) ∙ h.0,
  sym (read_i32_ext m m' (a + 4) (λ x lo hi. same x (omega (arith, lo)) (omega (arith, hi, h.2))))
      ∙ h.1,
  h.2,
  h.3,
  h.4,
)

-- The buffer with a record but for its type.
abbrev pub without_type : Memory → ℕ → List ℕ → Memory
without_type m index payload =
    write_i32
      (write_bytes
        (fill_zero m (index + (length payload + 8))
          (align_record (length payload + 8) - (length payload + 8)))
        (index + 8) payload)
      index ((length payload + 8) % 2 ^ 32)

pub write_record_apart :
    (m : Memory) (index msg_type : ℕ) (payload : List ℕ) (x : ℕ)
    → (x < index) ⊎ (index + align_record (length payload + 8) ≤ x)
    → write_record m index msg_type payload x ≡ m x
write_record_apart m index msg_type payload x out =
    write_bytes_apart (without_type m index payload) (index + 4) (le_bytes 4 msg_type) x
      (omega (arith, out))
    ∙ write_bytes_apart _ index (le_bytes 4 ((length payload + 8) % 2 ^ 32)) x (omega (arith, out))
    ∙ write_bytes_apart _ (index + 8) payload x (omega (arith, out))
    ∙ fill_zero_apart m (index + (length payload + 8))
        (align_record (length payload + 8) - (length payload + 8)) x (omega (arith, out))

pub write_record-EntryAt :
    (m : Memory) (index msg_type : ℕ) (payload : List ℕ)
    → msg_type < msg_type_padding
    → length payload + 8 < 2 ^ 31
    → EntryAt (write_record m index msg_type payload) index (message msg_type payload)
write_record-EntryAt m index msg_type payload low small = (
  sym (
        read_i32_ext (without_type m index payload) _ index (λ x lo hi. sym (
          write_bytes_apart (without_type m index payload) (index + 4) (le_bytes 4 msg_type) x
            (inl (omega arith)))))
      ∙ read_i32-write_bytes _ index ((length payload + 8) % 2 ^ 32) [] (omega arith)
      ∙ omega (arith, small),
  read_i32-write_bytes (without_type m index payload) (index + 4) msg_type [] (omega arith),
  read_bytes_ext _ _ (index + 8) (length payload) (λ x lo hi.
        write_bytes_apart (without_type m index payload) (index + 4) (le_bytes 4 msg_type) x
          (inr (omega arith))
        ∙ write_bytes_apart _ index (le_bytes 4 ((length payload + 8) % 2 ^ 32)) x
            (inr (omega arith)))
      ∙ read_bytes-write_bytes _ (index + 8) payload,
  low,
  small,
)

pub write_padding_apart :
    (m : Memory) (index n x : ℕ)
    → 8 ≤ n
    → (x < index) ⊎ (index + n ≤ x)
    → write_padding m index n x ≡ m x
write_padding_apart m index n x room out =
    write_bytes_apart (write_i32 m index n) (index + 4) (le_bytes 4 msg_type_padding) x
      (omega (arith, out))
    ∙ write_bytes_apart m index (le_bytes 4 n) x (omega (arith, out))

pub write_padding-EntryAt :
    (m : Memory) (index n : ℕ)
    → 32 ≤ n
    → n % 32 ≡ 0
    → n < 2 ^ 31
    → EntryAt (write_padding m index n) index (padding n)
write_padding-EntryAt m index n le al small = (
  sym (
        read_i32_ext (write_i32 m index n) _ index (λ x lo hi. sym (
          write_bytes_apart (write_i32 m index n) (index + 4) (le_bytes 4 msg_type_padding) x
            (inl (omega arith)))))
      ∙ read_i32-write_bytes m index n [] (omega arith),
  read_i32-write_bytes (write_i32 m index n) (index + 4) msg_type_padding [] (omega arith),
  le,
  al,
  small,
)

abbrev pub Lay : Memory → ℕ → ℕ → List Entry → ℕ → Type 0
Lay = Records.Lay EntryAt
