-- ===== src/Publication/Lapped.antt =====
-- The guard of `offer` counts from the publication position, and so lets the writer enter the term
-- whose partition the sender still reads.
use aeron_rs.Prelude.{
  ℕ, ◌+◌, ◌-◌, ◌*◌, ◌%◌, ◌^◌, ◌≤◌, ◌<◌, ◌≡◌, refl, ap, ap₂, ◌∙◌, List, [], true, arith, length, ltb,
  if◌then◌else◌,
}
use aeron_rs.Prelude.Word.{add32, sub64, lt_i64}
use aeron_rs.Prelude.Memory.{read_i32, read_i32-eq-zero, fill_zero, fill_zero_at}
use aeron_rs.Log.{err, partition_index, write_pad_frame, scan_frames}
use aeron_rs.Log.Append.{end_of, append_frame-full}
use aeron_rs.Log.Pad.{clean_partition_lem, term_length-write_pad_frame}
use aeron_rs.Log.Scan.{scan_frames-nil}
use aeron_rs.Publication.{
  NetworkPublication, admin_action, data_header, appended, offer, rotate_term, sender_scan,
  sender_term_id, sender_term_offset,
}
use aeron_rs.Publication.Offer.{offer_tries}
use aeron_rs.Publication.State.{term_count, product_lt, term_of_position, mod_of_term}

-- The sender stands at `off` of term `t`, the writer three terms later and, in its term, before
-- `off`; the payload does not fit the writer's term.
pub record IsLapped (p : NetworkPublication) (payload : List ℕ) (t off : ℕ) : Type 0 where
  pub power : p.term_length ≡ 2 ^ p.position_bits_to_shift
  pub aligned : p.term_length % 32 ≡ 0
  pub at_frame : off % 32 ≡ 0
  pub positive : 32 ≤ p.term_length
  pub large : p.term_length ≤ 2 ^ 30
  pub log : p.raw_log.term_length ≡ p.term_length
  pub mask : p.term_length_mask + 1 ≡ p.term_length
  pub initial : p.initial_term_id < 2 ^ 32
  pub active : p.active_term_id < 2 ^ 32
  pub term : term_count p ≡ t + 3
  pub terms : t + 4 < 2 ^ 31
  pub sender : p.sender_position ≡ t * p.term_length + off
  pub inside : off < p.term_length
  pub published : p.pub_position ≡ (t + 3) * p.term_length + p.term_offset
  pub before : p.term_offset < off
  pub short : length payload ≤ p.max_payload_length
  pub small : p.max_payload_length < 2 ^ 30
  pub full : p.term_length < end_of p.term_offset payload

not_pressed :
    (a b m : ℕ) → a ≤ 2 ^ 62 → b ≤ 2 ^ 62 → m ≤ 2 ^ 62 → a < b + m → lt_i64 (sub64 a b) m ≡ true
not_pressed a b m ha hb hm h = ground arith

module _ (p : NetworkPublication) (payload : List ℕ) (t off : ℕ)
    (l : IsLapped p payload t off) where
  abbrev entered : NetworkPublication
  entered = rotate_term (record p {
    raw_log =
        write_pad_frame p.raw_log (partition_index p.active_term_id p.initial_term_id)
          p.term_offset;
  })

  admitted : offer p payload ≡ (err admin_action, entered)
  admitted =
      offer_tries p payload l.short (
        not_pressed p.pub_position p.sender_position (p.term_length * 3)
          (omega (
            arith,
            l.published,
            l.before,
            l.inside,
            product_lt (t + 3) p.term_length (omega (arith, l.terms)) l.large,
          ))
          (omega (
            arith,
            l.sender,
            l.inside,
            product_lt t p.term_length (omega (arith, l.terms)) l.large,
          ))
          (omega (arith, l.large)) (omega (arith, l.published, l.sender, l.before)))
      ∙ ap (appended p) (
          append_frame-full p.raw_log (partition_index p.active_term_id p.initial_term_id)
            p.term_offset (data_header p payload) payload (omega arith)
            (omega (arith, l.large, l.log)) (omega (arith, l.log, l.before, l.inside))
            (omega (arith, l.short, l.small)) (omega (arith, l.log, l.full)))
      ∙ (unfold appended in refl)

  entered_index : partition_index (add32 p.active_term_id 1) p.initial_term_id ≡ t % 4
  entered_index = omega (arith, l.term, l.active, l.initial, l.terms)

  entered_log :
      entered.raw_log.buffer
      ≡ fill_zero
          (write_pad_frame p.raw_log
            (partition_index p.active_term_id p.initial_term_id)
            p.term_offset).buffer
          (t % 4 * p.term_length)
          p.term_length
  unfolding rotate_term
  entered_log =
      ap (λ r. r.buffer)
        (clean_partition_lem
          (write_pad_frame p.raw_log (partition_index p.active_term_id p.initial_term_id)
            p.term_offset)
          (partition_index (add32 p.active_term_id 1) p.initial_term_id) (omega arith))
      ∙ ap₂
          (λ n k.
            fill_zero
              (write_pad_frame p.raw_log (partition_index p.active_term_id p.initial_term_id)
                p.term_offset).buffer
              (n * k) k)
          entered_index (term_length-write_pad_frame p.raw_log _ p.term_offset ∙ l.log)

  entered_length : entered.raw_log.term_length ≡ p.term_length
  unfolding rotate_term
  entered_length =
      ap (λ r. r.term_length)
        (clean_partition_lem
          (write_pad_frame p.raw_log (partition_index p.active_term_id p.initial_term_id)
            p.term_offset)
          (partition_index (add32 p.active_term_id 1) p.initial_term_id) (omega arith))
      ∙ term_length-write_pad_frame p.raw_log _ p.term_offset
      ∙ l.log

  -- The word at the sender is zero.
  cleaned : read_i32 entered.raw_log.buffer (t % 4 * entered.raw_log.term_length + off) ≡ 0
  cleaned = rw entered_length (
      read_i32-eq-zero _ _ (λ x lo hi.
        ap (λ m. m x) entered_log
        ∙ fill_zero_at _ (t % 4 * p.term_length) p.term_length x (omega arith)
            (omega (arith, l.inside, l.aligned, l.at_frame))))

  scans_nothing : (limit : ℕ) → (sender_scan entered limit).0 ≡ ([], 0)
  unfolding sender_scan rotate_term
  scans_nothing limit =
      ap₂ (λ i o. scan_frames entered.raw_log i o (effective limit)) place.0 place.1
      ∙ scan_frames-nil entered.raw_log (t % 4) off _ cleaned
    where
      place :
          (partition_index (sender_term_id p) p.initial_term_id ≡ t % 4)
          × (sender_term_offset p ≡ off)
      place = (
        ap (λ n. n % 4)
            (term_of_position p.initial_term_id t p.term_length off p.position_bits_to_shift
              p.sender_position l.power l.initial (omega (arith, l.terms)) l.large l.inside
              l.sender),
        rw (l.mask, l.sender) (mod_of_term t p.term_length off l.inside),
      )

      effective : ℕ → ℕ
      effective n =
          if ltb n (p.term_length - sender_term_offset p)
          then n
          else p.term_length - sender_term_offset p

-- With the sender three terms behind, further into its term than the writer is into its own,
-- `offer` is not back-pressured by a payload that does not fit: it enters the next term and zeroes
-- the partition that the sender reads. No scan finds a frame there any more, whatever was waiting.
pub offer_laps_sender :
    (p : NetworkPublication) (payload : List ℕ) (t off limit : ℕ)
    → IsLapped p payload t off
    → ((offer p payload).0 ≡ err admin_action)
      × ((sender_scan (offer p payload).1 limit).0 ≡ ([], 0))
offer_laps_sender p payload t off limit l = (
  ap (λ r. r.0) (admitted p payload t off l),
  ap (λ r. (sender_scan r.1 limit).0) (admitted p payload t off l)
      ∙ scans_nothing p payload t off l limit,
)
