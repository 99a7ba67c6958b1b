-- ===== src/Concurrent/Scan.antt =====
-- The sender's handle: its scan, and what it hands on while a frame is being written.
use aeron_rs.Prelude.{
  ℕ, ◌-◌, ◌*◌, ◌^◌, ◌<◌, ◌≡◌, refl, sym, ap, ◌∙◌, Bool-cases, inl, inr, List, arith, ltb,
  if◌then◌else◌,
}
use aeron_rs.Prelude.Word.{add64}
use aeron_rs.Log.{RawLog, scan_loop, scan_frames, partition_index}
use aeron_rs.Publication.{NetworkPublication}
use aeron_rs.Publication
use aeron_rs.Concurrent.{
  PublicationInner, ConcurrentPublication, SenderPublication, sender_scan, sender_term_id,
  sender_term_offset,
}
use aeron_rs.Concurrent.Same.{joined, Agree}

abbrev pub scan_both :
    (List (ℕ × List ℕ) × ℕ) × PublicationInner × SenderPublication
    → ConcurrentPublication
    → (List (ℕ × List ℕ) × ℕ) × NetworkPublication
scan_both z c = (z.0, joined z.1 c z.2)

scan_frames_in :
    (log : RawLog) (idx off limit : ℕ)
    → idx < 4
    → scan_frames log idx off limit
      ≡ scan_loop log.term_length log.buffer (idx * log.term_length) log.term_length limit off 0
unfolding scan_frames
scan_frames_in log idx off limit h = ground arith

module _ (inner : PublicationInner) (s : SenderPublication) where
  abbrev scan_limit : ℕ → ℕ
  scan_limit limit =
      let remaining_in_term = inner.term_length - sender_term_offset inner s in
      if ltb limit remaining_in_term then limit else remaining_in_term

  abbrev pub found : ℕ → List (ℕ × List ℕ) × ℕ
  found limit =
      scan_loop inner.term_length inner.log.buffer
        (partition_index (sender_term_id inner s) inner.initial_term_id * inner.term_length)
        inner.term_length (scan_limit limit) (sender_term_offset inner s) 0

  pub sender_scan_calls : (limit : ℕ) → (sender_scan inner s limit).0 ≡ found limit
  unfolding sender_scan
  sender_scan_calls limit = elim (Bool-cases (ltb 0 (found limit).1)) [
    | inl some_bytes ↦ simp some_bytes refl
    | inr nothing ↦ simp nothing refl
  ]

module _ (inner : PublicationInner) (c : ConcurrentPublication) (s : SenderPublication)
    (v : Agree inner c s) where
  abbrev passed : List (ℕ × List ℕ) × ℕ → ℕ → (List (ℕ × List ℕ) × ℕ) × NetworkPublication
  passed r position = (r, record (joined inner c s) { sender_position = position })

  found_same :
      (limit : ℕ)
      → scan_frames inner.log
          (partition_index (sender_term_id inner s) inner.initial_term_id)
          (sender_term_offset inner s)
          (scan_limit inner s limit)
        ≡ found inner s limit
  found_same limit =
      scan_frames_in inner.log (partition_index (sender_term_id inner s) inner.initial_term_id)
        (sender_term_offset inner s) (scan_limit inner s limit) (omega arith)
      ∙ ap
          (λ l.
            scan_loop l inner.log.buffer
              (partition_index (sender_term_id inner s) inner.initial_term_id * l) l
              (scan_limit inner s limit) (sender_term_offset inner s) 0)
          v.log

  scan_steps :
      (limit : ℕ)
      → s.sender_position_local < 2 ^ 64
      → scan_both (sender_scan inner s limit) c
        ≡ passed (found inner s limit) (add64 s.sender_position_local (found inner s limit).1)
  unfolding sender_scan
  scan_steps limit h = elim (Bool-cases (ltb 0 (found inner s limit).1)) [
    | inl some_bytes ↦ simp some_bytes refl
    | inr nothing ↦ simp nothing (ap (passed (found inner s limit)) (ground arith))
  ]

  -- The sender's scan of the handles is that of the network publication they make up.
  pub sender_scan_same :
      (limit : ℕ)
      → s.sender_position_local < 2 ^ 64
      → scan_both (sender_scan inner s limit) c ≡ Publication.sender_scan (joined inner c s) limit
  unfolding Publication.sender_scan
  sender_scan_same limit h =
      scan_steps limit h
      ∙ ap (λ r. passed r (add64 s.sender_position_local r.1)) (sym (found_same limit))
