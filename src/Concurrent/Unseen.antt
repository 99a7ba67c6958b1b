-- ===== src/Concurrent/Unseen.antt =====
-- What the sender sees of a frame between the publisher's stores.
use aeron_rs.Prelude.{
  ℕ, ◌+◌, ◌-◌, ◌*◌, ◌%◌, ◌^◌, ◌≤◌, ◌<◌, ◌≡◌, refl, sym, ap, ap₂, ◌∙◌, ◌⊎◌, inl, inr, List, [], ◌∷◌,
  ◌++◌, arith, length, drop,
}
use native.Mathlib.Nat.{add-zero}
use aeron_rs.Prelude.Word.{sub32}
use aeron_rs.Prelude.Memory.{
  Memory, write_bytes_apart, read_i32, read_i32-eq-zero, read_i32-write_bytes,
}
use aeron_rs.Frame.Data.{bytes}
use aeron_rs.Log.{ok, scan_frames, partition_index, pad_header}
use aeron_rs.Log.Append.{end_of}
use aeron_rs.Log.Layout.{Laid, Laid-ext, Stops, read_i32_ext}
use aeron_rs.Log.Scan.{taken, scan_frames_lem}
use aeron_rs.Publication.{NetworkPublication, sender_term_id, sender_term_offset}
use aeron_rs.Publication
use aeron_rs.Publication.Span.{Laid-other, off_le_last}
use aeron_rs.Publication.State.{At, Holds, sender_term_lem, product_lt}
use aeron_rs.Publication.Scan.{head_end, head_end_le}
use aeron_rs.Concurrent.{
  PublicationInner, ConcurrentPublication, SenderPublication, write_header, write_payload,
  write_pad_tail, commit, open_header, frame_base, sender_scan, offer, offer_stores, outcome,
  with_buffer, publish,
}
use aeron_rs.Concurrent.Same.{joined, Agree, went}
use aeron_rs.Concurrent.Scan.{sender_scan_same, sender_scan_calls}

-- A memory that differs from the publication's only behind the writer, where the next length word
-- is still zero.
pub record Open (p : NetworkPublication) (n : ℕ) (m : Memory) : Type 0 where
  pub same :
      (x : ℕ)
      → (x < n % 4 * p.term_length + p.term_offset) ⊎ (n % 4 * p.term_length + p.term_length ≤ x)
      → p.raw_log.buffer x ≡ m x
  pub uncommitted : read_i32 m (n % 4 * p.term_length + p.term_offset) ≡ 0

abbrev pub with_memory : NetworkPublication → Memory → NetworkPublication
with_memory p m = record p { raw_log = record p.raw_log { buffer = m } }

module _ (p : NetworkPublication) (m : Memory) where
  Open-Laid :
      (t off : ℕ) (fs : List (List ℕ)) (gs : List (List (List ℕ)))
      → At p t off fs gs
      → Open p (t + length gs) m
      → Laid m (t % 4 * p.term_length) off fs (head_end gs p.term_length p.term_offset)
  Open-Laid t off fs [] a o =
      Laid-ext p.raw_log.buffer m (t % 4 * p.term_length) off fs p.term_offset a.span
        (λ x lo hi. o.same x (inl (rw add-zero hi)))
  Open-Laid t off fs (g ∷ gs) a o =
      Laid-other p.raw_log.buffer m p.term_length (t + length (g ∷ gs)) t off fs p.term_length
        (λ x out. o.same x (omega (arith, out))) (omega (arith, a.ahead)) (omega arith) a.span.0

  Open-Stops :
      (t off : ℕ) (fs : List (List ℕ)) (gs : List (List (List ℕ)))
      → Open p (t + length gs) m
      → Stops m (t % 4 * p.term_length) p.term_length (head_end gs p.term_length p.term_offset)
  Open-Stops t off fs [] o = inr (rw add-zero at o.uncommitted)
  Open-Stops t off fs (g ∷ gs) o = inl refl

  scan_frames-Open :
      (t off limit : ℕ) (fs : List (List ℕ)) (gs : List (List (List ℕ)))
      → At p t off fs gs
      → off < p.term_length
      → Open p (t + length gs) m
      → scan_frames
          (record p.raw_log { buffer = m })
          (partition_index (sender_term_id p) p.initial_term_id)
          (sender_term_offset p)
          limit
        ≡ taken p.term_length limit off 0 fs
  scan_frames-Open t off limit fs gs a inside o =
      let e = sender_term_lem p t off fs gs a inside in
      ap₂ (λ i o. scan_frames (record p.raw_log { buffer = m }) i o limit) e.0 e.1
      ∙ scan_frames_lem (record p.raw_log { buffer = m }) (t % 4) off limit fs
          (head_end gs p.term_length p.term_offset) (omega arith)
          (rw a.log (Open-Laid t off fs gs a o))
          (rw a.log (head_end_le gs p.term_length p.term_offset a.offset))
          (rw a.log (Open-Stops t off fs gs o))
      ∙ ap (λ l. taken l limit off 0 fs) a.log

At-Open :
    (p : NetworkPublication) (t off : ℕ) (fs : List (List ℕ)) (gs : List (List (List ℕ)))
    → At p t off fs gs
    → p.term_offset < p.term_length
    → Open p (t + length gs) p.raw_log.buffer
At-Open p t off fs gs a room = record {
  same = λ x out. refl;
  uncommitted =
      read_i32-eq-zero p.raw_log.buffer _
        (λ x lo hi. a.clean x lo (omega (arith, room, hi, a.aligned, a.offset_aligned)));
}

inside :
    (p : NetworkPublication) (t off : ℕ) (fs : List (List ℕ)) (gs : List (List (List ℕ)))
    → At p t off fs gs
    → p.term_offset < p.term_length
    → off < p.term_length
inside p t off fs gs a room = elim a.sender_term [
  | inl h ↦ h
  | inr none ↦ omega (
    arith,
    off_le_last p.raw_log.buffer p.term_length t off fs gs p.term_offset a.span none,
    room,
  )
]

-- While the writer's term has room, a scan of a publication that holds frames hands on the same
-- from every memory that differs only behind the writer, where no length is committed yet.
pub scan_unseen :
    (p : NetworkPublication) (m : Memory) (q : List (List ℕ)) (limit : ℕ)
    → Holds p q
    → p.term_offset < p.term_length
    → Open p (sub32 p.active_term_id p.initial_term_id) m
    → (Publication.sender_scan (with_memory p m) limit).0 ≡ (Publication.sender_scan p limit).0
unfolding Publication.sender_scan
scan_unseen p m q limit (t, off, fs, gs, a, e) room o =
    let within = inside p t off fs gs a room in
    scan_frames-Open p m t off _ fs gs a within (rw a.term at o)
    ∙ sym
        (scan_frames-Open p p.raw_log.buffer t off _ fs gs a within (At-Open p t off fs gs a room))

Agree-with_buffer :
    (inner : PublicationInner) (c : ConcurrentPublication) (s : SenderPublication) (m : Memory)
    → Agree inner c s
    → Agree (with_buffer inner m) c s
Agree-with_buffer inner c s m v = record {
  log = v.log;
  large = v.large;
  aligned = v.aligned;
  offset = v.offset;
  offset_aligned = v.offset_aligned;
  payload = v.payload;
  published = v.published;
  scanned = v.scanned;
}

-- In each of these states a scan hands on what it does in `inner`.
abbrev pub ScansAs : SenderPublication → ℕ → PublicationInner → List PublicationInner → Type 0
ScansAs s limit inner [] = Unit
ScansAs s limit inner (i ∷ is) =
    ((sender_scan i s limit).0 ≡ (sender_scan inner s limit).0) × ScansAs s limit inner is

module _ (inner : PublicationInner) (c : ConcurrentPublication) (s : SenderPublication)
    (payload : List ℕ) (q : List (List ℕ)) (h : Holds (joined inner c s) q) where
  header_Open :
      c.term_offset + 32 ≤ inner.term_length
      → Open
          (joined inner c s)
          (sub32 c.active_term_id inner.initial_term_id)
          (write_header inner c).log.buffer
  header_Open room = record {
    same = λ x out. sym (
        write_bytes_apart inner.log.buffer (frame_base inner c) (bytes (open_header inner c)) x
          (omega arith));
    uncommitted =
        read_i32-write_bytes inner.log.buffer (frame_base inner c) 0
          (drop 4 (bytes (open_header inner c))) (omega arith);
  }

  payload_Open :
      end_of c.term_offset payload ≤ inner.term_length
      → Open
          (joined inner c s)
          (sub32 c.active_term_id inner.initial_term_id)
          (write_payload (write_header inner c) c payload).log.buffer
  payload_Open fits =
      let o = header_Open (omega arith) in
      record {
        same = λ x out.
            o.same x out
            ∙ sym (
                write_bytes_apart (write_header inner c).log.buffer (frame_base inner c + 32)
                  payload x (omega (arith, out)));
        uncommitted =
            sym (
              read_i32_ext (write_header inner c).log.buffer _ (frame_base inner c) (λ x lo hi.
                sym (
                  write_bytes_apart (write_header inner c).log.buffer (frame_base inner c + 32)
                    payload x (inl (omega arith)))))
            ∙ o.uncommitted;
      }

  pad_Open :
      c.term_offset + 32 ≤ inner.term_length
      → Open
          (joined inner c s)
          (sub32 c.active_term_id inner.initial_term_id)
          (write_pad_tail inner c).log.buffer
  pad_Open room =
      let (t, off, fs, gs, a, e) = h in
      let o = rw (← a.term) at (At-Open (joined inner c s) t off fs gs a (omega arith)) in
      record {
        same = λ x out. sym (
            write_bytes_apart inner.log.buffer (frame_base inner c + 4)
              (drop 4 (bytes (pad_header (inner.term_length - c.term_offset) c.term_offset))) x
              (omega (arith, out)));
        uncommitted =
            sym (
              read_i32_ext inner.log.buffer _ (frame_base inner c) (λ x lo hi. sym (
                write_bytes_apart inner.log.buffer (frame_base inner c + 4)
                  (drop 4 (bytes (pad_header (inner.term_length - c.term_offset) c.term_offset))) x
                  (inl (omega arith)))))
            ∙ o.uncommitted;
      }

  sender_below : s.sender_position_local < 2 ^ 64
  sender_below =
      let (t, off, fs, gs, a, e) = h in
      omega (
        arith,
        a.sender,
        a.sender_in,
        product_lt t inner.term_length (omega (arith, a.terms)) a.large,
      )

  unseen :
      (m : Memory) (limit : ℕ)
      → Agree inner c s
      → c.term_offset < inner.term_length
      → Open (joined inner c s) (sub32 c.active_term_id inner.initial_term_id) m
      → (sender_scan (with_buffer inner m) s limit).0 ≡ (sender_scan inner s limit).0
  unseen m limit v room o =
      ap (λ z. z.0)
        (sender_scan_same (with_buffer inner m) c s (Agree-with_buffer inner c s m v) limit
          sender_below)
      ∙ scan_unseen (joined inner c s) m q limit h room o
      ∙ sym (ap (λ z. z.0) (sender_scan_same inner c s v limit sender_below))

  -- The handles agree on the shared state, and the publication that they make up holds frames. An
  -- offer returns a position. Then the shared states between its stores are some in which a scan
  -- hands on what a scan before the offer does, followed by one or more in which it hands on what a
  -- scan after the offer does; in the first of these the length word of the frame holds the length of
  -- header and payload.
  pub offer_seen_at_commit :
      (position limit : ℕ)
      → Agree inner c s
      → (offer inner c payload).0 ≡ ok position
      → (before : List PublicationInner) × (committed : PublicationInner) × (after : List
          PublicationInner)
        × ((offer_stores inner c payload).0 ≡ before ++ committed ∷ after)
        × ScansAs s limit inner before
        × ScansAs s limit (offer inner c payload).1 (committed ∷ after)
        × (read_i32 committed.log.buffer (frame_base inner c) ≡ 32 + length payload)
  unfolding offer
  offer_seen_at_commit position limit v e =
      let (short, fits, made) = went inner c s v payload position e in
      let opened = write_header inner c in
      let filled = write_payload opened c payload in
      let written = commit filled c payload in
      (
        opened ∷ filled ∷ [],
        written,
        [],
        ap (λ z. z.0) made,
        (
          unseen _ limit v (omega arith) (header_Open (omega arith)),
          (unseen _ limit v (omega arith) (payload_Open fits), tt),
        ),
        (
          sender_scan_calls written s limit
              ∙ sym (sender_scan_calls (publish written c payload).0 s limit)
              ∙ ap (λ z. (sender_scan (outcome z).1 s limit).0) (sym made),
          tt,
        ),
        read_i32-write_bytes filled.log.buffer (frame_base inner c) ((32 + length payload) % 2 ^ 32)
              [] (omega arith)
            ∙ omega (arith, v.payload, short),
      )
