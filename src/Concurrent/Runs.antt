-- ===== src/Concurrent/Runs.antt =====
-- Runs of the two handles: offers and scans in any order, from a new publication on.
use aeron_rs.Prelude.{
  ℕ, ◌-◌, ◌*◌, ◌^◌, ◌≤◌, ◌<◌, ◌≡◌, refl, ap, ◌∙◌, Bool-cases, inl, inr, List, [], ◌∷◌, arith, ltb,
  some,
}
use aeron_rs.Log.{Result}
use aeron_rs.Log.New.{new_power}
use aeron_rs.Log.Shared
use aeron_rs.Log
use aeron_rs.Publication.{NetworkPublication, OfferError}
use aeron_rs.Publication
use aeron_rs.Publication.New.{fresh, fresh-Holds, built, zeros_below_power}
use aeron_rs.Concurrent.{
  PublicationInner, ConcurrentPublication, SenderPublication, new_concurrent, offer, sender_scan,
}
use aeron_rs.Concurrent.Same.{joined, Agree, offer_same, offer-Agree}
use aeron_rs.Concurrent.Scan.{sender_scan_same, found}

-- What the publisher or the sender calls.
pub data Call : Type 0 where
  offers : List ℕ → Call
  scans : ℕ → Call

-- What a call returns, and what it hands on.
pub data Outcome : Type 0 where
  offered : Result OfferError ℕ → Outcome
  scanned : List (ℕ × List ℕ) × ℕ → Outcome

-- The outcomes of the calls on the handles, and the publication they make up afterwards.
unfoldable pub run_handles :
    PublicationInner
    → ConcurrentPublication
    → SenderPublication
    → List Call
    → List Outcome × NetworkPublication
run_handles inner c s [] = ([], joined inner c s)
run_handles inner c s (offers payload ∷ rest) =
    let (r, inner', c') = offer inner c payload in
    let (outcomes, p) = run_handles inner' c' s rest in (offered r ∷ outcomes, p)
run_handles inner c s (scans limit ∷ rest) =
    let (r, inner', s') = sender_scan inner s limit in
    let (outcomes, p) = run_handles inner' c s' rest in (scanned r ∷ outcomes, p)

-- The same of one network publication.
unfoldable pub run_publication : NetworkPublication → List Call → List Outcome × NetworkPublication
run_publication p [] = ([], p)
run_publication p (offers payload ∷ rest) =
    let (r, p') = Publication.offer p payload in
    let (outcomes, last) = run_publication p' rest in (offered r ∷ outcomes, last)
run_publication p (scans limit ∷ rest) =
    let (r, p') = Publication.sender_scan p limit in
    let (outcomes, last) = run_publication p' rest in (scanned r ∷ outcomes, last)

scan-Agree :
    (inner : PublicationInner) (c : ConcurrentPublication) (s : SenderPublication) (limit : ℕ)
    → Agree inner c s
    → s.sender_position_local < 2 ^ 64
    → Agree (sender_scan inner s limit).1 c (sender_scan inner s limit).2
      × ((sender_scan inner s limit).2.sender_position_local < 2 ^ 64)
unfolding sender_scan
scan-Agree inner c s limit v below = elim (Bool-cases (ltb 0 (found inner s limit).1)) [
  | inl some_bytes ↦ simp some_bytes (
    record {
      log = v.log;
      large = v.large;
      aligned = v.aligned;
      offset = v.offset;
      offset_aligned = v.offset_aligned;
      payload = v.payload;
      published = v.published;
      scanned = refl;
    },
    omega arith,
  )
  | inr nothing ↦ simp nothing (v, below)
]

pub run_same :
    (inner : PublicationInner) (c : ConcurrentPublication) (s : SenderPublication)
    (calls : List Call)
    → Agree inner c s
    → s.sender_position_local < 2 ^ 64
    → run_handles inner c s calls ≡ run_publication (joined inner c s) calls
unfolding run_handles run_publication
run_same inner c s [] v below = refl
run_same inner c s (offers payload ∷ rest) v below =
    ap (λ r. (offered (offer inner c payload).0 ∷ r.0, r.1))
      (run_same (offer inner c payload).1 (offer inner c payload).2 s rest
        (offer-Agree inner c s v payload) below)
    ∙ ap (λ z. let (outcomes, last) = run_publication z.1 rest in (offered z.0 ∷ outcomes, last))
        (offer_same inner c s v payload)
run_same inner c s (scans limit ∷ rest) v below =
    let (w, low) = scan-Agree inner c s limit v below in
    ap (λ r. (scanned (sender_scan inner s limit).0 ∷ r.0, r.1))
      (run_same (sender_scan inner s limit).1 c (sender_scan inner s limit).2 rest w low)
    ∙ ap (λ z. let (outcomes, last) = run_publication z.1 rest in (scanned z.0 ∷ outcomes, last))
        (sender_scan_same inner c s v limit below)

-- The shared state of a new publication with terms of 2 ^ k bytes.
abbrev pub fresh_inner : ℕ → ℕ → ℕ → ℕ → ℕ → PublicationInner
fresh_inner session_id stream_id initial_term_id k mtu = record {
  log = record { buffer = λ _. 0; capacity = 2 ^ k * 4; term_length = 2 ^ k };
  pub_position = 0;
  sender_position = 0;
  initial_term_id = initial_term_id;
  term_length = 2 ^ k;
  term_length_mask = 2 ^ k - 1;
  position_bits_to_shift = k;
  session_id = session_id;
  stream_id = stream_id;
  mtu = mtu;
  max_payload_length = mtu - 32;
}

abbrev pub fresh_publisher : ℕ → ConcurrentPublication
fresh_publisher initial_term_id = record {
  active_term_id = initial_term_id;
  term_offset = 0;
  pub_position_local = 0;
}

abbrev pub fresh_sender : SenderPublication
fresh_sender = record { sender_position_local = 0 }

pub shared_new : (term_length : ℕ) → Shared.new term_length ≡ Log.new term_length
unfolding Shared.new Log.new
shared_new term_length = refl

new_concurrent_power :
    (session_id stream_id initial_term_id k mtu : ℕ)
    → 5 ≤ k
    → k ≤ 30
    → 32 ≤ mtu
    → new_concurrent session_id stream_id initial_term_id (2 ^ k) mtu
      ≡ some (
        fresh_inner session_id stream_id initial_term_id k mtu,
        fresh_publisher initial_term_id,
        fresh_sender,
      )
unfolding new_concurrent
new_concurrent_power session_id stream_id initial_term_id k mtu lo up room =
    rw (shared_new (2 ^ k), new_power k lo (omega arith), zeros_below_power 32 k (omega arith))
      (ground arith)

-- For a term length of 2 ^ k between 32 bytes and 1 GiB, and an MTU that has room for a header and
-- fits a term, the pair of handles and the network publication are both made, and any sequence of
-- offers and scans has the same outcomes on them and leaves the same publication.
pub runs_agree :
    (session_id stream_id initial_term_id k mtu : ℕ) (calls : List Call)
    → initial_term_id < 2 ^ 32
    → 5 ≤ k
    → k ≤ 30
    → 32 ≤ mtu
    → mtu ≤ 2 ^ k
    → (new_concurrent session_id stream_id initial_term_id (2 ^ k) mtu
        ≡ some (
          fresh_inner session_id stream_id initial_term_id k mtu,
          fresh_publisher initial_term_id,
          fresh_sender,
        ))
      × (Publication.new session_id stream_id initial_term_id (2 ^ k) mtu
          ≡ some (fresh session_id stream_id initial_term_id k mtu))
      × (run_handles
            (fresh_inner session_id stream_id initial_term_id k mtu)
            (fresh_publisher initial_term_id)
            fresh_sender
            calls
          ≡ run_publication (fresh session_id stream_id initial_term_id k mtu) calls)
runs_agree session_id stream_id initial_term_id k mtu calls hi lo up room fits =
    let (t, off, fs, gs, a, e) =
      fresh-Holds session_id stream_id initial_term_id k mtu hi lo up room fits in
    (
      new_concurrent_power session_id stream_id initial_term_id k mtu lo up room,
      built session_id stream_id initial_term_id k mtu lo (omega arith) room,
      run_same (fresh_inner session_id stream_id initial_term_id k mtu)
          (fresh_publisher initial_term_id) fresh_sender calls
          (record {
            log = refl;
            large = a.large;
            aligned = a.aligned;
            offset = omega arith;
            offset_aligned = refl;
            payload = omega (arith, a.large);
            published = refl;
            scanned = refl;
          })
          (omega arith),
    )
