-- ===== src/Concurrent/Tests.antt =====
-- Runs of the two handles, and their theorems at concrete inputs.
use aeron_rs.Prelude.{ℕ, ◌≡◌, refl, some, List, [], ◌∷◌, ◌++◌, arith, replicate}
use aeron_rs.Log.{ok, scan_loop, frame_length_at}
use aeron_rs.Prelude.Memory.{read_i32, read_bytes, write_bytes, fill_zero}
use aeron_rs.Log.Shared
use aeron_rs.Publication
use aeron_rs.Publication.New.{fresh, fresh-Holds}
use aeron_rs.Concurrent.{
  PublicationInner, ConcurrentPublication, new_concurrent, offer, sender_scan, offer_stores,
  frame_base, compute_position, rotate_term,
}
use aeron_rs.Concurrent.Same.{Agree}
use aeron_rs.Concurrent.Runs.{
  Call, offers, scans, run_handles, run_publication, fresh_inner, fresh_publisher, fresh_sender,
  runs_agree,
}
use aeron_rs.Concurrent.Unseen.{ScansAs, offer_seen_at_commit}

-- Terms of 64 bytes, session 42, stream 7.
abbrev small : PublicationInner
small = fresh_inner 42 7 0 6 64

abbrev writer : ConcurrentPublication
writer = fresh_publisher 0

small-Agree : Agree small writer fresh_sender
small-Agree = record {
  log = refl;
  large = omega arith;
  aligned = refl;
  offset = omega arith;
  offset_aligned = refl;
  payload = omega arith;
  published = refl;
  scanned = refl;
}

abbrev message : List ℕ
message = 1 ∷ 2 ∷ 3 ∷ []

abbrev calls : List Call
calls = offers message ∷ scans 64 ∷ offers (replicate 40 9) ∷ scans 64 ∷ []

-- A frame of 64 bytes, taken by one scan.
small_run :
    ((offer small writer message).0 ≡ ok 64)
    × ((sender_scan (offer small writer message).1 fresh_sender 64).0.1 ≡ 64)
    × ((sender_scan small fresh_sender 64).0 ≡ ([], 0))
unfolding offer offer_stores sender_scan compute_position rotate_term scan_loop frame_length_at
    read_i32 read_bytes write_bytes fill_zero Shared.clean_partition
small_run = (refl, refl, refl)

runs_agree_example :
    (new_concurrent 42 7 0 64 64 ≡ some (small, writer, fresh_sender))
    × (Publication.new 42 7 0 64 64 ≡ some (fresh 42 7 0 6 64))
    × (run_handles small writer fresh_sender calls ≡ run_publication (fresh 42 7 0 6 64) calls)
runs_agree_example =
    runs_agree 42 7 0 6 64 calls (omega arith) (omega arith) (omega arith) (omega arith)
      (omega arith)

offer_seen_at_commit_example :
    (before : List PublicationInner) × (committed : PublicationInner) × (after : List
      PublicationInner)
    × ((offer_stores small writer message).0 ≡ before ++ committed ∷ after)
    × ScansAs fresh_sender 64 small before
    × ScansAs fresh_sender 64 (offer small writer message).1 (committed ∷ after)
    × (read_i32 committed.log.buffer (frame_base small writer) ≡ 35)
offer_seen_at_commit_example =
    offer_seen_at_commit small writer fresh_sender message []
      (fresh-Holds 42 7 0 6 64 (omega arith) (omega arith) (omega arith) (omega arith)
        (omega arith))
      64 64 small-Agree small_run.0
