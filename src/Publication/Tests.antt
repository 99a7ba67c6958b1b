-- ===== src/Publication/Tests.antt =====
-- Runs of a publication, and its theorems at concrete inputs.
use aeron_rs.Prelude.{ℕ, ◌≡◌, refl, List, [], ◌∷◌, arith, replicate}
use aeron_rs.Log.{
  err, append_frame, write_pad_frame, clean_partition, scan_frames, scan_loop, frame_length_at,
}
use aeron_rs.Prelude.Memory.{read_i32, read_bytes, write_bytes, fill_zero}
use aeron_rs.Publication.{
  NetworkPublication, admin_action, new, offer, appended, compute_position, rotate_term,
  sender_scan,
}
use aeron_rs.Publication.State.{Holds}
use aeron_rs.Publication.Offer.{Offered, offered_frame, offer_lem}
use aeron_rs.Publication.Scan.{Scanned, sender_scan_lem}
use aeron_rs.Publication.New.{fresh, fresh-Holds, Created, new_lem}
use aeron_rs.Publication.Lapped.{IsLapped, offer_laps_sender}

-- Terms of 64 bytes, session 42, stream 7.
abbrev small : NetworkPublication
small = fresh 42 7 0 6 64

abbrev message : List ℕ
message = 1 ∷ 2 ∷ 3 ∷ []

new_lem_example : Created 42 7 0 64 64 (new 42 7 0 64 64)
new_lem_example = new_lem 42 7 0 64 64

small-Holds : Holds small []
small-Holds =
    fresh-Holds 42 7 0 6 64 (omega arith) (omega arith) (omega arith) (omega arith) (omega arith)

offer_lem_example : Offered small message [] (offer small message)
offer_lem_example = offer_lem small message [] small-Holds (omega arith)

-- After one message.
abbrev one : NetworkPublication
one = (offer small message).1

one-Holds : Holds one (offered_frame small message ∷ [])
unfolding offer appended append_frame
one-Holds = offer_lem_example.0

sender_scan_lem_example : Scanned one (offered_frame small message ∷ []) (sender_scan one 32)
unfolding offer appended append_frame compute_position
sender_scan_lem_example =
    sender_scan_lem one 32 (offered_frame small message ∷ []) one-Holds (omega arith) (omega arith)

offer_all : NetworkPublication → List ℕ → NetworkPublication
offer_all p [] = p
offer_all p (n ∷ ns) = offer_all (offer p (replicate n 9)).1 ns

-- Three terms of 128 bytes in frames of 32, then two such frames; the sender took 96 bytes of the
-- first term.
abbrev lapped : NetworkPublication
lapped =
    offer_all (sender_scan (offer_all (fresh 42 7 0 7 128) (replicate 4 0)) 96).1 (replicate 13 0)

lapped_run :
    (lapped.sender_position ≡ 96)
    × (lapped.pub_position ≡ 448)
    × ((sender_scan lapped 128).0.1 ≡ 32)
    × ((offer lapped (replicate 33 9)).0 ≡ err admin_action)
    × ((sender_scan (offer lapped (replicate 33 9)).1 128).0 ≡ ([], 0))
unfolding offer_all offer appended append_frame compute_position rotate_term sender_scan scan_frames
    scan_loop frame_length_at read_i32 read_bytes write_bytes fill_zero write_pad_frame
    clean_partition
lapped_run = (refl, refl, refl, refl, refl)

lapped-IsLapped : IsLapped lapped (replicate 33 9) 0 96
unfolding offer_all offer appended append_frame compute_position rotate_term sender_scan scan_frames
    scan_loop frame_length_at read_i32 read_bytes write_bytes fill_zero write_pad_frame
    clean_partition
lapped-IsLapped = record {
  power = refl;
  aligned = refl;
  at_frame = refl;
  positive = omega arith;
  large = omega arith;
  log = refl;
  mask = refl;
  initial = omega arith;
  active = omega arith;
  term = refl;
  terms = omega arith;
  sender = refl;
  inside = omega arith;
  published = refl;
  before = omega arith;
  short = omega arith;
  small = omega arith;
  full = omega arith;
}

offer_laps_sender_example :
    ((offer lapped (replicate 33 9)).0 ≡ err admin_action)
    × ((sender_scan (offer lapped (replicate 33 9)).1 128).0 ≡ ([], 0))
offer_laps_sender_example = offer_laps_sender lapped (replicate 33 9) 0 96 128 lapped-IsLapped
