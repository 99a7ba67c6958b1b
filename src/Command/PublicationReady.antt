-- ===== src/Command/PublicationReady.antt =====
-- `PublicationReady`.
use aeron_rs.Prelude.{
  ℕ, ◌^◌, ◌≤◌, ◌<◌, ◌≡◌, Option, none, some, List, ◌++◌, arith, ltb, if◌then◌else◌, length, drop,
}
use aeron_rs.Prelude.Memory.{le_bytes, of_le-le_bytes_4, of_le-le_bytes_8}
use aeron_rs.Command.{field, publication_ready_length}

pub record PublicationReady : Type 0 where
  pub correlation_id : ℕ
  pub registration_id : ℕ
  pub session_id : ℕ
  pub stream_id : ℕ
  pub position_limit_counter_id : ℕ
  pub channel_status_indicator_id : ℕ

abbrev pub overlay : List ℕ → PublicationReady
overlay buf = record {
  correlation_id = field buf 0 8;
  registration_id = field buf 8 8;
  session_id = field buf 16 4;
  stream_id = field buf 20 4;
  position_limit_counter_id = field buf 24 4;
  channel_status_indicator_id = field buf 28 4;
}

abbrev pub bytes : PublicationReady → List ℕ
bytes h =
    le_bytes 8 h.correlation_id
    ++ (le_bytes 8 h.registration_id
        ++ (le_bytes 4 h.session_id
            ++ (le_bytes 4 h.stream_id
                ++ (le_bytes 4 h.position_limit_counter_id
                    ++ (le_bytes 4 h.channel_status_indicator_id)))))

pub encode : PublicationReady → List ℕ → Option ℕ × List ℕ
encode h buf =
    if ltb (length buf) publication_ready_length
    then (none, buf)
    else (some publication_ready_length, bytes h ++ drop publication_ready_length buf)

pub decode : List ℕ → Option PublicationReady
decode buf = if ltb (length buf) publication_ready_length then none else some (overlay buf)

-- The fields are values of their types.
pub record InRange (h : PublicationReady) : Type 0 where
  pub correlation_id : h.correlation_id < 2 ^ 64
  pub registration_id : h.registration_id < 2 ^ 64
  pub session_id : h.session_id < 2 ^ 32
  pub stream_id : h.stream_id < 2 ^ 32
  pub position_limit_counter_id : h.position_limit_counter_id < 2 ^ 32
  pub channel_status_indicator_id : h.channel_status_indicator_id < 2 ^ 32

overlay-bytes : (h : PublicationReady) (rest : List ℕ) → InRange h → overlay (bytes h ++ rest) ≡ h
overlay-bytes h rest v = λ i. record {
  correlation_id = of_le-le_bytes_8 _ v.correlation_id i;
  registration_id = of_le-le_bytes_8 _ v.registration_id i;
  session_id = of_le-le_bytes_4 _ v.session_id i;
  stream_id = of_le-le_bytes_4 _ v.stream_id i;
  position_limit_counter_id = of_le-le_bytes_4 _ v.position_limit_counter_id i;
  channel_status_indicator_id = of_le-le_bytes_4 _ v.channel_status_indicator_id i;
}

-- What is encoded is decoded.
pub decode-encode :
    (h : PublicationReady) (buf : List ℕ)
    → InRange h
    → publication_ready_length ≤ length buf
    → ((encode h buf).0 ≡ some publication_ready_length) × (decode (encode h buf).1 ≡ some h)
unfolding encode decode
decode-encode h buf v room =
    let e : overlay (bytes h ++ drop publication_ready_length buf) ≡ h =
      overlay-bytes h (drop publication_ready_length buf) v in
    ground (arith, e)
