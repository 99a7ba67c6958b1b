-- ===== src/Command/AddPublication.antt =====
-- `AddPublication`.
use aeron_rs.Prelude.{
  ℕ, Bool, ◌-◌, ◌^◌, ◌≤◌, ◌<◌, ◌≡◌, refl, Option, none, some, List, ◌++◌, arith, ltb, if◌then◌else◌,
  length, take, drop, replicate, length-append, take-append, ap, ltb-false,
}
use aeron_rs.Prelude.Word.{sign_extend}
use aeron_rs.Prelude.Memory.{le_bytes, of_le-le_bytes_4, of_le-le_bytes_8, sign_extend-of_le}
use aeron_rs.Command.{from_utf8, field, add_publication_length, max_channel_uri_length}

pub record AddPublication : Type 0 where
  pub correlation_id : ℕ
  pub client_id : ℕ
  pub stream_id : ℕ
  pub channel_uri_len : ℕ
  pub channel_uri : List ℕ

abbrev pub overlay : List ℕ → AddPublication
overlay buf = record {
  correlation_id = field buf 0 8;
  client_id = field buf 8 8;
  stream_id = field buf 16 4;
  channel_uri_len = sign_extend (field buf 20 4);
  channel_uri = take max_channel_uri_length (drop 24 buf);
}

abbrev pub bytes : AddPublication → List ℕ
bytes h =
    le_bytes 8 h.correlation_id
    ++ (le_bytes 8 h.client_id
        ++ (le_bytes 4 h.stream_id ++ (le_bytes 4 h.channel_uri_len ++ (h.channel_uri))))

pub encode : AddPublication → List ℕ → Option ℕ × List ℕ
encode h buf =
    if ltb (length buf) add_publication_length
    then (none, buf)
    else (some add_publication_length, bytes h ++ drop add_publication_length buf)

pub decode : List ℕ → Option AddPublication
decode buf =
    if ltb (length buf) add_publication_length
    then none
    else if ltb max_channel_uri_length (overlay buf).channel_uri_len
    then none
    else some (overlay buf)

abbrev pub channel_str : (List ℕ → Bool) → AddPublication → Option (List ℕ)
channel_str is_utf8 h = from_utf8 is_utf8 (take h.channel_uri_len h.channel_uri)

unfoldable pub from_channel : ℕ → ℕ → ℕ → List ℕ → Option AddPublication
from_channel correlation_id client_id stream_id channel =
    if ltb max_channel_uri_length (length channel)
    then none
    else some (record {
      correlation_id = correlation_id;
      client_id = client_id;
      stream_id = stream_id;
      channel_uri_len = length channel;
      channel_uri = channel ++ replicate (max_channel_uri_length - length channel) 0;
    })

-- The fields are values of their types, and a length is that of its text.
pub record InRange (h : AddPublication) : Type 0 where
  pub correlation_id : h.correlation_id < 2 ^ 64
  pub client_id : h.client_id < 2 ^ 64
  pub stream_id : h.stream_id < 2 ^ 32
  pub channel_uri_len : h.channel_uri_len ≤ max_channel_uri_length
  pub channel_uri : length h.channel_uri ≡ max_channel_uri_length

overlay-bytes : (h : AddPublication) (rest : List ℕ) → InRange h → overlay (bytes h ++ rest) ≡ h
overlay-bytes h rest v = λ i. record {
  correlation_id = of_le-le_bytes_8 _ v.correlation_id i;
  client_id = of_le-le_bytes_8 _ v.client_id i;
  stream_id = of_le-le_bytes_4 _ v.stream_id i;
  channel_uri_len = sign_extend-of_le h.channel_uri_len (omega (arith, v.channel_uri_len)) i;
  channel_uri = take-append h.channel_uri rest v.channel_uri i;
}

decode_room :
    (h : AddPublication) (buf : List ℕ)
    → overlay buf ≡ h
    → add_publication_length ≤ length buf
    → h.channel_uri_len ≤ max_channel_uri_length
    → decode buf ≡ some h
unfolding decode
decode_room h buf e room fits =
    let r = ltb-false (length buf) add_publication_length room in
    let q =
      ltb-false max_channel_uri_length (overlay buf).channel_uri_len
        (omega (arith, ap (λ x. x.channel_uri_len) e, fits)) in
    simp (r, q) (ap some e)

-- What is encoded is decoded.
pub decode-encode :
    (h : AddPublication) (buf : List ℕ)
    → InRange h
    → add_publication_length ≤ length buf
    → ((encode h buf).0 ≡ some add_publication_length) × (decode (encode h buf).1 ≡ some h)
unfolding encode
decode-encode h buf v room =
    let e : overlay (bytes h ++ drop add_publication_length buf) ≡ h =
      overlay-bytes h (drop add_publication_length buf) v in
    simp (ltb-false (length buf) add_publication_length room) (
      refl,
      decode_room h (bytes h ++ drop add_publication_length buf) e
          (omega
            (arith, length-append h.channel_uri (drop add_publication_length buf), v.channel_uri))
          v.channel_uri_len,
    )
