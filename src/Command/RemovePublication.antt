-- ===== src/Command/RemovePublication.antt =====
-- `RemovePublication`.
use aeron_rs.Prelude.{
  ℕ, ◌^◌, ◌≤◌, ◌<◌, ◌≡◌, Option, none, some, List, ◌++◌, arith, ltb, if◌then◌else◌, length, drop,
}
use aeron_rs.Prelude.Memory.{le_bytes, of_le-le_bytes_8}
use aeron_rs.Command.{field, remove_publication_length}

pub record RemovePublication : Type 0 where
  pub correlation_id : ℕ
  pub client_id : ℕ
  pub registration_id : ℕ

abbrev pub overlay : List ℕ → RemovePublication
overlay buf = record {
  correlation_id = field buf 0 8;
  client_id = field buf 8 8;
  registration_id = field buf 16 8;
}

abbrev pub bytes : RemovePublication → List ℕ
bytes h = le_bytes 8 h.correlation_id ++ (le_bytes 8 h.client_id ++ (le_bytes 8 h.registration_id))

pub encode : RemovePublication → List ℕ → Option ℕ × List ℕ
encode h buf =
    if ltb (length buf) remove_publication_length
    then (none, buf)
    else (some remove_publication_length, bytes h ++ drop remove_publication_length buf)

pub decode : List ℕ → Option RemovePublication
decode buf = if ltb (length buf) remove_publication_length then none else some (overlay buf)

-- The fields are values of their types.
pub record InRange (h : RemovePublication) : Type 0 where
  pub correlation_id : h.correlation_id < 2 ^ 64
  pub client_id : h.client_id < 2 ^ 64
  pub registration_id : h.registration_id < 2 ^ 64

overlay-bytes : (h : RemovePublication) (rest : List ℕ) → InRange h → overlay (bytes h ++ rest) ≡ h
overlay-bytes h rest v = λ i. record {
  correlation_id = of_le-le_bytes_8 _ v.correlation_id i;
  client_id = of_le-le_bytes_8 _ v.client_id i;
  registration_id = of_le-le_bytes_8 _ v.registration_id i;
}

-- What is encoded is decoded.
pub decode-encode :
    (h : RemovePublication) (buf : List ℕ)
    → InRange h
    → remove_publication_length ≤ length buf
    → ((encode h buf).0 ≡ some remove_publication_length) × (decode (encode h buf).1 ≡ some h)
unfolding encode decode
decode-encode h buf v room =
    let e : overlay (bytes h ++ drop remove_publication_length buf) ≡ h =
      overlay-bytes h (drop remove_publication_length buf) v in
    ground (arith, e)
