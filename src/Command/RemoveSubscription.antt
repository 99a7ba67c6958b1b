-- ===== src/Command/RemoveSubscription.antt =====
-- `RemoveSubscription`.
use aeron_rs.Prelude.{
  ℕ, ◌^◌, ◌≤◌, ◌<◌, ◌≡◌, Option, none, some, List, ◌++◌, arith, ltb, if◌then◌else◌, length, drop,
}
use aeron_rs.Prelude.Memory.{le_bytes, of_le-le_bytes_8}
use aeron_rs.Command.{field, remove_subscription_length}

pub record RemoveSubscription : Type 0 where
  pub correlation_id : ℕ
  pub client_id : ℕ
  pub registration_id : ℕ

abbrev pub overlay : List ℕ → RemoveSubscription
overlay buf = record {
  correlation_id = field buf 0 8;
  client_id = field buf 8 8;
  registration_id = field buf 16 8;
}

abbrev pub bytes : RemoveSubscription → List ℕ
bytes h = le_bytes 8 h.correlation_id ++ (le_bytes 8 h.client_id ++ (le_bytes 8 h.registration_id))

pub encode : RemoveSubscription → List ℕ → Option ℕ × List ℕ
encode h buf =
    if ltb (length buf) remove_subscription_length
    then (none, buf)
    else (some remove_subscription_length, bytes h ++ drop remove_subscription_length buf)

pub decode : List ℕ → Option RemoveSubscription
decode buf = if ltb (length buf) remove_subscription_length then none else some (overlay buf)

-- The fields are values of their types.
pub record InRange (h : RemoveSubscription) : Type 0 where
  pub correlation_id : h.correlation_id < 2 ^ 64
  pub client_id : h.client_id < 2 ^ 64
  pub registration_id : h.registration_id < 2 ^ 64

overlay-bytes : (h : RemoveSubscription) (rest : List ℕ) → InRange h → overlay (bytes h ++ rest) ≡ h
overlay-bytes h rest v = λ i. record {
  correlation_id = of_le-le_bytes_8 _ v.correlation_id i;
  client_id = of_le-le_bytes_8 _ v.client_id i;
  registration_id = of_le-le_bytes_8 _ v.registration_id i;
}

-- What is encoded is decoded.
pub decode-encode :
    (h : RemoveSubscription) (buf : List ℕ)
    → InRange h
    → remove_subscription_length ≤ length buf
    → ((encode h buf).0 ≡ some remove_subscription_length) × (decode (encode h buf).1 ≡ some h)
unfolding encode decode
decode-encode h buf v room =
    let e : overlay (bytes h ++ drop remove_subscription_length buf) ≡ h =
      overlay-bytes h (drop remove_subscription_length buf) v in
    ground (arith, e)
