-- ===== src/Command/SubscriptionReady.antt =====
-- `SubscriptionReady`.
use aeron_rs.Prelude.{
  ℕ, ◌^◌, ◌≤◌, ◌<◌, ◌≡◌, Option, none, some, List, ◌++◌, arith, ltb, if◌then◌else◌, length, drop,
}
use aeron_rs.Prelude.Memory.{le_bytes, of_le-le_bytes_4, of_le-le_bytes_8}
use aeron_rs.Command.{field, subscription_ready_length}

pub record SubscriptionReady : Type 0 where
  pub correlation_id : ℕ
  pub channel_status_indicator_id : ℕ

abbrev pub overlay : List ℕ → SubscriptionReady
overlay buf = record { correlation_id = field buf 0 8; channel_status_indicator_id = field buf 8 4 }

abbrev pub bytes : SubscriptionReady → List ℕ
bytes h = le_bytes 8 h.correlation_id ++ (le_bytes 4 h.channel_status_indicator_id)

pub encode : SubscriptionReady → List ℕ → Option ℕ × List ℕ
encode h buf =
    if ltb (length buf) subscription_ready_length
    then (none, buf)
    else (some subscription_ready_length, bytes h ++ drop subscription_ready_length buf)

pub decode : List ℕ → Option SubscriptionReady
decode buf = if ltb (length buf) subscription_ready_length then none else some (overlay buf)

-- The fields are values of their types.
pub record InRange (h : SubscriptionReady) : Type 0 where
  pub correlation_id : h.correlation_id < 2 ^ 64
  pub channel_status_indicator_id : h.channel_status_indicator_id < 2 ^ 32

overlay-bytes : (h : SubscriptionReady) (rest : List ℕ) → InRange h → overlay (bytes h ++ rest) ≡ h
overlay-bytes h rest v = λ i. record {
  correlation_id = of_le-le_bytes_8 _ v.correlation_id i;
  channel_status_indicator_id = of_le-le_bytes_4 _ v.channel_status_indicator_id i;
}

-- What is encoded is decoded.
pub decode-encode :
    (h : SubscriptionReady) (buf : List ℕ)
    → InRange h
    → subscription_ready_length ≤ length buf
    → ((encode h buf).0 ≡ some subscription_ready_length) × (decode (encode h buf).1 ≡ some h)
unfolding encode decode
decode-encode h buf v room =
    let e : overlay (bytes h ++ drop subscription_ready_length buf) ≡ h =
      overlay-bytes h (drop subscription_ready_length buf) v in
    ground (arith, e)
